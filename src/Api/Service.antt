-- ===== src/Api/Service.antt =====
-- crates/api/src/service.rs: the orchestrator of a request, and ckd's strict check of signatures
-- (crates/ckd/src/pin.rs).
pub mod Admission
pub mod Answers
pub mod Replay
use overlay_broadcast.Base.{
  ℕ, ◌≡◌, Bool, true, false, ◌&&◌, not, Option, none, some, List, [], ◌∷◌, ltb, length,
  if◌then◌else◌, ok, err, and_then, ◌>>=◌, ◌>>◌,
}
use overlay_broadcast.Bsv.HeaderChain.{HeaderChain, contains_merkle_root}
use overlay_broadcast.Api.Error.{
  ApiResult, unauthorized, replay, expired, oversize, rate_limited, timeout, not_terminated,
}
use overlay_broadcast.Api.Config.{ApiConfig, validate}
use overlay_broadcast.Api.Auth.{CallerRegistry, NonceStore, public_key, check_and_record}
use overlay_broadcast.Api.RateLimit.{RateLimiter, allow}
use overlay_broadcast.Api.RateLimit
use overlay_broadcast.Api.Request.{Operation, Request, name, requires_auth, signing_prehash}
use overlay_broadcast.Api.Audit.{AuditLog, push_entry}

-- What the code calls of `k256` and `sha2`.
pub record Crypto : Type 1 where
  pub VerifyingKey : Type 0
  pub Signature : Type 0
  pub digest : List ℕ → List ℕ
  pub from_sec1_bytes : List ℕ → Option VerifyingKey
  pub from_der : List ℕ → Option Signature
  pub normalize_s : Signature → Option Signature
  pub verify_prehash : VerifyingKey → List ℕ → Signature → Bool

pub record OperationResponse : Type 0 where
  pub data_bytes : List ℕ
  pub chain_root : Option (List ℕ)

-- The trait `Backend`: a state, and `execute`.
pub record Backend : Type 1 where
  pub State : Type 0
  pub execute : State → Operation → List ℕ → State × ApiResult OperationResponse

module _ (crypto : Crypto) where
  unfoldable pub is_low_s : crypto.Signature → Bool
  is_low_s signature = elim (crypto.normalize_s signature) [ none ↦ true | some _ ↦ false ]

  unfoldable pub verify_der_prehash : List ℕ → List ℕ → List ℕ → Bool
  unfolding is_low_s
  verify_der_prehash public_key_sec1 prehash signature_der =
      elim (crypto.from_sec1_bytes public_key_sec1) [
        | none ↦ false
        | some key ↦ (elim (crypto.from_der signature_der) [
          | none ↦ false
          | some signature ↦ is_low_s signature && crypto.verify_prehash key prehash signature
        ])
      ]

module _ (crypto : Crypto) (backend : Backend) where
  pub record ApiService : Type 0 where
    pub config : ApiConfig
    pub callers : CallerRegistry
    pub nonces : NonceStore
    pub limiter : RateLimiter
    pub audit : AuditLog
    pub header_chain : HeaderChain
    pub backend_state : backend.State

  unfoldable pub new :
      ApiConfig → CallerRegistry → HeaderChain → backend.State → ApiResult ApiService
  new config callers header_chain b = do
    validate config
    ok (record {
      config = config;
      callers = callers;
      nonces = record { seen = [] };
      limiter = RateLimit.new config.rate_limit_per_window config.rate_window_secs;
      audit = record { entries = [] };
      header_chain = header_chain;
      backend_state = b;
    })

  -- The steps of `authenticate` that change nothing: the key, the expiry, the signature.
  unfoldable pub check_caller : ApiService → Request → ℕ → ApiResult (Unit {0})
  unfolding signing_prehash
  check_caller s request now = elim (public_key s.callers request.caller) [
    | none ↦ err unauthorized
    | some key ↦
        if ltb request.expiry_unix now
        then err expired
        else if not (
            verify_der_prehash crypto key (signing_prehash crypto.digest request) request.signature)
        then err unauthorized
        else ok tt
  ]

  -- The steps that do: the nonce, then the budget of the caller.
  unfoldable pub spend : ApiService → Request → ℕ → ApiService × ApiResult (Unit {0})
  unfolding check_and_record allow
  spend s request now =
      let n = check_and_record s.nonces request.caller request.nonce in
      let l = allow s.limiter request.caller now in
      if not n.1
      then (record s { nonces = n.0 }, err replay)
      else (record s { nonces = n.0; limiter = l.0 }, if not l.1 then err rate_limited else ok tt)

  unfoldable pub authenticate : ApiService → Request → ℕ → ApiService × ApiResult (Unit {0})
  unfolding check_caller spend
  authenticate s request now = and_then (s, check_caller s request now) (λ t. spend t request now)

  unfoldable pub assert_terminates : ApiService → List ℕ → ApiResult (Unit {0})
  assert_terminates s root = elim (contains_merkle_root s.header_chain root) [
    | some _ ↦ ok tt
    | none ↦ err not_terminated
  ]

  abbrev outcome_of : ApiResult OperationResponse → List ℕ
  outcome_of (ok _) = b'o' ∷ b'k' ∷ []
  outcome_of (err _) = b'e' ∷ b'r' ∷ b'r' ∷ b'o' ∷ b'r' ∷ []

  -- The end of `handle`: the timeout, the backend's error, the chain root.
  unfoldable pub conclude : ApiService → ℕ → ApiResult OperationResponse → ApiResult (List ℕ)
  unfolding assert_terminates
  conclude s elapsed result = if ltb s.config.op_timeout_millis elapsed then err timeout else do
    response ← result
    elim response.chain_root [ none ↦ ok tt | some root ↦ assert_terminates s root ]
    ok response.data_bytes

  -- `handle` from the call of the backend on, which took `elapsed` milliseconds by the clock.
  unfoldable pub perform : ApiService → Request → ℕ → ℕ → ApiService × ApiResult (List ℕ)
  unfolding conclude push_entry
  perform s request now elapsed =
      let executed = backend.execute s.backend_state request.operation request.payload in
      let after = record s {
        backend_state = executed.0;
        audit =
            push_entry s.audit now request.caller (name request.operation) request.position
              (outcome_of executed.1);
      } in
      (after, conclude after elapsed executed.1)

  unfoldable pub handle : ApiService → Request → ℕ → ℕ → ApiService × ApiResult (List ℕ)
  unfolding authenticate perform
  handle s request now elapsed =
      if ltb s.config.max_payload_bytes (length request.payload)
      then (s, err oversize)
      else if requires_auth request.operation
      then and_then (authenticate s request now) (λ t. perform t request now elapsed)
      else perform s request now elapsed
