-- ===== src/Api/Service/Answers.antt =====
-- What an answer of the service of crates/api/src/service.rs shows, and what each request leaves in
-- its audit log.
use overlay_broadcast.Base.{
  ℕ, ◌≤◌, ◌≡◌, ◌⊎◌, inl, inr, refl, sym, Bool, true, false, Option, none, some, List, [], ◌∷◌, ◌++◌,
  length, ltb, arith, ok, err, >>=-eq-ok, if◌then◌else◌, Option-cases, ◌>>◌,
}
use overlay_broadcast.Bsv.HeaderChain.{contains_merkle_root}
use overlay_broadcast.Api.Error.{ApiError, ApiResult, timeout}
use overlay_broadcast.Api.Auth.{public_key}
use overlay_broadcast.Api.RateLimit.{allow}
use overlay_broadcast.Api.Request.{Request, requires_auth, name, signing_prehash}
use overlay_broadcast.Api.Audit.{AuditEntry, push_entry}
use overlay_broadcast.Api.Service.{
  Crypto, Backend, OperationResponse, check_caller, conclude, perform, handle, assert_terminates,
  outcome_of, verify_der_prehash,
}
use overlay_broadcast.Api.Service.Admission.{
  Service, Handled, refused, open_call, signed_call, handle-Handled, seen,
}

module _ (crypto : Crypto) (backend : Backend) where
  abbrev pub executed :
      Service crypto backend → Request → backend.State × ApiResult OperationResponse
  executed s r = backend.execute s.backend_state r.operation r.payload

  -- The entry that a performed request leaves.
  abbrev pub entry : Service crypto backend → Request → ℕ → AuditEntry
  entry s r now = record {
    timestamp = now;
    caller = r.caller;
    operation = name r.operation;
    node_position = r.position;
    outcome = outcome_of crypto backend (executed s r).1;
  }

  audit_of_Handled :
      (s : Service crypto backend) (r : Request) (now elapsed : ℕ)
      (x : Service crypto backend × ApiResult (List ℕ))
      → Handled crypto backend s r now elapsed x
      → ((x.0.backend_state ≡ s.backend_state)
          × (x.0.audit ≡ s.audit)
          × ((e : ApiError) × (x.1 ≡ err e)))
        ⊎ ((x.0.backend_state ≡ (executed s r).0)
            × (x.0.audit.entries ≡ s.audit.entries ++ (entry s r now ∷ [])))
  unfolding perform push_entry
  audit_of_Handled s r now elapsed _ (refused t e k) = inl (k.backend_state, k.audit, (e, refl))
  audit_of_Handled s r now elapsed _ (open_call fits auth) = inr (refl, refl)
  audit_of_Handled s r now elapsed _ (signed_call t fits auth k a) =
      inr (rw k.backend_state refl, rw (k.backend_state, k.audit) refl)

  -- Each request either is refused with an error, and then the backend's state and the audit log
  -- are as before, or is executed once on the backend, and then the log has one new entry at its
  -- end, with the request's time, caller, operation and position and the outcome of the execution.
  pub handle_audit :
      (s : Service crypto backend) (r : Request) (now elapsed : ℕ)
      → (((handle crypto backend s r now elapsed).0.backend_state ≡ s.backend_state)
          × ((handle crypto backend s r now elapsed).0.audit ≡ s.audit)
          × ((e : ApiError) × ((handle crypto backend s r now elapsed).1 ≡ err e)))
        ⊎ (((handle crypto backend s r now elapsed).0.backend_state ≡ (executed s r).0)
            × ((handle crypto backend s r now elapsed).0.audit.entries
                ≡ s.audit.entries ++ (entry s r now ∷ [])))
  handle_audit s r now elapsed =
      audit_of_Handled s r now elapsed (handle crypto backend s r now elapsed)
        (handle-Handled crypto backend s r now elapsed)

  -- The chain root of a response, where it has one, is that of a header of the chain.
  abbrev pub Terminates : Service crypto backend → Option (List ℕ) → Type 0
  Terminates s none = Unit
  Terminates s (some root) = (height : ℕ) × (contains_merkle_root s.header_chain root ≡ some height)

  in_time :
      (late : Bool) (m : ApiResult (List ℕ)) (bytes : List ℕ)
      → (if late then err timeout else m) ≡ ok bytes
      → (late ≡ false) × (m ≡ ok bytes)
  in_time true m bytes h = absurd (cc)
  in_time false m bytes h = (refl, h)

  failed : (e : ApiError) (bytes : List ℕ) → ◌≡◌ {A = ApiResult (List ℕ)} (err e) (ok bytes) → ⊥
  failed e bytes h = cc

  root_in_chain :
      (s : Service crypto backend) (root : List ℕ)
      → assert_terminates crypto backend s root ≡ ok tt
      → Terminates s (some root)
  unfolding assert_terminates
  root_in_chain s root h = elim (Option-cases (contains_merkle_root s.header_chain root)) [
    | inl none_found ↦ absurd (ground (arith, h, none_found))
    | inr found ↦ found
  ]

  concluded :
      (s : Service crypto backend) (root : Option (List ℕ)) (out bytes : List ℕ)
      → (elim root as (λ _. ApiResult (Unit {0})) [
        | none ↦ ok tt
        | some r ↦ assert_terminates crypto backend s r
      ]
          >> ok out)
        ≡ ok bytes
      → Terminates s root × (out ≡ bytes)
  concluded s none out bytes h = (tt, cc)
  concluded s (some root) out bytes h =
      let k = >>=-eq-ok (assert_terminates crypto backend s root) (λ _. ok out) h in
      (root_in_chain s root k.1, cc)

  conclude-ok :
      (s : Service crypto backend) (elapsed : ℕ) (m : ApiResult OperationResponse) (bytes : List ℕ)
      → conclude crypto backend s elapsed m ≡ ok bytes
      → (elapsed ≤ s.config.op_timeout_millis)
        × ((response : OperationResponse) × (m ≡ ok response)
            × (Terminates s response.chain_root × (response.data_bytes ≡ bytes)))
  unfolding conclude
  conclude-ok s elapsed (ok response) bytes h =
      let k = in_time (ltb s.config.op_timeout_millis elapsed) _ bytes h in
      (
        ground (arith, k.0),
        (response, refl, concluded s response.chain_root response.data_bytes bytes k.1),
      )
  conclude-ok s elapsed (err e) bytes h =
      absurd (failed e bytes (in_time (ltb s.config.op_timeout_millis elapsed) _ bytes h).1)

  -- What an answer to a request that needs a signature shows of the request and the service.
  pub record Answered (s t : Service crypto backend) (r : Request) (now elapsed : ℕ)
      (bytes : List ℕ) : Type 0 where
    pub fits : length r.payload ≤ s.config.max_payload_bytes
    pub key : List ℕ
    pub registered : public_key s.callers r.caller ≡ some key
    pub unexpired : now ≤ r.expiry_unix
    pub signed : verify_der_prehash crypto key (signing_prehash crypto.digest r) r.signature ≡ true
    pub fresh : seen s.nonces r ≡ false
    pub spent : seen t.nonces r ≡ true
    pub within : (allow s.limiter r.caller now).1 ≡ true
    pub intime : elapsed ≤ s.config.op_timeout_millis
    pub response : OperationResponse
    pub returned : (executed s r).1 ≡ ok response
    pub terminates : Terminates s response.chain_root
    pub data_bytes : response.data_bytes ≡ bytes

  check_caller-ok :
      (s : Service crypto backend) (r : Request) (now : ℕ)
      → check_caller crypto backend s r now ≡ ok tt
      → (key : List ℕ) × (public_key s.callers r.caller ≡ some key)
        × (now ≤ r.expiry_unix)
        × (verify_der_prehash crypto key (signing_prehash crypto.digest r) r.signature ≡ true)
  unfolding check_caller
  check_caller-ok s r now h = elim (Option-cases (public_key s.callers r.caller)) [
    | inl no_key ↦ absurd (ground (arith, h, no_key))
    | inr (key, found) ↦ (key, found, ground (arith, h, found), ground (arith, h, found))
  ]

  Handled-Answered :
      (s : Service crypto backend) (r : Request) (now elapsed : ℕ) (bytes : List ℕ)
      (x : Service crypto backend × ApiResult (List ℕ))
      → Handled crypto backend s r now elapsed x
      → requires_auth r.operation ≡ true
      → x.1 ≡ ok bytes
      → Answered s x.0 r now elapsed bytes
  unfolding perform
  Handled-Answered s r now elapsed bytes _ (refused t e k) auth h = absurd (cc)
  Handled-Answered s r now elapsed bytes _ (open_call fits unsigned) auth h = absurd (cc)
  Handled-Answered s r now elapsed bytes _ (signed_call t fits needs k a) auth h =
      let c = check_caller-ok s r now a.checked in
      let d =
        conclude-ok (perform crypto backend t r now elapsed).0 elapsed (executed t r).1 bytes h in
      record {
        fits = fits;
        key = c.0;
        registered = c.1;
        unexpired = c.2;
        signed = c.3;
        fresh = a.fresh;
        spent = a.spent;
        within = a.within;
        intime = rw (sym k.config) d.0;
        response = d.1.0;
        returned = rw (sym k.backend_state) d.1.1;
        terminates = rw (sym k.header_chain) d.1.2.0;
        data_bytes = d.1.2.1;
      }

  -- A request that needs a signature is answered only if its payload is within the limit, its
  -- caller is registered with a key under which its signature over the signing hash verifies, it
  -- has not expired, its nonce was new for the caller and is now spent, the caller's budget
  -- allowed it, the backend returned the bytes within the timeout, and the chain root that the
  -- backend claims, if any, is found in the header chain.
  pub handle-Answered :
      (s : Service crypto backend) (r : Request) (now elapsed : ℕ) (bytes : List ℕ)
      → requires_auth r.operation ≡ true
      → (handle crypto backend s r now elapsed).1 ≡ ok bytes
      → Answered s (handle crypto backend s r now elapsed).0 r now elapsed bytes
  handle-Answered s r now elapsed bytes auth h =
      Handled-Answered s r now elapsed bytes (handle crypto backend s r now elapsed)
        (handle-Handled crypto backend s r now elapsed) auth h
