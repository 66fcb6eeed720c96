-- ===== src/Api/Service/Admission.antt =====
-- The ways of a request through the service of crates/api/src/service.rs.
use overlay_broadcast.Base.{
  ℕ, ◌≤◌, ◌≡◌, inl, inr, refl, sym, ◌∙◌, ap, Bool, true, false, List, length, ltb, arith, ok, err,
  Bool-cases, not, and_then,
}
use overlay_broadcast.Base.Dict.{
  nat_eq, list_eq, pair_eq, contains, contains-insert, pair_beq_iff, pair_beq,
}
use overlay_broadcast.Api.Error.{ApiError, ApiResult, oversize}
use overlay_broadcast.Api.Auth.{NonceStore, check_and_record}
use overlay_broadcast.Api.RateLimit.{allow}
use overlay_broadcast.Api.Request.{Request, requires_auth}
use overlay_broadcast.Api.Service.{
  Crypto, Backend, ApiService, check_caller, spend, authenticate, perform, handle,
}

-- The pair that a request spends is in the store.
abbrev pub seen : NonceStore → Request → Bool
seen n r = contains (r.caller, r.nonce) n.seen

same_pair : (c : List ℕ) (n : ℕ) → pair_beq (c, n) (c, n) ≡ true
same_pair c n = (pair_beq_iff (c, n) (c, n)).1 refl

-- `check_and_record` says whether the pair is new, has it afterwards, and forgets none.
check_and_record_lem :
    (n : NonceStore) (r : Request)
    → (seen (check_and_record n r.caller r.nonce).0 r ≡ true)
      × ((check_and_record n r.caller r.nonce).1 ≡ not (seen n r))
unfolding check_and_record
check_and_record_lem n r = (
  ground (
    arith,
    contains-insert (r.caller, r.nonce) (r.caller, r.nonce) n.seen,
    same_pair r.caller r.nonce,
  ),
  ground arith,
)

check_and_record-keeps :
    (n : NonceStore) (r q : Request)
    → seen n q ≡ true
    → seen (check_and_record n r.caller r.nonce).0 q ≡ true
unfolding check_and_record
check_and_record-keeps n r q h =
    ground (arith, contains-insert (q.caller, q.nonce) (r.caller, r.nonce) n.seen)

module _ (crypto : Crypto) (backend : Backend) where
  abbrev pub Service : Type 0
  Service = ApiService crypto backend

  -- All but the nonces and the budgets is as before.
  pub record Kept (s t : Service) : Type 0 where
    pub config : t.config ≡ s.config
    pub callers : t.callers ≡ s.callers
    pub audit : t.audit ≡ s.audit
    pub header_chain : t.header_chain ≡ s.header_chain
    pub backend_state : t.backend_state ≡ s.backend_state

  -- A request got through `authenticate`.
  pub record Authenticated (s t : Service) (r : Request) (now : ℕ) : Type 0 where
    pub checked : check_caller crypto backend s r now ≡ ok tt
    pub fresh : seen s.nonces r ≡ false
    pub spent : seen t.nonces r ≡ true
    pub within : (allow s.limiter r.caller now).1 ≡ true

  Kept-refl : (s : Service) → Kept s s
  Kept-refl s = record {
    config = refl;
    callers = refl;
    audit = refl;
    header_chain = refl;
    backend_state = refl;
  }

  spend-Kept : (s : Service) (r : Request) (now : ℕ) → Kept s (spend crypto backend s r now).0
  unfolding spend
  spend-Kept s r now = record {
    config = ground arith;
    callers = ground arith;
    audit = ground arith;
    header_chain = ground arith;
    backend_state = ground arith;
  }

  spend-seen :
      (s : Service) (r q : Request) (now : ℕ)
      → seen s.nonces q ≡ true
      → seen (spend crypto backend s r now).0.nonces q ≡ true
  unfolding spend
  spend-seen s r q now h = ground (arith, check_and_record-keeps s.nonces r q h)

  spend-ok :
      (s : Service) (r : Request) (now : ℕ)
      → (spend crypto backend s r now).1 ≡ ok tt
      → (seen s.nonces r ≡ false)
        × (seen (spend crypto backend s r now).0.nonces r ≡ true)
        × ((allow s.limiter r.caller now).1 ≡ true)
  unfolding spend
  spend-ok s r now h = ground (arith, check_and_record_lem s.nonces r)

  checked-Kept :
      (m : ApiResult (Unit {0})) (s : Service) (f : Service → Service × ApiResult (Unit {0}))
      → Kept s (f s).0
      → Kept s (and_then (s, m) f).0
  checked-Kept (ok _) s f h = h
  checked-Kept (err e) s f h = Kept-refl s

  checked-seen :
      (m : ApiResult (Unit {0})) (s : Service) (f : Service → Service × ApiResult (Unit {0}))
      (q : Request)
      → seen s.nonces q ≡ true
      → seen (f s).0.nonces q ≡ true
      → seen (and_then (s, m) f).0.nonces q ≡ true
  checked-seen (ok _) s f q h k = k
  checked-seen (err e) s f q h k = h

  checked-ok :
      (m : ApiResult (Unit {0})) (s : Service) (f : Service → Service × ApiResult (Unit {0}))
      → (and_then (s, m) f).1 ≡ ok tt
      → (m ≡ ok tt) × (and_then (s, m) f ≡ f s)
  checked-ok (ok _) s f h = (refl, refl)
  checked-ok (err e) s f h = absurd (cc)

  authenticate-Kept :
      (s : Service) (r : Request) (now : ℕ) → Kept s (authenticate crypto backend s r now).0
  unfolding authenticate
  authenticate-Kept s r now =
      checked-Kept (check_caller crypto backend s r now) s (λ t. spend crypto backend t r now)
        (spend-Kept s r now)

  pub authenticate-seen :
      (s : Service) (r q : Request) (now : ℕ)
      → seen s.nonces q ≡ true
      → seen (authenticate crypto backend s r now).0.nonces q ≡ true
  unfolding authenticate
  authenticate-seen s r q now h =
      checked-seen (check_caller crypto backend s r now) s (λ t. spend crypto backend t r now) q h
        (spend-seen s r q now h)

  authenticate-Authenticated :
      (s : Service) (r : Request) (now : ℕ)
      → (authenticate crypto backend s r now).1 ≡ ok tt
      → Authenticated s (authenticate crypto backend s r now).0 r now
  unfolding authenticate
  authenticate-Authenticated s r now h =
      let c =
        checked-ok (check_caller crypto backend s r now) s (λ t. spend crypto backend t r now) h in
      let k = spend-ok s r now (sym (ap (λ p. p.1) c.1) ∙ h) in
      record {
        checked = c.0;
        fresh = k.0;
        spent = ap (λ p. seen p.0.nonces r) c.1 ∙ k.1;
        within = k.2;
      }

  -- The two ways that a request goes: refused before the backend, or performed.
  pub data Handled (s : Service) (r : Request) (now elapsed : ℕ)
      : Service × ApiResult (List ℕ) → Type 0 where
    refused : (t : Service) (e : ApiError) → Kept s t → Handled s r now elapsed (t, err e)
    open_call :
        length r.payload ≤ s.config.max_payload_bytes
        → requires_auth r.operation ≡ false
        → Handled s r now elapsed (perform crypto backend s r now elapsed)
    signed_call :
        (t : Service)
        → length r.payload ≤ s.config.max_payload_bytes
        → requires_auth r.operation ≡ true
        → Kept s t
        → Authenticated s t r now
        → Handled s r now elapsed (perform crypto backend t r now elapsed)

  admitted-Handled :
      (s : Service) (r : Request) (now elapsed : ℕ) (p : Service × ApiResult (Unit {0}))
      → length r.payload ≤ s.config.max_payload_bytes
      → requires_auth r.operation ≡ true
      → Kept s p.0
      → (p.1 ≡ ok tt → Authenticated s p.0 r now)
      → Handled s r now elapsed (and_then p (λ t. perform crypto backend t r now elapsed))
  admitted-Handled s r now elapsed (t, ok _) fits auth k h = signed_call t fits auth k (h refl)
  admitted-Handled s r now elapsed (t, err e) fits auth k h = refused t e k

  authenticated-Handled :
      (s : Service) (r : Request) (now elapsed : ℕ)
      → length r.payload ≤ s.config.max_payload_bytes
      → requires_auth r.operation ≡ true
      → Handled s r now elapsed (
          and_then
            (authenticate crypto backend s r now)
            (λ t. perform crypto backend t r now elapsed))
  authenticated-Handled s r now elapsed fits auth =
      admitted-Handled s r now elapsed (authenticate crypto backend s r now) fits auth
        (authenticate-Kept s r now) (authenticate-Authenticated s r now)

  pub handle-Handled :
      (s : Service) (r : Request) (now elapsed : ℕ)
      → Handled s r now elapsed (handle crypto backend s r now elapsed)
  unfolding handle
  handle-Handled s r now elapsed =
      elim (Bool-cases (ltb s.config.max_payload_bytes (length r.payload))) [
        | inl big ↦ rw big (refused s oversize (Kept-refl s))
        | inr fits ↦ elim (Bool-cases (requires_auth r.operation)) [
          | inl auth ↦ rw (fits, auth) (authenticated-Handled s r now elapsed (ground arith) auth)
          | inr unsigned ↦ rw (fits, unsigned) (open_call (ground arith) unsigned)
        ]
      ]
