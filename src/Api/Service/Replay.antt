-- ===== src/Api/Service/Replay.antt =====
-- Sequences of requests to the service of crates/api/src/service.rs, and the nonces along them.
use overlay_broadcast.Base.{
  ℕ, ◌≡◌, inl, inr, refl, true, List, [], ◌∷◌, length, ltb, arith, ok, err, Bool-cases, and_then,
}
use overlay_broadcast.Api.Error.{ApiError, ApiResult}
use overlay_broadcast.Api.Request.{Request, requires_auth}
use overlay_broadcast.Api.Service.{Crypto, Backend, perform, handle, authenticate}
use overlay_broadcast.Api.Service.Admission.{
  Service, Handled, refused, open_call, signed_call, handle-Handled, seen, authenticate-seen,
}
use overlay_broadcast.Api.Service.Answers.{handle-Answered}

module _ (crypto : Crypto) (backend : Backend) where
  -- The state after a sequence of requests, each with its time and the time its execution took.
  unfoldable pub serve : Service crypto backend → List (Request × ℕ × ℕ) → Service crypto backend
  unfolding handle
  serve s [] = s
  serve s ((r, now, elapsed) ∷ rs) = serve (handle crypto backend s r now elapsed).0 rs

  performed-seen :
      (p : Service crypto backend × ApiResult (Unit {0})) (r q : Request) (now elapsed : ℕ)
      → seen p.0.nonces q ≡ true
      → seen (and_then p (λ t. perform crypto backend t r now elapsed)).0.nonces q ≡ true
  unfolding perform
  performed-seen (s, ok _) r q now elapsed h = h
  performed-seen (s, err e) r q now elapsed h = h

  handle-seen :
      (s : Service crypto backend) (r q : Request) (now elapsed : ℕ)
      → seen s.nonces q ≡ true
      → seen (handle crypto backend s r now elapsed).0.nonces q ≡ true
  unfolding handle perform
  handle-seen s r q now elapsed h =
      elim (Bool-cases (ltb s.config.max_payload_bytes (length r.payload))) [
        | inl big ↦ rw big h
        | inr fits ↦ elim (Bool-cases (requires_auth r.operation)) [
          | inl auth ↦
              rw (fits, auth)
                (performed-seen (authenticate crypto backend s r now) r q now elapsed
                  (authenticate-seen crypto backend s r q now h))
          | inr unsigned ↦ rw (fits, unsigned) h
        ]
      ]

  serve-seen :
      (s : Service crypto backend) (rs : List (Request × ℕ × ℕ)) (q : Request)
      → seen s.nonces q ≡ true
      → seen (serve s rs).nonces q ≡ true
  unfolding serve
  serve-seen s [] q h = h
  serve-seen s ((r, now, elapsed) ∷ rs) q h =
      serve-seen (handle crypto backend s r now elapsed).0 rs q (handle-seen s r q now elapsed h)

  refused_of_seen :
      (s : Service crypto backend) (q : Request) (now elapsed : ℕ)
      (x : Service crypto backend × ApiResult (List ℕ))
      → Handled crypto backend s q now elapsed x
      → requires_auth q.operation ≡ true
      → seen s.nonces q ≡ true
      → (x.0.backend_state ≡ s.backend_state) × ((e : ApiError) × (x.1 ≡ err e))
  refused_of_seen s q now elapsed _ (refused t e k) auth h = (k.backend_state, (e, refl))
  refused_of_seen s q now elapsed _ (open_call fits unsigned) auth h = absurd (cc)
  refused_of_seen s q now elapsed _ (signed_call t fits needs k a) auth h =
      absurd (ground (arith, a.fresh, h))

  -- After a signed request was answered, and any requests after it, a signed request of the same
  -- caller with the same nonce is refused with an error, and the backend's state stays as it is,
  -- whatever the operation, the payload, the expiry and the signature of that second request.
  pub handle_replay :
      (s : Service crypto backend) (r q : Request) (now elapsed : ℕ) (bytes : List ℕ)
      (rs : List (Request × ℕ × ℕ)) (now_q elapsed_q : ℕ)
      → requires_auth r.operation ≡ true
      → (handle crypto backend s r now elapsed).1 ≡ ok bytes
      → q.caller ≡ r.caller
      → q.nonce ≡ r.nonce
      → requires_auth q.operation ≡ true
      → ((handle crypto backend
            (serve (handle crypto backend s r now elapsed).0 rs)
            q
            now_q
            elapsed_q).0.backend_state
          ≡ (serve (handle crypto backend s r now elapsed).0 rs).backend_state)
        × ((e : ApiError) × ((handle crypto backend
                (serve (handle crypto backend s r now elapsed).0 rs)
                q
                now_q
                elapsed_q).1
              ≡ err e))
  handle_replay s r q now elapsed bytes rs now_q elapsed_q auth answered caller nonce auth_q =
      let t = (handle crypto backend s r now elapsed).0 in
      let u = serve t rs in
      refused_of_seen u q now_q elapsed_q (handle crypto backend u q now_q elapsed_q)
        (handle-Handled crypto backend u q now_q elapsed_q) auth_q
        (serve-seen t rs q (
          rw (caller, nonce)
            (handle-Answered crypto backend s r now elapsed bytes auth answered).spent))
