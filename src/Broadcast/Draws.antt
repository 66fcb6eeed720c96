-- ===== src/Broadcast/Draws.antt =====
-- The draws that the new keys of a rotation in crates/broadcast/src/graph.rs come from.
use overlay_broadcast.Base.{
  ℕ, suc, ◌≤◌, some, List, [], ◌∷◌, ok, then_with-eq-ok, ok_or-eq-ok, err_ok, map_err-eq-ok,
  Option-cases, inl, inr, ◌≡◌, sym, ap, ◌∙◌, arith,
}
use overlay_broadcast.Base.Dict
use overlay_broadcast.Base.Dict.{nat_eq}
use overlay_broadcast.Cipher.Primitives.{Primitives}
use overlay_broadcast.Cipher.Aead.{random}
use overlay_broadcast.Cipher.Keywrap.{WrappedKey, draw, wrap}
use overlay_broadcast.Broadcast.Graph.{Keys, RekeyMessage, random_key, cipher_of, cipher}
use overlay_broadcast.Broadcast.Update.{messages_of}

module _ {Point : Type 0} (p : Primitives Point) where
  -- The keys of the nodes are draws of 32 bytes, each a later one than that of the node before, from
  -- the number `i` on and before `j`.
  abbrev pub Drawn : ℕ → List ℕ → Keys → ℕ → Type 0
  Drawn i [] keys j = i ≤ j
  Drawn i (node ∷ nodes) keys j =
      (k : ℕ) × (i ≤ k)
      × (key : List ℕ) × (p.fill k 32 ≡ some key)
      × (Dict.get node keys ≡ some key)
      × Drawn (suc k) nodes keys j

  pub Drawn-le :
      (i k : ℕ) (nodes : List ℕ) (keys : Keys) (j : ℕ)
      → i ≤ k
      → Drawn k nodes keys j
      → Drawn i nodes keys j
  Drawn-le i k [] keys j le d = omega (arith, le, d)
  Drawn-le i k (node ∷ nodes) keys j le d = (d.0, omega (arith, le, d.1), d.2, d.3, d.4, d.5)

  draw_lem :
      {E : Type 0} (e : E) (n i j : ℕ) (x : List ℕ)
      → draw p e n i ≡ (j, ok x)
      → (j ≡ suc i) × (p.fill i n ≡ some x)
  unfolding draw
  draw_lem e n i j x h = (sym (ap (λ r. r.0) h), ok_or-eq-ok e (p.fill i n) (ap (λ r. r.1) h))

  pub random_key_lem :
      (i j : ℕ) (key : List ℕ)
      → random_key p i ≡ (j, ok key)
      → (j ≡ suc i) × (p.fill i 32 ≡ some key)
  unfolding random_key
  random_key_lem i j key h = draw_lem _ 32 i j key h

  wrap_next :
      (key secret : List ℕ) (i j : ℕ) (w : WrappedKey) → wrap p key secret i ≡ (j, ok w) → j ≡ suc i
  unfolding wrap
  wrap_next key secret i j w h =
      let first = then_with-eq-ok (draw p random 12 i) _ h in
      sym (ap (λ r. r.0) first.3) ∙ (draw_lem random 12 i first.1 first.0 first.2).0

  cipher_of_next :
      (key secret : List ℕ) (i j : ℕ) (w : WrappedKey)
      → cipher_of (wrap p key secret i) ≡ (j, ok w)
      → j ≡ suc i
  cipher_of_next key secret i j w h =
      let wrapped = wrap p key secret i in
      wrap_next key secret i j w (
        ap (λ n. (n, wrapped.1)) (ap (λ r. r.0) h)
        ∙ ap (λ r. (j, r)) (map_err-eq-ok cipher wrapped.1 (ap (λ r. r.1) h)))

  pub messages_of_next :
      (keys : Keys) (node : ℕ) (key : List ℕ) (children : List ℕ) (i j : ℕ) (ms : List RekeyMessage)
      → messages_of p keys node key children i ≡ (j, ok ms)
      → i ≤ j
  unfolding messages_of
  messages_of_next keys node key [] i j ms h = omega (arith, ap (λ r. r.0) h)
  messages_of_next keys node key (child ∷ children) i j ms h =
      elim (Option-cases (Dict.get child keys)) [
        | inl away ↦ absurd (err_ok (ap (λ r. r.1) (rw (messages_of, away) at h)))
        | inr (under, has) ↦
            let first =
              then_with-eq-ok (cipher_of (wrap p under key i)) _ (rw (messages_of, has) at h) in
            let rest = then_with-eq-ok (messages_of p keys node key children first.1) _ first.3 in
            let later = messages_of_next keys node key children first.1 rest.1 rest.0 rest.2 in
            let one = cipher_of_next under key i first.1 first.0 first.2 in
            omega (arith, one, later, ap (λ r. r.0) rest.3)
      ]
