-- ===== src/Cipher/Nonces.antt =====
-- crates/cipher/src/aead.rs: the nonces of a run of `AeadCipher::encrypt`.
use overlay_broadcast.Base.{
  ℕ, suc, ◌+◌, ◌≤◌, ◌<◌, ◌^◌, Bool, true, false, Option, none, some, List, [], ◌∷◌, ◌++◌, Result,
  ok, err, ◌>>=◌, ltb, All, All-imp, All-append, All, drop, drop-append, length, length-reverse,
  then_with, ◌≡◌, ◌≢◌, refl, sym, ap, ◌∙◌, ◌⊎◌, inl, inr, Bool-cases, arith, ltb→lt, if◌then◌else◌,
}
use overlay_broadcast.Base
use overlay_broadcast.Base.LittleEndian.{
  be_bytes, to_le_bytes, from_le_bytes, from_le_bytes-to_le_bytes, length-to_le_bytes,
}
use overlay_broadcast.Bsv.Cursor.{u64_size}
use overlay_broadcast.Cipher.Primitives.{Primitives}
use overlay_broadcast.Cipher.Aead.{CipherResult, Ciphertext, AeadCipher, next_nonce, seal, encrypt}
use mathlib.Core.List.{reverse, reverse-reverse}

abbrev nonce_at : ℕ → ℕ → List ℕ
nonce_at epoch counter = be_bytes 4 epoch ++ be_bytes 8 counter

abbrev counter_of : List ℕ → ℕ
counter_of nonce = from_le_bytes (reverse (drop 4 nonce))

counter_of-nonce_at :
    (epoch counter : ℕ) → counter < u64_size → counter_of (nonce_at epoch counter) ≡ counter
counter_of-nonce_at epoch counter h =
    ap (λ n. from_le_bytes (reverse (drop n (nonce_at epoch counter)))) (sym four)
    ∙ ap (λ l. from_le_bytes (reverse l)) (drop-append (be_bytes 4 epoch) (be_bytes 8 counter))
    ∙ ap from_le_bytes (reverse-reverse (to_le_bytes 8 counter))
    ∙ from_le_bytes-to_le_bytes 8 counter h
  where
    four : length (be_bytes 4 epoch) ≡ 4
    four = length-reverse (to_le_bytes 4 epoch) ∙ length-to_le_bytes 4 epoch

-- The nonce of a ciphertext, if there is one.
abbrev nonces_of : CipherResult Ciphertext → List (List ℕ)
nonces_of (ok ct) = ct.nonce ∷ []
nonces_of (err e) = []

abbrev pub AllDifferent : List (List ℕ) → Type 0
AllDifferent [] = Unit
AllDifferent (x ∷ xs) = All (λ y. x ≢ y) xs × AllDifferent xs

-- A nonce of the epoch whose counter is not below the given one.
unfoldable IsLater : ℕ → ℕ → List ℕ → Type 0
IsLater epoch counter nonce = (k : ℕ) × (counter ≤ k) × (k < u64_size) × (nonce ≡ nonce_at epoch k)

module _ {Point : Type 0} (p : Primitives Point) where
  -- The nonces of the ciphertexts that encryptions of texts with associated data give, one after the
  -- other.
  unfoldable pub nonces : AeadCipher → List (List ℕ × List ℕ) → List (List ℕ)
  nonces c [] = []
  nonces c ((text, aad) ∷ xs) = let r = encrypt p c text aad in nonces_of r.1 ++ nonces r.0 xs

  -- A step: it fails and keeps the counter, or takes the nonce of the counter, which goes up.
  encrypt_cases :
      (c : AeadCipher) (text aad : List ℕ)
      → ((encrypt p c text aad).0 ≡ c) × (nonces_of (encrypt p c text aad).1 ≡ [])
        ⊎ ((c.counter < u64_size)
            × ((encrypt p c text aad).0 ≡ record c { counter = c.counter + 1 })
            × ((nonces_of (encrypt p c text aad).1 ≡ [])
                ⊎ (nonces_of (encrypt p c text aad).1 ≡ nonce_at c.epoch c.counter ∷ [])))
  unfolding encrypt next_nonce
  encrypt_cases c text aad = elim (Bool-cases (ltb (c.counter + 1) u64_size)) [
    | inr full ↦ inl (rw (encrypt, next_nonce, full) (refl, refl))
    | inl room ↦ inr (
        rw (encrypt, next_nonce, room)
          (
            omega (arith, ltb→lt (c.counter + 1) u64_size room),
            refl,
            sealed (seal p c.key (nonce_at c.epoch c.counter) text aad),
          ))
  ]
    where
      sealed :
          (r : CipherResult (List ℕ))
          → (nonces_of (
                Base.◌>>=◌ r
                  λ bytes. ok (record { nonce = nonce_at c.epoch c.counter; bytes = bytes }))
              ≡ [])
            ⊎ (nonces_of (
                  Base.◌>>=◌ r
                    λ bytes. ok (record { nonce = nonce_at c.epoch c.counter; bytes = bytes }))
                ≡ nonce_at c.epoch c.counter ∷ [])
      sealed (ok bytes) = inr refl
      sealed (err e) = inl refl

  IsLater-weaken :
      (epoch counter : ℕ) (xs : List (List ℕ))
      → All (IsLater epoch (counter + 1)) xs
      → All (IsLater epoch counter) xs
  unfolding IsLater
  IsLater-weaken epoch counter xs h =
      All-imp (IsLater epoch (counter + 1)) (IsLater epoch counter) xs
        (λ nonce l. (l.0, omega (arith, l.1), l.2, l.3)) h

  nonces-IsLater :
      (c : AeadCipher) (xs : List (List ℕ × List ℕ)) → All (IsLater c.epoch c.counter) (nonces c xs)
  unfolding nonces IsLater
  nonces-IsLater c [] = tt
  nonces-IsLater c ((text, aad) ∷ xs) = elim (encrypt_cases c text aad) [
    | inl same ↦ rw (nonces, same.1, same.0) (nonces-IsLater c xs)
    | inr (low, next, inl none_out) ↦
        rw (nonces, none_out, next)
          (IsLater-weaken c.epoch c.counter (nonces (record c { counter = c.counter + 1 }) xs)
            (nonces-IsLater (record c { counter = c.counter + 1 }) xs))
    | inr (low, next, inr out) ↦
        rw (nonces, out, next)
          (
            (c.counter, omega arith, low, refl),
            IsLater-weaken c.epoch c.counter (nonces (record c { counter = c.counter + 1 }) xs)
                (nonces-IsLater (record c { counter = c.counter + 1 }) xs),
          )
  ]

  later_differs :
      (epoch counter : ℕ) (xs : List (List ℕ))
      → counter < u64_size
      → All (IsLater epoch (counter + 1)) xs
      → All (λ y. nonce_at epoch counter ≢ y) xs
  unfolding IsLater
  later_differs epoch counter xs low h =
      All-imp (IsLater epoch (counter + 1)) (λ y. nonce_at epoch counter ≢ y) xs
        (λ nonce l same.
          let e =
            sym (counter_of-nonce_at epoch counter low)
            ∙ ap counter_of (same ∙ l.3)
            ∙ counter_of-nonce_at epoch l.0 l.2 in
          absurd (omega (arith, e, l.1)))
        h

  -- The nonces of all the ciphertexts that any run of `encrypt` on one cipher gives, whatever the
  -- texts, the associated data and the starting counter, differ from each other.
  pub nonces-AllDifferent :
      (c : AeadCipher) (xs : List (List ℕ × List ℕ)) → AllDifferent (nonces c xs)
  unfolding nonces
  nonces-AllDifferent c [] = tt
  nonces-AllDifferent c ((text, aad) ∷ xs) = elim (encrypt_cases c text aad) [
    | inl same ↦ rw (nonces, same.1, same.0) (nonces-AllDifferent c xs)
    | inr (low, next, inl none_out) ↦
        rw (nonces, none_out, next) (nonces-AllDifferent (record c { counter = c.counter + 1 }) xs)
    | inr (low, next, inr out) ↦
        rw (nonces, out, next)
          (
            later_differs c.epoch c.counter (nonces (record c { counter = c.counter + 1 }) xs) low
                (nonces-IsLater (record c { counter = c.counter + 1 }) xs),
            nonces-AllDifferent (record c { counter = c.counter + 1 }) xs,
          )
  ]
