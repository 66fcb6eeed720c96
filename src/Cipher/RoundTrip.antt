-- ===== src/Cipher/RoundTrip.antt =====
-- What crates/cipher seals, it opens: keywrap.rs and ecies.rs.
use overlay_broadcast.Base.{
  ℕ, suc, Option, some, List, ok, >>=-eq-ok, then_with-eq-ok, ◌==◌, length, ◌≡◌, refl, sym, ap, ◌∙◌,
  inl, inr, Bool-cases, Option-cases, ok_inj, err_ok, ok_or-eq-ok, zero,
}
use overlay_broadcast.Cipher.Primitives.{Primitives, IsCipher}
use overlay_broadcast.Cipher.Aead.{aead, random, seal, unseal}
use overlay_broadcast.Cipher.Keywrap.{WrappedKey, keywrap_aad, draw, wrap, unwrap}
use overlay_broadcast.Cipher.Ecies.{
  EciesCiphertext, Recipient, SealedMessage, symmetric, asymmetric, seal_for, open_for,
  ecies_encrypt, ecies_decrypt, encrypt_with, shared_secret_x, derive_key_nonce, ephemeral_keypair,
  ephemeral_rounds, encode_compressed,
}

module _ {Point : Type 0} (p : Primitives Point) where
  -- The recipient that a key opens for: the key itself, or the public key of a secret key.
  pub data Opens : Recipient → Option (List ℕ) → Option (List ℕ) → Type 0 where
    by_key : (key : List ℕ) {other : Option (List ℕ)} → Opens (symmetric key) (some key) other
    by_secret :
        (key : List ℕ) (a : ℕ) {other : Option (List ℕ)}
        → p.secret_key key ≡ some a
        → Opens (asymmetric (p.encoded (p.multiply p.generator a))) other (some key)

module _ {Point : Type 0} (p : Primitives Point) (c : IsCipher p) where
  pub unseal-seal :
      (key nonce text aad out : List ℕ)
      → seal p key nonce text aad ≡ ok out
      → unseal p key nonce out aad ≡ ok text
  unfolding seal unseal
  unseal-seal key nonce text aad out h = elim (Bool-cases (length key == 32)) [
    | inr short ↦ absurd (err_ok (rw (seal, short) at h))
    | inl long ↦
        rw (unseal, long)
          (rw
            (c.decrypts key nonce text aad
              (ok_or-eq-ok aead (p.encrypt key nonce text aad) (rw (seal, long) at h)))
            refl)
  ]

  pub unwrap-wrap :
      (key secret : List ℕ) (i j : ℕ) (w : WrappedKey)
      → wrap p key secret i ≡ (j, ok w)
      → unwrap p key w ≡ ok secret
  unfolding wrap unwrap
  unwrap-wrap key secret i j w h =
      let first = then_with-eq-ok (draw p random 12 i) _ h in
      let second = >>=-eq-ok (seal p key first.0 secret keywrap_aad) _ (ap (λ r. r.1) first.3) in
      rw (← ok_inj second.2) (unseal-seal key first.0 secret keywrap_aad second.0 second.1)

  encode_compressed_lem : (q : Point) (x : List ℕ) → encode_compressed p q ≡ ok x → p.encoded q ≡ x
  unfolding encode_compressed
  encode_compressed_lem q x h = elim (Bool-cases (length (p.encoded q) == 33)) [
    | inl fits ↦ ok_inj (rw (encode_compressed, fits) at h)
    | inr unfit ↦ absurd (err_ok (rw (encode_compressed, unfit) at h))
  ]

  -- A round of ECIES that has an ephemeral key answers with its public key.
  ephemeral_rounds_lem :
      (rounds i j secret : ℕ) (public : List ℕ)
      → ephemeral_rounds p rounds i ≡ (j, ok (secret, public))
      → (bytes : List ℕ) × (p.secret_key bytes ≡ some secret)
        × (p.encoded (p.multiply p.generator secret) ≡ public)
  unfolding ephemeral_rounds encode_compressed
  ephemeral_rounds_lem zero i j secret public h = absurd (err_ok (ap (λ r. r.1) h))
  ephemeral_rounds_lem (suc rounds) i j secret public h =
      let first = then_with-eq-ok (draw p random 32 i) _ h in
      elim (Option-cases (p.secret_key first.0)) [
        | inl bad ↦ ephemeral_rounds_lem rounds first.1 j secret public (rw bad at first.3)
        | inr (s, good) ↦
            let second =
              >>=-eq-ok (encode_compressed p (p.multiply p.generator s)) _
                (ap (λ r. r.1) (rw good at first.3)) in
            let e = ok_inj second.2 in
            (
              first.0,
              good ∙ ap (λ x. some x.0) e,
              ap (λ x. p.encoded (p.multiply p.generator x.0)) (sym e)
                  ∙ encode_compressed_lem (p.multiply p.generator s) second.0 second.1
                  ∙ ap (λ x. x.1) e,
            )
      ]

  -- `ecies_decrypt` undoes `ecies_encrypt` with an ephemeral key.
  decrypt-encrypt_with :
      (key bytes : List ℕ) (a e : ℕ) (text aad : List ℕ) (ct : EciesCiphertext)
      → p.secret_key key ≡ some a
      → p.secret_key bytes ≡ some e
      → encrypt_with p
          (e, p.encoded (p.multiply p.generator e))
          (p.encoded (p.multiply p.generator a))
          text
          aad
        ≡ ok ct
      → ecies_decrypt p key ct aad ≡ ok text
  unfolding encrypt_with ecies_decrypt
  decrypt-encrypt_with key bytes a e text aad ct mine theirs h =
      let sent = rw (encrypt_with, c.reads key a mine) at h in
      let shared = >>=-eq-ok (shared_secret_x p (p.multiply (p.multiply p.generator a) e)) _ sent in
      let agreed = rw (c.agree a e) at shared.1 in
      let derived = >>=-eq-ok (derive_key_nonce p shared.0) _ shared.2 in
      let sealed = >>=-eq-ok (seal p derived.0.0 derived.0.1 text aad) _ derived.2 in
      rw (← ok_inj sealed.2) (
        rw (ecies_decrypt, mine, c.reads bytes e theirs, agreed, derived.1)
          (unseal-seal derived.0.0 derived.0.1 text aad sealed.0 sealed.1))

  pub decrypt-encrypt :
      (key : List ℕ) (a : ℕ) (text aad : List ℕ) (i j : ℕ) (ct : EciesCiphertext)
      → p.secret_key key ≡ some a
      → ecies_encrypt p (p.encoded (p.multiply p.generator a)) text aad i ≡ (j, ok ct)
      → ecies_decrypt p key ct aad ≡ ok text
  unfolding ecies_encrypt
  decrypt-encrypt key a text aad i j ct mine h =
      let first = then_with-eq-ok (ephemeral_keypair p i) _ h in
      let e = ephemeral_rounds_lem 8 i first.1 first.0.0 first.0.1 first.2 in
      decrypt-encrypt_with key e.0 a first.0.0 text aad ct mine e.1 (rw e.2 (ap (λ r. r.1) first.3))

  -- Where AES-GCM decrypts what it encrypted, Diffie-Hellman agrees and public keys are read back:
  -- what `seal_for` returns for a recipient, in either mode and for any text, associated data and
  -- random draws, `open_for` with the recipient's key opens to the text.
  pub open_for-seal_for :
      (r : Recipient) (shared private : Option (List ℕ)) (text aad : List ℕ) (i j : ℕ)
      (sealed : SealedMessage)
      → Opens p r shared private
      → seal_for p r text aad i ≡ (j, ok sealed)
      → open_for p shared private sealed aad ≡ ok text
  unfolding seal_for open_for
  open_for-seal_for _ _ private text aad i j sealed (by_key key) h =
      let first = then_with-eq-ok (draw p random 12 i) _ h in
      let second = >>=-eq-ok (seal p key first.0 text aad) _ (ap (λ r. r.1) first.3) in
      rw (← ok_inj second.2) (unseal-seal key first.0 text aad second.0 second.1)
  open_for-seal_for _ shared _ text aad i j sealed (by_secret key a mine) h =
      let first =
        then_with-eq-ok (ecies_encrypt p (p.encoded (p.multiply p.generator a)) text aad i) _ h in
      rw (← ok_inj (ap (λ r. r.1) first.3))
        (decrypt-encrypt key a text aad i first.1 first.0 mine first.2)
