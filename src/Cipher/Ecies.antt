-- ===== src/Cipher/Ecies.antt =====
-- crates/cipher/src/ecies.rs: ECIES and the selector of the mode.
use overlay_broadcast.Base.{
  ℕ, zero, suc, Bool, true, false, Option, none, some, List, [], ◌∷◌, Result, ok, err, ok_or, ◌>>=◌,
  ◌==◌, ltb, length, take, drop, if◌then◌else◌, then_with,
}
use overlay_broadcast.Base
use overlay_broadcast.Cipher.Primitives.{Primitives}
use overlay_broadcast.Cipher.Aead.{
  CipherResult, Ciphertext, bad_key_length, aead, random, ecies, seal, unseal,
}
use overlay_broadcast.Cipher.Keywrap.{draw}

-- `b"overlay-broadcast/ecies/v1"`
abbrev ecies_info : List ℕ
ecies_info =
    111 ∷ 118 ∷ 101 ∷ 114 ∷ 108 ∷ 97 ∷ 121 ∷ 45 ∷ 98 ∷ 114 ∷ 111 ∷ 97 ∷ 100 ∷ 99 ∷ 97 ∷ 115 ∷ 116
    ∷ 47 ∷ 101 ∷ 99 ∷ 105 ∷ 101 ∷ 115 ∷ 47 ∷ 118 ∷ 49 ∷ []

pub record EciesCiphertext : Type 0 where
  pub ephemeral_public_key : List ℕ
  pub bytes : List ℕ

pub data Recipient : Type 0 where
  symmetric asymmetric : List ℕ → Recipient

pub data SealedMessage : Type 0 where
  sealed_symmetric : Ciphertext → SealedMessage
  sealed_asymmetric : EciesCiphertext → SealedMessage

module _ {Point : Type 0} (p : Primitives Point) where
  unfoldable pub shared_secret_x : Point → CipherResult (List ℕ)
  shared_secret_x point =
      let encoded = p.encoded point in
      if ltb (length encoded) 33 then err ecies else ok (take 32 (drop 1 encoded))

  unfoldable pub encode_compressed : Point → CipherResult (List ℕ)
  encode_compressed point =
      let encoded = p.encoded point in if length encoded == 33 then ok encoded else err ecies

  -- The rest of a round whose bytes are a secret key.
  abbrev pub keypair_of : ℕ → CipherResult (ℕ × List ℕ)
  keypair_of secret =
      Base.◌>>=◌ (encode_compressed (p.multiply p.generator secret)) λ public. ok (secret, public)

  -- The rounds that are left.
  unfoldable pub ephemeral_rounds : ℕ → ℕ → ℕ × CipherResult (ℕ × List ℕ)
  unfolding draw
  ephemeral_rounds zero i = (i, err ecies)
  ephemeral_rounds (suc rounds) i = then_with (draw p random 32 i) λ bytes i.
      elim (p.secret_key bytes) [
        | some secret ↦ (i, keypair_of secret)
        | none ↦ ephemeral_rounds rounds i
      ]

  abbrev pub ephemeral_keypair : ℕ → ℕ × CipherResult (ℕ × List ℕ)
  ephemeral_keypair i = ephemeral_rounds 8 i

  -- The key and the nonce.
  unfoldable pub derive_key_nonce : List ℕ → CipherResult (List ℕ × List ℕ)
  derive_key_nonce shared_x =
      Base.◌>>=◌ (ok_or (p.expand shared_x ecies_info 44) ecies)
        λ okm. ok (take 32 okm, take 12 (drop 32 okm))

  -- `ecies_encrypt` after the ephemeral key.
  unfoldable pub encrypt_with : ℕ × List ℕ → List ℕ → List ℕ → List ℕ → CipherResult EciesCiphertext
  unfolding shared_secret_x derive_key_nonce
  encrypt_with ephemeral recipient_public_key plaintext aad =
      Base.◌>>=◌ (ok_or (p.public_key recipient_public_key) ecies) λ recipient.
        Base.◌>>=◌ (shared_secret_x (p.multiply recipient ephemeral.0)) λ shared_x.
          Base.◌>>=◌ (derive_key_nonce shared_x) λ derived.
            Base.◌>>=◌ (seal p derived.0 derived.1 plaintext aad)
              λ bytes. ok (record { ephemeral_public_key = ephemeral.1; bytes = bytes })

  unfoldable pub ecies_encrypt : List ℕ → List ℕ → List ℕ → ℕ → ℕ × CipherResult EciesCiphertext
  unfolding encrypt_with ephemeral_rounds
  ecies_encrypt recipient_public_key plaintext aad i =
      then_with (ephemeral_keypair i)
        λ ephemeral i. (i, encrypt_with ephemeral recipient_public_key plaintext aad)

  unfoldable pub ecies_decrypt : List ℕ → EciesCiphertext → List ℕ → CipherResult (List ℕ)
  unfolding shared_secret_x derive_key_nonce
  ecies_decrypt recipient_private_key ciphertext aad =
      Base.◌>>=◌ (ok_or (p.secret_key recipient_private_key) bad_key_length) λ recipient.
        Base.◌>>=◌ (ok_or (p.public_key ciphertext.ephemeral_public_key) ecies) λ ephemeral.
          Base.◌>>=◌ (shared_secret_x (p.multiply ephemeral recipient)) λ shared_x.
            Base.◌>>=◌ (derive_key_nonce shared_x)
              λ derived. unseal p derived.0 derived.1 ciphertext.bytes aad

  unfoldable pub seal_for : Recipient → List ℕ → List ℕ → ℕ → ℕ × CipherResult SealedMessage
  unfolding draw ecies_encrypt
  seal_for (symmetric key) plaintext aad i = then_with (draw p random 12 i) λ nonce i. (
    i,
    Base.◌>>=◌ (seal p key nonce plaintext aad)
        λ bytes. ok (sealed_symmetric (record { nonce = nonce; bytes = bytes })),
  )
  seal_for (asymmetric public_key) plaintext aad i =
      then_with (ecies_encrypt public_key plaintext aad i) λ ct i. (i, ok (sealed_asymmetric ct))

  unfoldable pub open_for :
      Option (List ℕ) → Option (List ℕ) → SealedMessage → List ℕ → CipherResult (List ℕ)
  unfolding ecies_decrypt
  open_for symmetric_key private_key (sealed_symmetric ct) aad =
      Base.◌>>=◌ (ok_or symmetric_key aead) λ key. unseal p key ct.nonce ct.bytes aad
  open_for symmetric_key private_key (sealed_asymmetric ct) aad =
      Base.◌>>=◌ (ok_or private_key aead) λ key. ecies_decrypt key ct aad
