-- ===== src/Cipher/Aead.antt =====
-- crates/cipher/src/aead.rs and error.rs. A key in a `SecretBytes` is its bytes.
use overlay_broadcast.Base.{
  ℕ, ◌+◌, ◌≤◌, ◌<◌, Bool, true, false, Option, none, some, List, [], ◌∷◌, ◌++◌, Result, ok, err,
  ok_or, ◌>>=◌, ◌==◌, length, if◌then◌else◌, then_with, ◌≡◌, refl,
}
use overlay_broadcast.Base
use overlay_broadcast.Base.LittleEndian.{be_bytes}
use overlay_broadcast.Bsv.Cursor.{checked_add}
use overlay_broadcast.Cipher.Primitives.{Primitives}

pub data CipherError : Type 0 where
  bad_key_length aead nonce_exhausted signing random ecies : CipherError

abbrev pub CipherResult : Type 0 → Type 0
CipherResult A = Result CipherError A

pub record Ciphertext : Type 0 where
  pub nonce : List ℕ
  pub bytes : List ℕ

pub record AeadCipher : Type 0 where
  pub key : List ℕ
  pub epoch : ℕ
  pub counter : ℕ

module _ {Point : Type 0} (p : Primitives Point) where
  unfoldable pub seal : List ℕ → List ℕ → List ℕ → List ℕ → CipherResult (List ℕ)
  seal key nonce plaintext aad =
      if length key == 32
      then ok_or (p.encrypt key nonce plaintext aad) aead
      else err bad_key_length

  unfoldable pub unseal : List ℕ → List ℕ → List ℕ → List ℕ → CipherResult (List ℕ)
  unseal key nonce ciphertext aad =
      if length key == 32
      then ok_or (p.decrypt key nonce ciphertext aad) aead
      else err bad_key_length

unfoldable pub new : List ℕ → ℕ → CipherResult AeadCipher
new key epoch =
    if length key == 32
    then ok (record { key = key; epoch = epoch; counter = 0 })
    else err bad_key_length

unfoldable pub next_nonce : AeadCipher → AeadCipher × CipherResult (List ℕ)
next_nonce c = elim (checked_add c.counter 1) [
  | none ↦ (c, err nonce_exhausted)
  | some counter ↦ (record c { counter = counter }, ok (be_bytes 4 c.epoch ++ be_bytes 8 c.counter))
]

module _ {Point : Type 0} (p : Primitives Point) where
  unfoldable pub encrypt : AeadCipher → List ℕ → List ℕ → AeadCipher × CipherResult Ciphertext
  unfolding next_nonce seal
  encrypt c plaintext aad = then_with (next_nonce c) λ nonce c. (
    c,
    Base.◌>>=◌ (seal p c.key nonce plaintext aad)
        λ bytes. ok (record { nonce = nonce; bytes = bytes }),
  )

  unfoldable pub decrypt : AeadCipher → Ciphertext → List ℕ → CipherResult (List ℕ)
  unfolding unseal
  decrypt c ciphertext aad = unseal p c.key ciphertext.nonce ciphertext.bytes aad
