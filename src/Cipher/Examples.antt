-- ===== src/Cipher/Examples.antt =====
-- Concrete runs on crates/cipher.
use overlay_broadcast.Base.{ℕ, none, some, List, [], ◌∷◌, ok, err, ◌≡◌, refl, replicate}
use overlay_broadcast.Base.LittleEndian.{to_le_bytes, from_le_bytes}
use overlay_broadcast.Cipher.Aead.{AeadCipher, seal}
use overlay_broadcast.Cipher.Keywrap.{draw}
use overlay_broadcast.Cipher.Ecies.{
  SealedMessage, asymmetric, sealed_asymmetric, seal_for, open_for, ecies_encrypt, ephemeral_rounds,
  encode_compressed, encrypt_with, shared_secret_x, derive_key_nonce,
}
use overlay_broadcast.Cipher.RoundTrip.{Opens, by_secret, open_for-seal_for}
use overlay_broadcast.Cipher.Nonces.{nonces, AllDifferent, nonces-AllDifferent}
use overlay_broadcast.Cipher.Sample.{sample, sample-IsCipher}

abbrev text : List ℕ
text = 104 ∷ 105 ∷ []

abbrev key : List ℕ
key = replicate 32 7

-- The message for the public key of the secret 9, with the ephemeral secret 5.
unfoldable sealed : SealedMessage
sealed = elim (seal_for sample (asymmetric (2 ∷ to_le_bytes 32 9)) text [] 5).1 [
  | ok s ↦ s
  | err e ↦ sealed_asymmetric (record { ephemeral_public_key = []; bytes = [] })
]

seal_test : seal_for sample (asymmetric (2 ∷ to_le_bytes 32 9)) text [] 5 ≡ (6, ok sealed)
unfolding seal_for sealed seal ecies_encrypt ephemeral_rounds encode_compressed encrypt_with
    shared_secret_x derive_key_nonce draw to_le_bytes from_le_bytes
seal_test = refl

secret_test : Opens sample (asymmetric (2 ∷ to_le_bytes 32 9)) none (some (9 ∷ []))
unfolding from_le_bytes
secret_test = by_secret (9 ∷ []) 9 refl

open_for-seal_for_example : open_for sample none (some (9 ∷ [])) sealed [] ≡ ok text
open_for-seal_for_example =
    open_for-seal_for sample sample-IsCipher (asymmetric (2 ∷ to_le_bytes 32 9)) none
      (some (9 ∷ [])) text [] 5 6 sealed secret_test seal_test

abbrev cipher : AeadCipher
cipher = record { key = key; epoch = 1; counter = 0 }

nonces-AllDifferent_example :
    AllDifferent (nonces sample cipher ((text, []) ∷ (text, []) ∷ (key, text) ∷ []))
nonces-AllDifferent_example =
    nonces-AllDifferent sample cipher ((text, []) ∷ (text, []) ∷ (key, text) ∷ [])
