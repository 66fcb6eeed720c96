-- ===== src/Session/Signing.antt =====
-- sign_prehash_der of crates/ckd/src/pin.rs, with what it calls of k256 and relies on.
use overlay_broadcast.Base.{
  ℕ, ◌≤◌, Bool, true, Option, none, some, List, Result, ok, err, ok_or, ◌>>=◌, length, ◌≡◌,
}
use overlay_broadcast.Base
use overlay_broadcast.Api.Service.{Crypto}
use overlay_broadcast.Ckd.Key.{CkdResult, bad_key}

pub record Signer (crypto : Crypto) : Type 1 where
  pub SigningKey : Type 0
  pub from_slice : List ℕ → Option SigningKey
  pub verifying_key : SigningKey → crypto.VerifyingKey
  pub sign_prehash : SigningKey → List ℕ → Option crypto.Signature
  pub to_der : crypto.Signature → List ℕ
  -- RIPEMD-160 of SHA-256.
  pub hash160 : List ℕ → List ℕ

pub record IsSigner (crypto : Crypto) (s : Signer crypto) : Type 0 where
  -- A signature verifies, also with the low S.
  pub valid :
      (key : s.SigningKey) (prehash : List ℕ) (x : crypto.Signature)
      → s.sign_prehash key prehash ≡ some x
      → crypto.verify_prehash (s.verifying_key key) prehash x ≡ true
  pub valid_low :
      (key : crypto.VerifyingKey) (prehash : List ℕ) (x y : crypto.Signature)
      → crypto.verify_prehash key prehash x ≡ true
      → crypto.normalize_s x ≡ some y
      → crypto.verify_prehash key prehash y ≡ true
  pub low : (x y : crypto.Signature) → crypto.normalize_s x ≡ some y → crypto.normalize_s y ≡ none
  -- DER is read back and has at most 72 bytes.
  pub reads : (x : crypto.Signature) → crypto.from_der (s.to_der x) ≡ some x
  pub short : (x : crypto.Signature) → length (s.to_der x) ≤ 72

module _ (crypto : Crypto) (s : Signer crypto) where
  abbrev pub low_s : crypto.Signature → Option crypto.Signature → crypto.Signature
  low_s x none = x
  low_s x (some y) = y

  unfoldable pub sign_prehash_der : List ℕ → List ℕ → CkdResult (List ℕ)
  sign_prehash_der private_key prehash =
      Base.◌>>=◌ (ok_or (s.from_slice private_key) bad_key) λ key.
        Base.◌>>=◌ (ok_or (s.sign_prehash key prehash) bad_key)
          λ x. ok (s.to_der (low_s x (crypto.normalize_s x)))
