-- ===== src/Ckd/Group.antt =====
-- What crates/ckd calls of hmac and k256, with what it relies on.
use overlay_broadcast.Base.{
  ℕ, Bool, false, true, Option, some, List, [], ◌∷◌, ◌&&◌, ◌==◌, length, ◌≡◌,
}

pub record Group (Point : Type 0) : Type 0 where
  -- HMAC-SHA512: the key and the data.
  pub hmac : List ℕ → List ℕ → Option (List ℕ)
  -- `Scalar::from_repr` on 32 bytes, `to_repr` and the sum of scalars.
  pub scalar : List ℕ → Option ℕ
  pub repr : ℕ → List ℕ
  pub plus : ℕ → ℕ → ℕ
  -- `SecretKey::from_slice` and `PublicKey::from_sec1_bytes`.
  pub secret_key : List ℕ → Option ℕ
  pub public_key : List ℕ → Option Point
  pub generator : Point
  pub multiply : Point → ℕ → Point
  pub add : Point → Point → Point
  -- The compressed SEC1 encoding.
  pub encoded : Point → List ℕ

abbrev pub all_zero : List ℕ → Bool
all_zero [] = true
all_zero (x ∷ xs) = x == 0 && all_zero xs

pub record IsGroup {Point : Type 0} (q : Group Point) : Type 0 where
  -- A secret key is a scalar of 32 bytes, and a scalar other than 0 a secret key.
  pub secret_scalar :
      (bytes : List ℕ) (a : ℕ) → q.secret_key bytes ≡ some a → q.scalar bytes ≡ some a
  pub secret_repr : (a : ℕ) → all_zero (q.repr a) ≡ false → q.secret_key (q.repr a) ≡ some a
  -- The public key of a sum is the sum of the public keys.
  pub sum :
      (a b : ℕ)
      → q.multiply q.generator (q.plus a b)
        ≡ q.add (q.multiply q.generator a) (q.multiply q.generator b)
  -- The public key of a secret key has 33 bytes and is read back.
  pub fits :
      (bytes : List ℕ) (a : ℕ)
      → q.secret_key bytes ≡ some a
      → length (q.encoded (q.multiply q.generator a)) ≡ 33
  pub reads :
      (bytes : List ℕ) (a : ℕ)
      → q.secret_key bytes ≡ some a
      → q.public_key (q.encoded (q.multiply q.generator a)) ≡ some (q.multiply q.generator a)
