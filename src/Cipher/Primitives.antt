-- ===== src/Cipher/Primitives.antt =====
-- What crates/cipher calls of other crates (aes-gcm, k256, hkdf) and of the operating system, with
-- what it relies on.
use overlay_broadcast.Base.{ℕ, ◌≤◌, ◌≡◌, Option, some, List, length}

pub record Primitives (Point : Type 0) : Type 0 where
  -- `getrandom`: the answer to the draw of the given number, for the given length.
  pub fill : ℕ → ℕ → Option (List ℕ)
  -- AES-256-GCM: the key, the nonce, the text and the associated data.
  pub encrypt : List ℕ → List ℕ → List ℕ → List ℕ → Option (List ℕ)
  pub decrypt : List ℕ → List ℕ → List ℕ → List ℕ → Option (List ℕ)
  -- `SecretKey::from_slice` and `PublicKey::from_sec1_bytes`.
  pub secret_key : List ℕ → Option ℕ
  pub public_key : List ℕ → Option Point
  pub generator : Point
  pub multiply : Point → ℕ → Point
  -- The compressed SEC1 encoding.
  pub encoded : Point → List ℕ
  -- HKDF-SHA256 without salt: the secret, the info and the length.
  pub expand : List ℕ → List ℕ → ℕ → Option (List ℕ)

pub record IsCipher {Point : Type 0} (p : Primitives Point) : Type 0 where
  -- What AES-GCM encrypted, it decrypts under the same key, nonce and associated data.
  pub decrypts :
      (key nonce text aad : List ℕ) {out : List ℕ}
      → p.encrypt key nonce text aad ≡ some out
      → p.decrypt key nonce out aad ≡ some text
  -- Diffie-Hellman: the two orders of multiplication agree.
  pub agree :
      (a b : ℕ) → p.multiply (p.multiply p.generator a) b ≡ p.multiply (p.multiply p.generator b) a
  -- The public key of a secret key is read back.
  pub reads :
      (bytes : List ℕ) (a : ℕ)
      → p.secret_key bytes ≡ some a
      → p.public_key (p.encoded (p.multiply p.generator a)) ≡ some (p.multiply p.generator a)

-- Randomness never fails, and AES-GCM encrypts a short text under any key of 32 bytes.
pub record Available {Point : Type 0} (p : Primitives Point) : Type 0 where
  pub fills : (i n : ℕ) → (out : List ℕ) × (p.fill i n ≡ some out) × (length out ≡ n)
  pub encrypts :
      (key nonce text aad : List ℕ)
      → length key ≡ 32
      → length text ≤ 32
      → (out : List ℕ) × (p.encrypt key nonce text aad ≡ some out)
