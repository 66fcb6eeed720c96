-- ===== src/Cipher/Sample.antt =====
-- A concrete instance of what crates/cipher calls, for the runs of the test modules: the key before
-- the text for AES-GCM, sums for the curve, the number of the draw for randomness.
use overlay_broadcast.Base.{
  ℕ, ◌+◌, ◌<◌, ◌^◌, true, false, Option, none, some, List, ◌∷◌, ◌++◌, ltb, ltb→lt, length, take,
  drop, replicate, length-replicate, length-take, take-append, drop-append, ◌≡◌, refl, ap, ◌∙◌, ◌⊎◌,
  inl, inr, arith, Bool-cases, if◌then◌else◌, none-some, some_inj,
}
use overlay_broadcast.Base.Dict.{nat_eq, list_beq, list_beq_iff}
use overlay_broadcast.Base.LittleEndian.{to_le_bytes, from_le_bytes, from_le_bytes-to_le_bytes}
use overlay_broadcast.Cipher.Primitives.{Primitives, IsCipher, Available}

abbrev sample_fill : ℕ → ℕ → Option (List ℕ)
sample_fill i n = some (take n (i ∷ replicate n 0))

abbrev sample_decrypt : List ℕ → List ℕ → Option (List ℕ)
sample_decrypt key text =
    if list_beq (take (length key) text) key then some (drop (length key) text) else none

abbrev sample_secret : List ℕ → Option ℕ
sample_secret bytes = if ltb (from_le_bytes bytes) 1000 then some (from_le_bytes bytes) else none

abbrev pub sample : Primitives ℕ
sample = record {
  fill = sample_fill;
  encrypt = λ key nonce text aad. some (key ++ text);
  decrypt = λ key nonce text aad. sample_decrypt key text;
  secret_key = sample_secret;
  public_key = λ bytes. some (from_le_bytes (drop 1 bytes));
  generator = 0;
  multiply = λ q s. q + s;
  encoded = λ q. 2 ∷ to_le_bytes 32 q;
  expand = λ secret info n. some (take n (secret ++ replicate n 0));
}

sample_reads :
    (bytes : List ℕ) (a : ℕ)
    → sample_secret bytes ≡ some a
    → from_le_bytes (to_le_bytes 32 (0 + a)) ≡ 0 + a
sample_reads bytes a h =
    from_le_bytes-to_le_bytes 32 (0 + a) (small (Bool-cases (ltb (from_le_bytes bytes) 1000)))
  where
    small :
        (ltb (from_le_bytes bytes) 1000 ≡ true) ⊎ (ltb (from_le_bytes bytes) 1000 ≡ false)
        → 0 + a < 256 ^ 32
    small (inl low) = omega (arith, ltb→lt (from_le_bytes bytes) 1000 low, some_inj (rw low at h))
    small (inr high) = absurd (none-some (rw high at h))

pub sample-IsCipher : IsCipher sample
sample-IsCipher = record {
  decrypts = λ key nonce text aad h. decrypts key text (some_inj h);
  agree = λ a b. omega arith;
  reads = λ bytes a h. ap some (sample_reads bytes a h);
}
  where
    decrypts :
        (key text : List ℕ) {out : List ℕ} → key ++ text ≡ out → sample_decrypt key out ≡ some text
    decrypts key text e =
        rw (← e, take-append key text, (list_beq_iff key key).1 refl, drop-append key text) refl

pub sample-Available : Available sample
sample-Available = record {
  fills = λ i n. (
    take n (i ∷ replicate n 0),
    refl,
    length-take n (i ∷ replicate n 0) ∙ omega (arith, length-replicate {A = ℕ} n 0),
  );
  encrypts = λ key nonce text aad size short. (key ++ text, refl);
}
