-- ===== src/Bsv/Header/RoundTrip.antt =====
-- Parsing and serializing a header of crates/bsv/src/header.rs, both ways.
use overlay_broadcast.Base
use overlay_broadcast.Base.{
  ℕ, zero, suc, ◌+◌, ◌-◌, ◌^◌, ◌≤◌, ◌<◌, ◌≡◌, refl, sym, ap, ◌∙◌, List, [], ◌∷◌, ◌++◌, arith,
  length, append-nil, ok, err, All, take-append-drop, length-take, length-drop, take-All, drop-All,
  Bool-cases, inl, inr, ◌≢◌, ◌==◌,
}
use overlay_broadcast.Base.LittleEndian.{
  IsByte, to_le_bytes, from_le_bytes, to_le_bytes-from_le_bytes, from_le_bytes-lt,
}
use overlay_broadcast.Bsv.Error.{wrong_length}
use overlay_broadcast.Bsv.Header.{BlockHeader, parse, serialize}
use overlay_broadcast.Bsv.Header.Wire.{IsHeader, header_bytes, serialize_lem, parse-header_bytes}

-- A header in the ranges of its types is read back from its 80 bytes.
pub parse-serialize_header : (h : BlockHeader) → IsHeader h → parse (serialize h) ≡ ok h
parse-serialize_header h v = rw (serialize_lem h v) (parse-header_bytes h v)

-- The four bytes of a word at the front.
word : List ℕ → ℕ
word xs = from_le_bytes (Base.take 4 xs)

length-front : (n : ℕ) (xs : List ℕ) → n ≤ length xs → length (Base.take n xs) ≡ n
length-front n xs h = omega (arith, length-take n xs)

word_bytes :
    (xs : List ℕ) → All IsByte xs → 4 ≤ length xs → to_le_bytes 4 (word xs) ++ Base.drop 4 xs ≡ xs
unfolding word
word_bytes xs hb hl =
    rw (same (length-front 4 xs hl) (take-All IsByte 4 xs hb)) (take-append-drop 4 xs)
  where
    same : {ys : List ℕ} → length ys ≡ 4 → All IsByte ys → to_le_bytes 4 (from_le_bytes ys) ≡ ys
    same {ys} e h = rw e at (to_le_bytes-from_le_bytes ys h)

word-lt : (xs : List ℕ) → All IsByte xs → 4 ≤ length xs → word xs < 2 ^ 32
unfolding word
word-lt xs hb hl = bound _ (length-front 4 xs hl) (take-All IsByte 4 xs hb)
  where
    bound : (ys : List ℕ) → length ys ≡ 4 → All IsByte ys → from_le_bytes ys < 256 ^ 4
    bound ys e h = rw (ap (λ (n : ℕ). 256 ^ n) e) at (from_le_bytes-lt ys h)

-- The fields of 80 bytes.
fields : List ℕ → BlockHeader
fields r0 =
    let r1 = Base.drop 4 r0 in
    let r2 = Base.drop 32 r1 in
    let r3 = Base.drop 32 r2 in
    let r4 = Base.drop 4 r3 in
    let r5 = Base.drop 4 r4 in
    record {
      version = word r0;
      prev_block_hash = Base.take 32 r1;
      merkle_root = Base.take 32 r2;
      time = word r3;
      bits = word r4;
      nonce = word r5;
    }

nil_of_length : (xs : List ℕ) → length xs ≡ 0 → xs ≡ []
nil_of_length [] h = refl
nil_of_length (x ∷ xs) h = absurd (omega arith)

module _ (r0 : List ℕ) (len : length r0 ≡ 80) (bytes : All IsByte r0) where
  fields-IsHeader : IsHeader (fields r0)
  unfolding fields
  fields-IsHeader =
      let r1 = Base.drop 4 r0 in
      let r2 = Base.drop 32 r1 in
      let r3 = Base.drop 32 r2 in
      let r4 = Base.drop 4 r3 in
      let r5 = Base.drop 4 r4 in
      let b1 = drop-All IsByte 4 r0 bytes in
      let b3 = drop-All IsByte 32 r2 (drop-All IsByte 32 r1 b1) in
      let b4 = drop-All IsByte 4 r3 b3 in
      let n1 : length r1 ≡ 76 = omega (arith, length-drop 4 r0) in
      let n2 : length r2 ≡ 44 = omega (arith, length-drop 32 r1) in
      let n3 : length r3 ≡ 12 = omega (arith, length-drop 32 r2) in
      let n4 : length r4 ≡ 8 = omega (arith, length-drop 4 r3) in
      let n5 : length r5 ≡ 4 = omega (arith, length-drop 4 r4) in
      record {
        version = word-lt r0 bytes (omega arith);
        prev = length-front 32 r1 (omega arith);
        root = length-front 32 r2 (omega arith);
        time = word-lt r3 b3 (omega arith);
        bits = word-lt r4 b4 (omega arith);
        nonce = word-lt r5 (drop-All IsByte 4 r4 b4) (omega arith);
      }

  header_bytes-fields : header_bytes (fields r0) ≡ r0
  unfolding fields
  header_bytes-fields =
      let r1 = Base.drop 4 r0 in
      let r2 = Base.drop 32 r1 in
      let r3 = Base.drop 32 r2 in
      let r4 = Base.drop 4 r3 in
      let r5 = Base.drop 4 r4 in
      let b1 = drop-All IsByte 4 r0 bytes in
      let b3 = drop-All IsByte 32 r2 (drop-All IsByte 32 r1 b1) in
      let b4 = drop-All IsByte 4 r3 b3 in
      let n1 : length r1 ≡ 76 = omega (arith, length-drop 4 r0) in
      let n2 : length r2 ≡ 44 = omega (arith, length-drop 32 r1) in
      let n3 : length r3 ≡ 12 = omega (arith, length-drop 32 r2) in
      let n4 : length r4 ≡ 8 = omega (arith, length-drop 4 r3) in
      let n5 : length r5 ≡ 4 = omega (arith, length-drop 4 r4) in
      let e6 : to_le_bytes 4 (word r5) ++ [] ≡ r5 =
        ap (λ t. to_le_bytes 4 (word r5) ++ t)
          (sym (nil_of_length (Base.drop 4 r5) (omega (arith, length-drop 4 r5))))
        ∙ word_bytes r5 (drop-All IsByte 4 r4 b4) (omega arith) in
      let e5 = ap (λ t. to_le_bytes 4 (word r4) ++ t) e6 ∙ word_bytes r4 b4 (omega arith) in
      let e4 = ap (λ t. to_le_bytes 4 (word r3) ++ t) e5 ∙ word_bytes r3 b3 (omega arith) in
      let e3 = ap (λ t. Base.take 32 r2 ++ t) e4 ∙ take-append-drop 32 r2 in
      let e2 = ap (λ t. Base.take 32 r1 ++ t) e3 ∙ take-append-drop 32 r1 in
      ap (λ t. to_le_bytes 4 (word r0) ++ t) e2 ∙ word_bytes r0 bytes (omega arith)

  parse-fields : parse r0 ≡ ok (fields r0)
  parse-fields = ap parse (sym header_bytes-fields) ∙ parse-header_bytes (fields r0) fields-IsHeader

-- `parse` accepts every run of 80 bytes, and serializing what it returns gives back the same bytes.
pub serialize-parse_header :
    (raw : List ℕ)
    → All IsByte raw
    → length raw ≡ 80
    → (h : BlockHeader) × (parse raw ≡ ok h) × (serialize h ≡ raw)
serialize-parse_header raw bytes len = (
  fields raw,
  parse-fields raw len bytes,
  serialize_lem (fields raw) (fields-IsHeader raw len bytes) ∙ header_bytes-fields raw len bytes,
)

-- Any other number of bytes is refused, with both lengths in the error.
parse_wrong_length :
    (raw : List ℕ) → length raw ≢ 80 → parse raw ≡ err (wrong_length 80 (length raw))
unfolding parse
parse_wrong_length raw h = ground arith
