-- ===== src/Bsv/Cursor/Varint.antt =====
-- `write_varint` and `Cursor::varint` of crates/bsv/src/bytes.rs.
use native.Mathlib.Nat.{pow-le-pow_right, one-le-pow, mod-eq_of_lt}
use native.Mathlib.Numerals.{towards_suc}
use native.Mathlib.Decide.{dec_lt}
use overlay_broadcast.Base
use overlay_broadcast.Base.{
  ℕ, zero, suc, ◌+◌, ◌-◌, ◌*◌, ◌/◌, ◌%◌, ◌^◌, ◌≤◌, ◌<◌, ◌≡◌, refl, sym, ap, ◌∙◌, inl, inr, List, [],
  ◌∷◌, ◌++◌, arith, length, length-append, append-nil, ok, All, ltb, leb, Bool-cases,
}
use overlay_broadcast.Base.Bits.{bit_or_shifted}
use overlay_broadcast.Base.LittleEndian.{
  IsByte, to_le_bytes, from_le_bytes, length-to_le_bytes, from_le_bytes-to_le_bytes,
  to_le_bytes-IsByte,
}
use overlay_broadcast.Bsv.Cursor.{
  Cursor, uint, or_bytes, shifted, varint, varint_rest, varint_bytes, write_varint, u64_size, new,
  remaining, pure,
}
use overlay_broadcast.Bsv.Cursor.Reads.{
  Parses, Parses-bind, Parses-pure, Parses-cast, Parses-take, Parses-u8, Rest-new, remaining-Rest,
}

-- The weight of byte `i`.
abbrev weight : ℕ → ℕ
weight i = 2 ^ (i * 8)

weight-suc : (i : ℕ) → weight (i + 1) ≡ 256 * weight i
weight-suc i = ap (λ (k : ℕ). 2 ^ k) e ∙ simp towards_suc (omega arith)
  where
    e : (i + 1) * 8 ≡ i * 8 + 8
    e = omega arith

weight_fits : (i : ℕ) → i < 8 → 256 * weight i ≤ u64_size
weight_fits i h =
    rw (← weight-suc i) (pow-le-pow_right {n = 2} (omega arith) {j = 64} (omega arith))

shifted_lem : (i b : ℕ) → i < 8 → IsByte b → shifted i b ≡ ok (b * weight i)
unfolding shifted
shifted_lem i b hi hb = ground (arith, mod-eq_of_lt below)
  where
    at_most : b * weight i ≤ 255 * weight i
    at_most = grind arith

    below : b * weight i < u64_size
    below = omega (arith, at_most, weight_fits i hi, one-le-pow (i * 8) 2)

-- The loop adds up the bytes as long as they fit 64 bits.
pub or_bytes_lem :
    (i value : ℕ) (bs : List ℕ)
    → All IsByte bs
    → i + length bs ≤ 8
    → value < weight i
    → or_bytes i value bs ≡ ok (value + weight i * from_le_bytes bs)
unfolding or_bytes from_le_bytes
or_bytes_lem i value [] hb hl hv = ground arith
or_bytes_lem i value (b ∷ bs) hb hl hv = rw (shifted_lem i b (omega arith) hb.0) (
    rw (bit_or_shifted (i * 8) value b hv) (
      or_bytes_lem (i + 1) (value + b * weight i) bs hb.1 (omega arith)
        (omega (arith, at_most, weight-suc i))
      ∙ ap ok total))
  where
    at_most : b * weight i ≤ 255 * weight i
    at_most = grind (arith, hb.0)

    total :
        value + b * weight i + weight (i + 1) * from_le_bytes bs
        ≡ value + weight i * (b + 256 * from_le_bytes bs)
    total = omega (arith, ap (λ (t : ℕ). t * from_le_bytes bs) (weight-suc i))

pub or_bytes-to_le_bytes : (n v : ℕ) → n ≤ 8 → v < 256 ^ n → or_bytes 0 0 (to_le_bytes n v) ≡ ok v
or_bytes-to_le_bytes n v hn hv =
    or_bytes_lem 0 0 (to_le_bytes n v) (to_le_bytes-IsByte n v)
      (omega (arith, length-to_le_bytes n v)) (omega arith)
    ∙ ap ok (omega (arith, from_le_bytes-to_le_bytes n v hv))

-- `uint` reads back little-endian bytes, for up to eight of them.
pub Parses-uint : (n v : ℕ) → n ≤ 8 → v < 256 ^ n → Parses (uint n) (to_le_bytes n v) v
unfolding uint
Parses-uint n v hn hv = Parses-cast (append-nil _) (
    Parses-bind _ (Parses-take n (to_le_bytes n v) (length-to_le_bytes n v))
      (rw (or_bytes-to_le_bytes n v hn hv) (Parses-pure v)))

-- The encoding that `write_varint` appends.
abbrev pub compact : ℕ → List ℕ
compact v = write_varint [] v

pub write_varint-append : (out : List ℕ) (v : ℕ) → write_varint out v ≡ out ++ compact v
unfolding write_varint
write_varint-append out v = ground arith

-- A marker byte, and the bytes of the number behind it.
Parses-marked :
    (m n v : ℕ)
    → varint_rest m ≡ uint n
    → n ≤ 8
    → v < 256 ^ n
    → Parses varint (m ∷ to_le_bytes n v) v
unfolding varint
Parses-marked m n v e hn hv = Parses-bind _ (Parses-u8 m) (rw e (Parses-uint n v hn hv))

-- The four widths.
compact-one : (v : ℕ) → v < 0xfd → compact v ≡ v ∷ []
unfolding write_varint
compact-one v h = ground arith

compact-two : (v : ℕ) → 0xfd ≤ v → v < 2 ^ 16 → compact v ≡ 0xfd ∷ to_le_bytes 2 v
unfolding write_varint
compact-two v lo hi = ground arith

compact-four : (v : ℕ) → 2 ^ 16 ≤ v → v < 2 ^ 32 → compact v ≡ 0xfe ∷ to_le_bytes 4 v
unfolding write_varint
compact-four v lo hi = ground arith

compact-eight : (v : ℕ) → 2 ^ 32 ≤ v → compact v ≡ 0xff ∷ to_le_bytes 8 v
unfolding write_varint
compact-eight v lo = ground arith

varint_rest_small : (v : ℕ) → v < 0xfd → varint_rest v ≡ pure v
unfolding varint_rest
varint_rest_small v h = ground arith

varint_rest_marks :
    (varint_rest 0xfd ≡ uint 2) × (varint_rest 0xfe ≡ uint 4) × (varint_rest 0xff ≡ uint 8)
unfolding varint_rest
varint_rest_marks = (refl, refl, refl)

Parses-varint_one : (v : ℕ) → v < 0xfd → Parses varint (v ∷ []) v
unfolding varint
Parses-varint_one v h = Parses-bind _ (Parses-u8 v) (rw (varint_rest_small v h) (Parses-pure v))

-- A padded form of at most eight bytes decodes to the same number.
pub Parses-varint_padded : (v : ℕ) → v < 2 ^ 16 → Parses varint (0xfd ∷ to_le_bytes 2 v) v
Parses-varint_padded v h = Parses-marked 0xfd 2 v varint_rest_marks.0 (omega arith) (omega arith)

pub Parses-varint : (v : ℕ) → v < 2 ^ 64 → Parses varint (compact v) v
Parses-varint v h = elim (dec_lt v 0xfd) [
  | yes a ↦ rw (compact-one v a) (Parses-varint_one v a)
  | no a ↦ elim (dec_lt v (2 ^ 16)) [
    | yes b ↦ rw (compact-two v (omega arith) b) (Parses-varint_padded v b)
    | no b ↦ elim (dec_lt v (2 ^ 32)) [
      | yes c ↦
          rw (compact-four v (omega arith) c)
            (Parses-marked 0xfe 4 v varint_rest_marks.1 (omega arith) (omega arith))
      | no c ↦
          rw (compact-eight v (omega arith))
            (Parses-marked 0xff 8 v varint_rest_marks.2 (omega arith) (omega arith))
    ]
  ]
]

-- A byte run behind its length.
pub Parses-varint_bytes :
    (xs : List ℕ) → length xs < 2 ^ 64 → Parses varint_bytes (compact (length xs) ++ xs) xs
unfolding varint_bytes
Parses-varint_bytes xs h =
    Parses-bind _ (Parses-varint (length xs) h) (Parses-take (length xs) xs refl)

-- `varint` reads back the 64-bit number that `write_varint` wrote, and stops behind it, whatever
-- bytes follow, if all have a length of 64 bits.
pub varint-write_varint :
    (v : ℕ) (rest : List ℕ)
    → v < 2 ^ 64
    → length (write_varint [] v ++ rest) < 2 ^ 64
    → (c : Cursor) × (varint (new (write_varint [] v ++ rest)) ≡ ok (v, c))
      × (Base.drop c.off c.bytes ≡ rest)
      × (remaining c ≡ length rest)
varint-write_varint v rest h fits =
    let (c, e, r) = (Parses-varint v h).run (new (compact v ++ rest)) rest (Rest-new _ fits) in
    (c, e, r.rest, remaining-Rest r)
