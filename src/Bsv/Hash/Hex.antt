-- ===== src/Bsv/Hash/Hex.antt =====
-- Hex text of crates/bsv/src/hash.rs, both ways.
use mathlib.Core.List.{reverse, reverse-reverse}
use overlay_broadcast.Base.{
  ℕ, ◌*◌, ◌%◌, ◌≡◌, refl, ap, ◌∙◌, Bool, true, false, sym, ◌&&◌, List, [], ◌∷◌, ◌++◌, arith, length,
  append-nil, append_assoc, ok, All, ◌==◌, ==_iff, length-reverse, reverse-All, bit_or, bit_and,
  ◌/◌, Result,
}
use overlay_broadcast.Base.Tables.{holds_below, holds_below_lem}
use overlay_broadcast.Base.LittleEndian.{IsByte}
use overlay_broadcast.Bsv.Error.{BsvResult}
use overlay_broadcast.Bsv.Hash.{
  hex_val, nibble, hex_pairs, hex_to_bytes, push_hex, bytes_to_hex, hex_to_array32,
  from_display_hex, to_display_hex,
}

abbrev is_ok : BsvResult ℕ → ℕ → Bool
is_ok (Result.ok a) b = a == b
is_ok (Result.err _) b = false

-- The two digits of a byte, read back.
abbrev digits_agree : ℕ → Bool
digits_agree b =
    is_ok (hex_val (nibble (b / 16))) (b / 16)
    && is_ok (hex_val (nibble (bit_and b 0x0f))) (b % 16)
    && (bit_or (b / 16 * 16 % 256) (b % 16) == b)

digits_table : holds_below digits_agree 256 ≡ true
unfolding holds_below hex_val nibble
digits_table = refl

is_ok_lem : (r : BsvResult ℕ) (b : ℕ) → is_ok r b ≡ true → r ≡ ok b
is_ok_lem (Result.ok a) b h = ground arith
is_ok_lem (Result.err _) b h = cc

and_parts : (x y z : Bool) → (x && y && z) ≡ true → (x ≡ true) × (y ≡ true) × (z ≡ true)
and_parts x y z h = ground arith

hex_digits :
    (b : ℕ)
    → IsByte b
    → (hex_val (nibble (b / 16)) ≡ ok (b / 16))
      × (hex_val (nibble (bit_and b 0x0f)) ≡ ok (b % 16))
      × (bit_or (b / 16 * 16 % 256) (b % 16) ≡ b)
hex_digits b h =
    let (x, y, z) = and_parts _ _ _ (holds_below_lem digits_agree 256 b h digits_table) in
    (is_ok_lem _ _ x, is_ok_lem _ _ y, (==_iff _ _).0 z)

abbrev hex_text : List ℕ → List ℕ
hex_text [] = []
hex_text (b ∷ bs) = nibble (b / 16) ∷ nibble (bit_and b 0x0f) ∷ hex_text bs

push_hex-hex_text : (s bs : List ℕ) → push_hex s bs ≡ s ++ hex_text bs
unfolding push_hex
push_hex-hex_text s [] = sym (append-nil s)
push_hex-hex_text s (b ∷ bs) =
    push_hex-hex_text (s ++ (nibble (b / 16) ∷ nibble (bit_and b 0x0f) ∷ [])) bs
    ∙ append_assoc s (nibble (b / 16) ∷ nibble (bit_and b 0x0f) ∷ []) (hex_text bs)

length-hex_text : (bs : List ℕ) → length (hex_text bs) ≡ 2 * length bs
length-hex_text [] = omega arith
length-hex_text (b ∷ bs) = omega (arith, length-hex_text bs)

hex_pairs-hex_text :
    (out bs : List ℕ) → All IsByte bs → hex_pairs out (hex_text bs) ≡ ok (out ++ bs)
unfolding hex_pairs
hex_pairs-hex_text out [] h = ap ok (sym (append-nil out))
hex_pairs-hex_text out (b ∷ bs) h =
    let (hi, lo, whole) = hex_digits b h.0 in
    rw hi (
      rw lo (
        rw whole
          (hex_pairs-hex_text (out ++ (b ∷ [])) bs h.1 ∙ ap ok (append_assoc out (b ∷ []) bs))))

-- The hex text of a run of bytes decodes to these bytes.
hex_to_bytes-bytes_to_hex : (bs : List ℕ) → All IsByte bs → hex_to_bytes (bytes_to_hex bs) ≡ ok bs
unfolding hex_to_bytes bytes_to_hex
hex_to_bytes-bytes_to_hex bs h =
    rw (push_hex-hex_text [] bs)
      (rw (even (length (hex_text bs)) (length-hex_text bs)) (hex_pairs-hex_text [] bs h))
  where
    even : (n : ℕ) → n ≡ 2 * length bs → (n % 2 == 0) ≡ true
    even n e = ground arith

-- The display text of a hash of 32 bytes, in reversed byte order, is read back as the hash.
pub from_display_hex-to_display_hex :
    (h : List ℕ) → All IsByte h → length h ≡ 32 → from_display_hex (to_display_hex h) ≡ ok h
unfolding from_display_hex to_display_hex hex_to_array32
from_display_hex-to_display_hex h bytes len =
    rw (hex_to_bytes-bytes_to_hex (reverse h) (reverse-All IsByte h bytes))
      (rw (fits (length (reverse h)) (length-reverse h ∙ len)) (ap ok (reverse-reverse h)))
  where
    fits : (n : ℕ) → n ≡ 32 → (n == 32) ≡ true
    fits n e = ground arith
