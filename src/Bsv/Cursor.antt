-- ===== src/Bsv/Cursor.antt =====
-- crates/bsv/src/bytes.rs: the read cursor over untrusted bytes, and `write_varint`.
-- A read is a function of the cursor; after an error the cursor is not used again.
pub mod Reads
pub mod Bounds
pub mod Sizes
pub mod Varint
use overlay_broadcast.Base
use overlay_broadcast.Base.{
  ℕ, suc, ◌+◌, ◌-◌, ◌*◌, ◌%◌, ◌^◌, Bool, ◌&&◌, Option, none, some, List, [], ◌∷◌, ◌++◌, bit_or,
  length, ltb, leb, ◌==◌, if◌then◌else◌, ok, err, ok_or,
}
use overlay_broadcast.Base.LittleEndian.{to_le_bytes, from_le_bytes}
use overlay_broadcast.Bsv.Error.{BsvError, BsvResult, truncated, out_of_range}

pub record Cursor : Type 0 where
  pub bytes : List ℕ
  pub off : ℕ

unfoldable pub new : List ℕ → Cursor
new bytes = record { bytes = bytes; off = 0 }

-- `saturating_sub`
unfoldable pub remaining : Cursor → ℕ
remaining cur = length cur.bytes - cur.off

unfoldable pub is_empty : Cursor → Bool
unfolding remaining
is_empty cur = remaining cur == 0

-- A `usize` and a `u64` have 64 bits.
abbrev pub u64_size : ℕ
u64_size = 2 ^ 64

-- `checked_add` on 64 bits.
abbrev pub checked_add : ℕ → ℕ → Option ℕ
checked_add a b = if ltb (a + b) u64_size then some (a + b) else none

-- `slice.get(lo..hi)`
abbrev pub get_range : List ℕ → ℕ → ℕ → Option (List ℕ)
get_range xs lo hi =
    if leb lo hi && leb hi (length xs) then some (Base.take (hi - lo) (Base.drop lo xs)) else none

abbrev pub Parser {ℓ} : Type ℓ → Type ℓ
Parser A = Cursor → Base.Result BsvError (A × Cursor)

infixl 5 ◌>>=◌
abbrev pub ◌>>=◌ {ℓ κ} : {A : Type ℓ} {B : Type κ} → Parser A → (A → Parser B) → Parser B
◌>>=◌ p f cur = Base.◌>>=◌ (p cur) λ (a, cur'). f a cur'

abbrev pub pure {ℓ} : {A : Type ℓ} → A → Parser A
pure a cur = ok (a, cur)

abbrev pub lift {ℓ} : {A : Type ℓ} → Base.Result BsvError A → Parser A
lift (ok a) cur = ok (a, cur)
lift (err e) cur = err e

unfoldable pub take : ℕ → Parser (List ℕ)
take n cur = Base.◌>>=◌ (ok_or (checked_add cur.off n) out_of_range) λ end.
    Base.◌>>=◌ (ok_or (get_range cur.bytes cur.off end) truncated)
      λ slice. ok (slice, record cur { off = end })

unfoldable pub u8 : Parser ℕ
u8 = do slice ← take 1; lift (ok_or (Base.get_elem? slice 0) truncated)

-- `try_into` an array of `n` bytes
unfoldable pub to_array : ℕ → List ℕ → BsvResult (List ℕ)
to_array n xs = if length xs == n then ok xs else err truncated

unfoldable pub u32_le : Parser ℕ
u32_le = do slice ← take 4; b ← lift (to_array 4 slice); pure (from_le_bytes b)

-- An `i32` is held as its 32-bit pattern.
unfoldable pub i32_le : Parser ℕ
i32_le = do slice ← take 4; b ← lift (to_array 4 slice); pure (from_le_bytes b)

unfoldable pub u64_le : Parser ℕ
u64_le = do slice ← take 8; b ← lift (to_array 8 slice); pure (from_le_bytes b)

unfoldable pub hash256 : Parser (List ℕ)
hash256 = do slice ← take 32; lift (to_array 32 slice)

-- `u32::try_from(i)` and `checked_mul(8)`, then `u64::checked_shl`, which drops what leaves 64 bits.
unfoldable pub shifted : ℕ → ℕ → BsvResult ℕ
shifted i b =
    if ltb (i * 8) (2 ^ 32) && ltb (i * 8) 64
    then ok (b * 2 ^ (i * 8) % u64_size)
    else err out_of_range

-- The loop of `uint`, from position `i`.
unfoldable pub or_bytes : ℕ → ℕ → List ℕ → BsvResult ℕ
or_bytes i value [] = ok value
or_bytes i value (b ∷ bs) = Base.◌>>=◌ (shifted i b) λ term. or_bytes (i + 1) (bit_or value term) bs

unfoldable pub uint : ℕ → Parser ℕ
uint n = do slice ← take n; lift (or_bytes 0 0 slice)

unfoldable pub varint_rest : ℕ → Parser ℕ
varint_rest n =
    if n == 0xff then uint 8 else if n == 0xfe then uint 4 else if n == 0xfd then uint 2 else pure n

unfoldable pub varint : Parser ℕ
varint = do n ← u8; varint_rest n

-- `usize::try_from` of a `u64` always succeeds on 64 bits.
unfoldable pub varint_bytes : Parser (List ℕ)
varint_bytes = do n ← varint; take n

-- `uN::try_from(value).unwrap_or(0)`
unfoldable pub or_zero : ℕ → ℕ → ℕ
or_zero limit value = if ltb value limit then value else 0

unfoldable pub write_varint : List ℕ → ℕ → List ℕ
unfolding or_zero
write_varint out value =
    if ltb value 0xfd
    then out ++ (or_zero 256 value ∷ [])
    else if leb value 0xffff
    then out ++ (0xfd ∷ to_le_bytes 2 (or_zero (2 ^ 16) value))
    else if leb value 0xffff_ffff
    then out ++ (0xfe ∷ to_le_bytes 4 (or_zero (2 ^ 32) value))
    else out ++ (0xff ∷ to_le_bytes 8 value)
