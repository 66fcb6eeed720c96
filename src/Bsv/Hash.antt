-- ===== src/Bsv/Hash.antt =====
-- crates/bsv/src/hash.rs: double SHA-256 over the digest of the crate `sha2`, and hex text.
-- A `Hash256` is its 32 bytes in internal order; text is its bytes.
pub mod Hex
use overlay_broadcast.Base
use overlay_broadcast.Base.{
  ℕ, zero, suc, ◌+◌, ◌-◌, ◌*◌, ◌/◌, ◌%◌, ◌&&◌, Bool, List, [], ◌∷◌, ◌++◌, bit_and, bit_or, length,
  ltb, leb, ◌==◌, if◌then◌else◌, ok, err,
}
use mathlib.Core.List.{reverse}
use overlay_broadcast.Bsv.Error.{BsvResult, hex, wrong_length}

-- `digest` is `Sha256::digest`.
unfoldable pub double_sha256 : (List ℕ → List ℕ) → List ℕ → List ℕ
double_sha256 digest bytes = digest (digest bytes)

unfoldable pub hex_val : ℕ → BsvResult ℕ
hex_val c =
    if leb b'0' c && leb c b'9'
    then ok (c - b'0')
    else if leb b'a' c && leb c b'f'
    then ok (c - b'a' + 10)
    else if leb b'A' c && leb c b'F'
    then ok (c - b'A' + 10)
    else err hex

unfoldable pub nibble : ℕ → ℕ
nibble n = if leb n 9 then b'0' + n else b'a' + (n - 10)

-- The loop of `hex_to_bytes` over pairs; a last odd byte is left out by `chunks_exact`.
unfoldable pub hex_pairs : List ℕ → List ℕ → BsvResult (List ℕ)
hex_pairs out (a ∷ b ∷ s) =
    Base.◌>>=◌ (hex_val a)
      λ hi. Base.◌>>=◌ (hex_val b) λ lo. hex_pairs (out ++ (bit_or (hi * 16 % 256) lo ∷ [])) s
hex_pairs out _ = ok out

unfoldable pub hex_to_bytes : List ℕ → BsvResult (List ℕ)
unfolding hex_pairs
hex_to_bytes s = if length s % 2 == 0 then hex_pairs [] s else err hex

-- The loop of `bytes_to_hex`.
unfoldable pub push_hex : List ℕ → List ℕ → List ℕ
push_hex s [] = s
push_hex s (b ∷ bs) = push_hex (s ++ (nibble (b / 16) ∷ nibble (bit_and b 0x0f) ∷ [])) bs

unfoldable pub bytes_to_hex : List ℕ → List ℕ
unfolding push_hex
bytes_to_hex bytes = push_hex [] bytes

unfoldable pub hex_to_array32 : List ℕ → BsvResult (List ℕ)
hex_to_array32 s =
    Base.◌>>=◌ (hex_to_bytes s)
      λ v. if length v == 32 then ok v else err (wrong_length 32 (length v))

unfoldable pub from_display_hex : List ℕ → BsvResult (List ℕ)
from_display_hex s = Base.◌>>=◌ (hex_to_array32 s) λ bytes. ok (reverse bytes)

unfoldable pub to_display_hex : List ℕ → List ℕ
to_display_hex h = bytes_to_hex (reverse h)
