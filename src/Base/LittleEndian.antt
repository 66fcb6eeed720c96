-- ===== src/Base/LittleEndian.antt =====
-- Rust's `to_le_bytes`, `from_le_bytes`, `to_be_bytes`: a number as its bytes.
use Prim.Native.Nat.{ℕ, zero, suc, ◌+◌, ◌*◌, ◌/◌, ◌%◌, ◌^◌, ◌<◌}
use mathlib.Core.Path.{◌≡◌, refl, ap, ap₂, ◌∙◌}
use mathlib.Core.List.{List, [], ◌∷◌, reverse}
use native.Mathlib.Nat.{pow-suc}
use native.Mathlib.Omega.{arith}
use overlay_broadcast.Base.Lists.{length, All}

abbrev pub IsByte : ℕ → Type 0
IsByte b = b < 256

-- The `n` bytes of a number of `8 * n` bits.
unfoldable pub to_le_bytes : ℕ → ℕ → List ℕ
to_le_bytes zero v = []
to_le_bytes (suc n) v = (v % 256) ∷ to_le_bytes n (v / 256)

unfoldable pub from_le_bytes : List ℕ → ℕ
from_le_bytes [] = 0
from_le_bytes (b ∷ bs) = b + 256 * from_le_bytes bs

-- The most significant byte first.
abbrev pub be_bytes : ℕ → ℕ → List ℕ
be_bytes n v = reverse (to_le_bytes n v)

pub length-to_le_bytes : (n v : ℕ) → length (to_le_bytes n v) ≡ n
unfolding to_le_bytes
length-to_le_bytes zero v = refl
length-to_le_bytes (suc n) v = ap suc (length-to_le_bytes n (v / 256))

pub to_le_bytes-IsByte : (n v : ℕ) → All IsByte (to_le_bytes n v)
unfolding to_le_bytes
to_le_bytes-IsByte zero v = tt
to_le_bytes-IsByte (suc n) v = (omega arith, to_le_bytes-IsByte n (v / 256))

pub from_le_bytes-to_le_bytes : (n v : ℕ) → v < 256 ^ n → from_le_bytes (to_le_bytes n v) ≡ v
unfolding to_le_bytes from_le_bytes
from_le_bytes-to_le_bytes zero v h = omega arith
from_le_bytes-to_le_bytes (suc n) v h =
    omega (arith, from_le_bytes-to_le_bytes n (v / 256) (omega (arith, pow-suc 256 n)))

pub from_le_bytes-lt : (bs : List ℕ) → All IsByte bs → from_le_bytes bs < 256 ^ length bs
unfolding from_le_bytes
from_le_bytes-lt [] h = omega arith
from_le_bytes-lt (b ∷ bs) h = omega (arith, h.0, pow-suc 256 (length bs), from_le_bytes-lt bs h.1)

pub to_le_bytes-from_le_bytes :
    (bs : List ℕ) → All IsByte bs → to_le_bytes (length bs) (from_le_bytes bs) ≡ bs
unfolding to_le_bytes from_le_bytes
to_le_bytes-from_le_bytes [] h = refl
to_le_bytes-from_le_bytes (b ∷ bs) h =
    ap₂ ◌∷◌ (omega (arith, h.0))
      (ap (to_le_bytes (length bs)) (omega (arith, h.0)) ∙ to_le_bytes-from_le_bytes bs h.1)
