-- ===== src/Base/Bits.antt =====
-- `|` of a low part and a shifted byte is their sum. The library has the native operation only as
-- a recursion on digits with fuel, so its equation for the lowest digit comes first.
use Prim.Native.Nat.{
  ℕ, zero, suc, ◌+◌, ◌-◌, ◌*◌, ◌/◌, ◌%◌, ◌^◌, ◌≤◌, ◌<◌, max, bit_or, digits, bit_or-bitwise,
}
use mathlib.Core.Path.{◌≡◌, refl, sym, ap, ◌∙◌}
use native.Mathlib.Nat.{pow-suc}
use native.Mathlib.Omega.{arith}

abbrev or_digits : ℕ → ℕ → ℕ → ℕ
or_digits n a b = digits (λ y. y) max n a b

or_digits_zero : (n b : ℕ) → or_digits n 0 b ≡ b
or_digits_zero zero b = refl
or_digits_zero (suc n) b = refl

suc-add : (n k : ℕ) → suc n + k ≡ suc (n + k)
suc-add n k = omega arith

-- More fuel than the first number changes nothing.
or_digits_extra : (n k a b : ℕ) → a ≤ n → or_digits (n + k) a b ≡ or_digits n a b
or_digits_extra n k zero b small = or_digits_zero (n + k) b ∙ sym (or_digits_zero n b)
or_digits_extra zero k (suc a) b small = absurd (omega arith)
or_digits_extra (suc n) k (suc a) b small =
    rw (suc-add n k) (omega (arith, or_digits_extra n k (suc a / 2) (b / 2) (omega arith)))

or_digits_half :
    (a b : ℕ) → or_digits a (suc a / 2) (b / 2) ≡ or_digits (suc a / 2) (suc a / 2) (b / 2)
or_digits_half a b =
    ap (λ (n : ℕ). or_digits n (suc a / 2) (b / 2)) (split a)
    ∙ or_digits_extra (suc a / 2) (a - suc a / 2) (suc a / 2) (b / 2) (omega arith)
  where
    split : (n : ℕ) → n ≡ suc n / 2 + (n - suc n / 2)
    split n = omega arith

pub zero-bit_or : (b : ℕ) → bit_or 0 b ≡ b
zero-bit_or b = bit_or-bitwise 0 b

bit_or_low_digit : (a b : ℕ) → bit_or a b ≡ bit_or (a / 2) (b / 2) * 2 + max (a % 2) (b % 2)
bit_or_low_digit zero b = omega (arith, zero-bit_or b, zero-bit_or (b / 2))
bit_or_low_digit (suc a) b =
    omega (arith, bit_or-bitwise (suc a) b, bit_or-bitwise (suc a / 2) (b / 2), or_digits_half a b)

shifted_half : (b k : ℕ) → b * 2 ^ suc k ≡ 2 * (b * 2 ^ k)
shifted_half b k = omega (arith, ap (λ (t : ℕ). b * t) (pow-suc 2 k))

-- `low | (b << k)` where `low` fits `k` bits.
pub bit_or_shifted : (k low b : ℕ) → low < 2 ^ k → bit_or low (b * 2 ^ k) ≡ low + b * 2 ^ k
bit_or_shifted zero low b fits = ground (arith, zero-bit_or b)
bit_or_shifted (suc k) low b fits = ground (
  arith,
  bit_or_low_digit low (b * 2 ^ suc k),
  shifted_half b k,
  pow-suc 2 k,
  bit_or_shifted k (low / 2) b (omega arith),
)
