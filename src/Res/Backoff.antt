-- ===== src/Res/Backoff.antt =====
-- crates/res/src/backoff.rs: the bounded exponential backoff.
use native.Mathlib.Nat.{mod-eq_of_lt, mul-le-mul_left, pow-le-pow_right}
use overlay_broadcast.Base.{
  ℕ, zero, suc, ◌-◌, ◌*◌, ◌%◌, ◌^◌, ◌≤◌, ◌<◌, ◌≡◌, min, Bool-cases, inl, inr, arith, ltb,
  if◌then◌else◌,
}

pub record BoundedBackoff : Type 0 where
  pub base_millis : ℕ
  pub max_millis : ℕ

abbrev pub u64_max : ℕ
u64_max = 2 ^ 64 - 1

-- `1u64.checked_shl(attempt).unwrap_or(u64::MAX)`
unfoldable pub factor : ℕ → ℕ
factor attempt = if ltb attempt 64 then 2 ^ attempt % 2 ^ 64 else u64_max

-- `saturating_mul`, and the cap.
unfoldable pub delay_millis : BoundedBackoff → ℕ → ℕ
unfolding factor
delay_millis b attempt = min (min (b.base_millis * factor attempt) u64_max) b.max_millis

factor_low : (a : ℕ) → a < 64 → factor a ≡ 2 ^ a
unfolding factor
factor_low a h = ground (arith, below, mod-eq_of_lt below)
  where
    below : 2 ^ a < 2 ^ 64
    below = omega (arith, pow-le-pow_right {n = 2} (omega arith) {i = a} {j = 63} (omega arith))

pow-high : (a : ℕ) → 64 ≤ a → 2 ^ 64 ≤ 2 ^ a
pow-high a h = pow-le-pow_right {n = 2} (omega arith) {i = 64} {j = a} h

factor_high : (a : ℕ) → 64 ≤ a → factor a ≡ u64_max
unfolding factor
factor_high a h = ground arith

low_lem :
    (b : BoundedBackoff) (a : ℕ)
    → b.max_millis < 2 ^ 64
    → a < 64
    → delay_millis b a ≡ min (b.base_millis * 2 ^ a) b.max_millis
unfolding delay_millis
low_lem b a hm h = rw (factor_low a h) (omega arith)

high_lem :
    (b : BoundedBackoff) (a : ℕ)
    → b.max_millis < 2 ^ 64
    → 64 ≤ a
    → 0 < b.base_millis
    → delay_millis b a ≡ b.max_millis
unfolding delay_millis
high_lem b a hm h pos = rw (factor_high a h) (omega arith)

scaled : (f k : ℕ) → 0 < k → f ≤ k * f
scaled f zero h = elim h [ ]
scaled f (suc k) h = omega arith

high_of_pos :
    (b : BoundedBackoff) (a : ℕ)
    → b.max_millis < 2 ^ 64
    → 64 ≤ a
    → 0 < b.base_millis
    → delay_millis b a ≡ min (b.base_millis * 2 ^ a) b.max_millis
high_of_pos b a hm h pos =
    omega (arith, high_lem b a hm h pos, pow-high a h, scaled (2 ^ a) b.base_millis pos)

zero_base :
    (b : BoundedBackoff) (a : ℕ)
    → b.max_millis < 2 ^ 64
    → b.base_millis ≡ 0
    → delay_millis b a ≡ min (b.base_millis * 2 ^ a) b.max_millis
unfolding delay_millis
zero_base b a hm h = rw h (omega arith)

-- For a cap that is a `u64`, the delay is `base * 2^attempt` capped at the maximum, computed
-- without a bound on the numbers: neither the shift nor the product that saturates is ever seen.
pub delay_millis_lem :
    (b : BoundedBackoff) (a : ℕ)
    → b.max_millis < 2 ^ 64
    → delay_millis b a ≡ min (b.base_millis * 2 ^ a) b.max_millis
delay_millis_lem b a hm = elim (Bool-cases (ltb a 64)) [
  | inl t ↦ low_lem b a hm (ground arith)
  | inr f ↦ (elim (Bool-cases (ltb 0 b.base_millis)) [
    | inl pos ↦ high_of_pos b a hm (ground arith) (ground arith)
    | inr null ↦ zero_base b a hm (ground arith)
  ])
]

-- With a cap that is a `u64`, a later attempt never waits less, and none waits more than the cap.
pub delay_millis-le :
    (b : BoundedBackoff) (i j : ℕ)
    → b.max_millis < 2 ^ 64
    → i ≤ j
    → (delay_millis b i ≤ delay_millis b j) × (delay_millis b j ≤ b.max_millis)
delay_millis-le b i j hm h = rw (delay_millis_lem b i hm) (
    rw (delay_millis_lem b j hm) (
      omega (
        arith,
        mul-le-mul_left b.base_millis (pow-le-pow_right {n = 2} (omega arith) {i = i} {j = j} h),
      ),
      omega arith,
    ))
