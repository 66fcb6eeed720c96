-- ===== src/Ckd/Sample.antt =====
-- A concrete instance of what crates/ckd calls, for the runs of the test modules.
use overlay_broadcast.Base.{
  ℕ, ◌+◌, Option, none, some, List, [], ◌∷◌, drop, replicate, ◌≡◌, refl, inl, inr, arith,
  Bool-cases, if◌then◌else◌, none-some,
}
use overlay_broadcast.Ckd.Group.{Group, IsGroup, all_zero}

-- Numbers and their sums, written as a first byte and zeros.
abbrev first_byte : List ℕ → Option ℕ
first_byte [] = none
first_byte (x ∷ xs) = some x

abbrev sample_secret : List ℕ → Option ℕ
sample_secret bytes = if all_zero bytes then none else first_byte bytes

abbrev pub sample : Group ℕ
sample = record {
  hmac = λ key bytes. some (replicate 64 1);
  scalar = first_byte;
  repr = λ a. a ∷ replicate 31 0;
  plus = λ a b. a + b;
  secret_key = sample_secret;
  public_key = λ bytes. first_byte (drop 1 bytes);
  generator = 0;
  multiply = λ p a. p + a;
  add = λ p r. p + r;
  encoded = λ p. 2 ∷ p ∷ replicate 31 0;
}

sample_scalar : (bytes : List ℕ) (a : ℕ) → sample_secret bytes ≡ some a → first_byte bytes ≡ some a
sample_scalar bytes a h = elim (Bool-cases (all_zero bytes)) [
  | inl zeros ↦ absurd (none-some (rw zeros at h))
  | inr other ↦ rw other at h
]

pub sample-IsGroup : IsGroup sample
sample-IsGroup = record {
  secret_scalar = sample_scalar;
  secret_repr = λ a other. rw other refl;
  sum = λ a b. omega arith;
  fits = λ bytes a h. refl;
  reads = λ bytes a h. refl;
}
