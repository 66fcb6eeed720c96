-- ===== src/Custody/Examples.antt =====
-- Tests of the lifecycle of a key on small inputs, with a digest that keeps the sum of its input.
use overlay_broadcast.Base.{ℕ, ◌+◌, ◌≡◌, refl, true, List, [], ◌∷◌, leb, arith, ok}
use overlay_broadcast.Custody.Lifecycle.{KeyCustodian, new, rotate, verify_lifecycle}
use overlay_broadcast.Custody.Lifecycle.Log.{
  Grown, established, rotated, verify_lifecycle-Grown, verify_lifecycle-rotate,
}

abbrev sum : List ℕ → ℕ
sum [] = 0
sum (x ∷ xs) = x + sum xs

abbrev digest : List ℕ → List ℕ
digest bytes = sum bytes ∷ []

abbrev first : KeyCustodian
first = new digest (2 ∷ []) 10

second : (c : KeyCustodian) × (rotate digest first (3 ∷ []) 11 ≡ ok c)
unfolding rotate new
second = (_, refl)

earlier : (c : KeyCustodian) × (rotate digest first (3 ∷ []) 9 ≡ ok c)
unfolding rotate new
earlier = (_, refl)

first-Grown : Grown digest 10 first
first-Grown = established (2 ∷ []) 10

second-Grown : Grown digest 11 second.0
second-Grown = rotated (3 ∷ []) first-Grown (omega arith) second.1

log_example : verify_lifecycle digest second.0.events ≡ true
log_example = verify_lifecycle-Grown digest 11 second.0 second-Grown

earlier_example : verify_lifecycle digest earlier.0.events ≡ leb 10 9
earlier_example = verify_lifecycle-rotate digest 10 9 first earlier.0 (3 ∷ []) first-Grown earlier.1
