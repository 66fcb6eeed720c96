-- ===== src/Base/Tables.antt =====
-- Facts about a byte, checked at every value.
use Prim.Native.Nat.{ℕ, zero, suc, ◌<◌}
use mathlib.Core.Path.{◌≡◌}
use mathlib.Core.Bool.{Bool, true, false}
use native.Mathlib.Omega.{arith}

-- The test holds of the first numbers, from the greatest down.
unfoldable pub holds_below : (ℕ → Bool) → ℕ → Bool
holds_below test zero = true
holds_below test (suc k) = elim (test k) [ true ↦ holds_below test k | false ↦ false ]

pub holds_below_lem :
    (test : ℕ → Bool) (bound b : ℕ) → b < bound → holds_below test bound ≡ true → test b ≡ true
unfolding holds_below
holds_below_lem test zero b small h = absurd (omega arith)
holds_below_lem test (suc k) b small h = ground (arith, holds_below_lem test k b)
