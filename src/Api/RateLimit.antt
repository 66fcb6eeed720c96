-- ===== src/Api/RateLimit.antt =====
-- crates/api/src/ratelimit.rs: the fixed-window limiter of each caller.
pub mod Budget
use overlay_broadcast.Base.{
  ℕ, ◌+◌, ◌-◌, ◌/◌, ◌^◌, Bool, true, false, Option, none, some, List, [], min, max, leb, ◌==◌,
  if◌then◌else◌,
}
use overlay_broadcast.Base.Dict
use overlay_broadcast.Base.Dict.{nat_eq, list_eq}

pub record RateLimiter : Type 0 where
  pub limit : ℕ
  pub window_secs : ℕ
  pub windows : List (List ℕ × (ℕ × ℕ))

unfoldable pub new : ℕ → ℕ → RateLimiter
new limit window_secs = record { limit = limit; window_secs = max window_secs 1; windows = [] }

-- `entry(caller).or_insert((current, 0))`, and the reset when the window is another.
unfoldable pub entry_at : ℕ → Option (ℕ × ℕ) → ℕ × ℕ
entry_at current none = (current, 0)
entry_at current (some e) = if e.0 == current then e else (current, 0)

-- `saturating_add` on a `u32`
unfoldable pub allow : RateLimiter → List ℕ → ℕ → RateLimiter × Bool
unfolding entry_at
allow r caller now =
    let current = now / r.window_secs in
    let entry = entry_at current (Dict.get caller r.windows) in
    if leb r.limit entry.1
    then (record r { windows = Dict.insert caller entry r.windows }, false)
    else (
      record r { windows = Dict.insert caller (entry.0, min (entry.1 + 1) (2 ^ 32 - 1)) r.windows },
      true,
    )
