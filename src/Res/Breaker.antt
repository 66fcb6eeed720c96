-- ===== src/Res/Breaker.antt =====
-- crates/res/src/breaker.rs: the consecutive-failure circuit breaker.
use overlay_broadcast.Base.{
  ℕ, ◌+◌, ◌-◌, ◌^◌, ◌≤◌, ◌<◌, ◌≡◌, ◌≢◌, ◌↔◌, refl, Bool, true, false, List, [], ◌∷◌, min, max,
  arith, leb, if◌then◌else◌,
}

pub data BreakerState : Type 0 where
  closed open_state half_open : BreakerState

pub record CircuitBreaker : Type 0 where
  pub threshold : ℕ
  pub failures : ℕ
  pub state : BreakerState

abbrev pub u32_max : ℕ
u32_max = 2 ^ 32 - 1

unfoldable pub new : ℕ → CircuitBreaker
new threshold = record { threshold = max threshold 1; failures = 0; state = closed }

unfoldable pub is_open : BreakerState → Bool
is_open open_state = true
is_open _ = false

unfoldable pub is_tripped : CircuitBreaker → Bool
unfolding is_open
is_tripped b = is_open b.state

unfoldable pub record_success : CircuitBreaker → CircuitBreaker
record_success b = record b { failures = 0; state = closed }

-- `saturating_add` on a `u32`
unfoldable pub record_failure : CircuitBreaker → CircuitBreaker
record_failure b =
    let failures = min (b.failures + 1) u32_max in
    record b {
      failures = failures;
      state = if leb b.threshold failures then open_state else b.state;
    }

unfoldable pub trial : CircuitBreaker → CircuitBreaker
unfolding is_open
trial b = record b { state = if is_open b.state then half_open else b.state }

pub data Event : Type 0 where
  success failure half_open_trial : Event

unfoldable pub on : CircuitBreaker → Event → CircuitBreaker
unfolding record_success record_failure trial
on b success = record_success b
on b failure = record_failure b
on b half_open_trial = trial b

unfoldable pub run : CircuitBreaker → List Event → CircuitBreaker
unfolding on
run b [] = b
run b (e ∷ es) = run (on b e) es

-- The failures since the last success, `n` before the first event.
abbrev pub consecutive : ℕ → List Event → ℕ
consecutive n [] = n
consecutive n (success ∷ es) = consecutive 0 es
consecutive n (failure ∷ es) = consecutive (n + 1) es
consecutive n (half_open_trial ∷ es) = consecutive n es

-- What the breaker knows of `n` consecutive failures.
pub record Counts (t n : ℕ) (b : CircuitBreaker) : Type 0 where
  pub threshold : b.threshold ≡ max t 1
  pub failures : b.failures ≡ min n u32_max
  pub below : b.state ≡ closed → n < max t 1
  pub reached : b.state ≢ closed → max t 1 ≤ n

Counts-success : (t n : ℕ) (b : CircuitBreaker) → Counts t n b → Counts t 0 (record_success b)
unfolding record_success
Counts-success t n b h = record {
  threshold = h.threshold;
  failures = omega arith;
  below = λ _. omega arith;
  reached = λ ne. absurd (ne refl);
}

Counts-trial : (t n : ℕ) (b : CircuitBreaker) → Counts t n b → Counts t n (trial b)
unfolding trial is_open
Counts-trial t n b h = record {
  threshold = h.threshold;
  failures = h.failures;
  below = λ x. ground (arith, h.below);
  reached = λ x. ground (arith, h.reached);
}

Counts-failure :
    (t n : ℕ) (b : CircuitBreaker) → t < 2 ^ 32 → Counts t n b → Counts t (n + 1) (record_failure b)
unfolding record_failure
Counts-failure t n b ht h = record {
  threshold = h.threshold;
  failures = omega (arith, h.failures);
  below = λ x. ground (arith, h.below, h.failures, h.threshold);
  reached = λ x. ground (arith, h.reached, h.failures, h.threshold);
}

run-Counts :
    (t n : ℕ) (b : CircuitBreaker) (es : List Event)
    → t < 2 ^ 32
    → Counts t n b
    → Counts t (consecutive n es) (run b es)
unfolding run on
run-Counts t n b [] ht h = h
run-Counts t n b (success ∷ es) ht h = run-Counts t 0 _ es ht (Counts-success t n b h)
run-Counts t n b (failure ∷ es) ht h = run-Counts t (n + 1) _ es ht (Counts-failure t n b ht h)
run-Counts t n b (half_open_trial ∷ es) ht h = run-Counts t n _ es ht (Counts-trial t n b h)

Counts-new : (t : ℕ) → Counts t 0 (new t)
unfolding new
Counts-new t = record {
  threshold = refl;
  failures = omega arith;
  below = λ _. omega arith;
  reached = λ ne. absurd (ne refl);
}

closed-Counts : (t n : ℕ) (b : CircuitBreaker) → Counts t n b → ((b.state ≡ closed) ↔ (n < max t 1))
closed-Counts t n b h = (h.below, λ lt. ground (arith, h.reached))

-- Whatever the calls on a breaker that `new` makes with a `u32` threshold, its failures are the
-- consecutive ones since the last success, held at `u32::MAX`, and it is closed exactly while
-- these are fewer than the threshold (or than 1, for a threshold of 0).
pub run-consecutive :
    (t : ℕ) (es : List Event)
    → t < 2 ^ 32
    → ((run (new t) es).failures ≡ min (consecutive 0 es) u32_max)
      × (((run (new t) es).state ≡ closed) ↔ (consecutive 0 es < max t 1))
run-consecutive t es ht =
    let h = run-Counts t 0 (new t) es ht (Counts-new t) in
    (h.failures, closed-Counts t (consecutive 0 es) (run (new t) es) h)

tripped-Counts :
    (t n : ℕ) (b : CircuitBreaker)
    → t < 2 ^ 32
    → Counts t n b
    → ((is_tripped (record_failure b) ≡ true) ↔ (max t 1 ≤ n + 1))
unfolding is_tripped record_failure is_open
tripped-Counts t n b ht h = (
  λ x. ground (arith, h.reached, h.failures, h.threshold),
  λ x. ground (arith, h.reached, h.failures, h.threshold),
)

-- Whatever the calls before it on a breaker that `new` makes with a `u32` threshold, a failure
-- leaves it tripped exactly when it then has had that many (or 1, for a threshold of 0) since the
-- last success.
is_tripped-record_failure :
    (t : ℕ) (es : List Event)
    → t < 2 ^ 32
    → ((is_tripped (record_failure (run (new t) es)) ≡ true) ↔ (max t 1 ≤ consecutive 0 es + 1))
is_tripped-record_failure t es ht =
    tripped-Counts t (consecutive 0 es) (run (new t) es) ht
      (run-Counts t 0 (new t) es ht (Counts-new t))
