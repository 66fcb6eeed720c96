-- ===== src/Api/RateLimit/Budget.antt =====
-- crates/api/src/ratelimit.rs over a sequence of calls: how many calls of one caller the limiter
-- allows in one window, among calls at other times and of other callers.
use native.Mathlib.Nat.{le-div_iff_mul-le, div-mul-le_self}
use overlay_broadcast.Base.{
  ℕ, zero, suc, ◌+◌, ◌-◌, ◌/◌, ◌^◌, ◌≤◌, ◌<◌, ◌≡◌, inl, inr, refl, sym, Bool, false, ◌&&◌, Option,
  none, some, List, [], ◌∷◌, min, max, leb, ltb, ◌==◌, not, arith, if◌then◌else◌, Bool-cases,
  ℕ_discrete, ◌≢◌, ==_iff,
}
use overlay_broadcast.Base.Dict
use overlay_broadcast.Base.Dict.{
  nat_eq, list_eq, list_beq, list_beq_iff, get-insert_same, get-insert_other,
}
use overlay_broadcast.Api.RateLimit.{RateLimiter, new, entry_at, allow}

-- Times never go back, from `t` on.
abbrev pub Ascends : ℕ → List (List ℕ × ℕ) → Type 0
Ascends t [] = Unit
Ascends t ((_, u) ∷ cs) = (t ≤ u) × Ascends u cs

-- The call is of the caller and in the window.
abbrev pub hit : List ℕ → ℕ → ℕ → List ℕ × ℕ → Bool
hit x secs w (c, u) = list_beq c x && (u / secs == w)

abbrev pub calls_in : List ℕ → ℕ → ℕ → List (List ℕ × ℕ) → ℕ
calls_in x secs w [] = 0
calls_in x secs w (c ∷ cs) =
    let rest = calls_in x secs w cs in if hit x secs w c then suc rest else rest

-- Of these, the calls that the limiter allows.
unfoldable pub allowed_in : List ℕ → ℕ → RateLimiter → List (List ℕ × ℕ) → ℕ
unfolding allow
allowed_in x w r [] = 0
allowed_in x w r ((c, u) ∷ cs) =
    let rest = allowed_in x w (allow r c u).0 cs in
    if hit x r.window_secs w (c, u) && (allow r c u).1 then suc rest else rest

div_mono : (a b k : ℕ) → a ≤ b → a / k ≤ b / k
div_mono a b zero h = omega arith
div_mono a b (suc k) h =
    (le-div_iff_mul-le {k = suc k} {x = a / suc k} {y = b} (omega arith)).1
      (omega (arith, h, div-mul-le_self a (suc k)))

-- What is left of the limit in the window.
budget : ℕ → ℕ → Option (ℕ × ℕ) → ℕ
budget limit w none = limit
budget limit w (some e) = if e.0 == w then limit - e.1 else if ltb w e.0 then 0 else limit

-- The caller's entry is not of a window after the time.
InTime : ℕ → Option (ℕ × ℕ) → Type 0
InTime now none = Unit
InTime now (some e) = e.0 ≤ now

-- The entry after a call in the window `now`.
next_entry : ℕ → ℕ → Option (ℕ × ℕ) → ℕ × ℕ
unfolding entry_at
next_entry limit now o =
    let e = entry_at now o in if leb limit e.1 then e else (e.0, min (e.1 + 1) (2 ^ 32 - 1))

entry_own :
    (r : RateLimiter) (x : List ℕ) (u : ℕ)
    → Dict.get x (allow r x u).0.windows
      ≡ some (next_entry r.limit (u / r.window_secs) (Dict.get x r.windows))
unfolding allow next_entry
entry_own r x u =
    elim (Bool-cases (leb r.limit (entry_at (u / r.window_secs) (Dict.get x r.windows)).1)) [
      | inl full ↦ rw full (get-insert_same x _ r.windows)
      | inr left ↦ rw left (get-insert_same x _ r.windows)
    ]

entry_other :
    (r : RateLimiter) (c x : List ℕ) (u : ℕ)
    → list_beq c x ≡ false
    → Dict.get x (allow r c u).0.windows ≡ Dict.get x r.windows
unfolding allow
entry_other r c x u h =
    elim (Bool-cases (leb r.limit (entry_at (u / r.window_secs) (Dict.get c r.windows)).1)) [
      | inl full ↦ rw full (get-insert_other c x _ r.windows h)
      | inr left ↦ rw left (get-insert_other c x _ r.windows h)
    ]

-- A call in the window takes one from what is left, if there is any.
budget-hit :
    (limit now : ℕ) (o : Option (ℕ × ℕ))
    → limit < 2 ^ 32
    → InTime now o
    → budget limit now (some (next_entry limit now o)) ≡ budget limit now o - 1
unfolding budget next_entry entry_at InTime
budget-hit limit now none hl h = ground arith
budget-hit limit now (some e) hl h = ground arith

-- A call before the window leaves all of it.
budget-before :
    (limit now w : ℕ) (o : Option (ℕ × ℕ))
    → now < w
    → InTime now o
    → budget limit w (some (next_entry limit now o)) ≡ budget limit w o
unfolding budget next_entry entry_at InTime
budget-before limit now w none lt h = ground arith
budget-before limit now w (some e) lt h = ground arith

next_entry-InTime :
    (limit now : ℕ) (o : Option (ℕ × ℕ)) → InTime now (some (next_entry limit now o))
unfolding next_entry entry_at InTime
next_entry-InTime limit now none = ground arith
next_entry-InTime limit now (some e) = ground arith

budget-positive :
    (limit now : ℕ) (o : Option (ℕ × ℕ))
    → InTime now o
    → leb limit (entry_at now o).1 ≡ not (ltb 0 (budget limit now o))
unfolding budget entry_at InTime
budget-positive limit now none h = ground arith
budget-positive limit now (some e) h = ground arith

-- The limiter allows the call exactly when something is left.
allow-budget :
    (r : RateLimiter) (x : List ℕ) (u : ℕ)
    → InTime (u / r.window_secs) (Dict.get x r.windows)
    → (allow r x u).1 ≡ ltb 0 (budget r.limit (u / r.window_secs) (Dict.get x r.windows))
unfolding allow
allow-budget r x u h =
    rw (budget-positive r.limit (u / r.window_secs) (Dict.get x r.windows) h)
      (elim (Bool-cases (ltb 0 (budget r.limit (u / r.window_secs) (Dict.get x r.windows)))) [
        | inl t ↦ rw t refl
        | inr f ↦ rw f refl
      ])

allow-limit :
    (r : RateLimiter) (x : List ℕ) (u : ℕ)
    → ((allow r x u).0.limit ≡ r.limit) × ((allow r x u).0.window_secs ≡ r.window_secs)
unfolding allow
allow-limit r x u =
    elim (Bool-cases (leb r.limit (entry_at (u / r.window_secs) (Dict.get x r.windows)).1)) [
      | inl full ↦ rw full (refl, refl)
      | inr left ↦ rw left (refl, refl)
    ]

calls_in-later :
    (x : List ℕ) (secs w u : ℕ) (cs : List (List ℕ × ℕ))
    → w < u / secs
    → Ascends u cs
    → calls_in x secs w cs ≡ 0
calls_in-later x secs w u [] lt h = refl
calls_in-later x secs w u ((c, v) ∷ cs) lt h = ground (
  arith,
  div_mono u v secs h.0,
  calls_in-later x secs w v cs (omega (arith, lt, div_mono u v secs h.0)) h.1,
)

InTime-later : (t u : ℕ) (o : Option (ℕ × ℕ)) → t ≤ u → InTime t o → InTime u o
unfolding InTime
InTime-later t u none h k = tt
InTime-later t u (some e) h k = omega (arith, h, k)

-- What the limiter promises for one caller and window, from a state with the caller's entry `o`.
Promise : List ℕ → ℕ → RateLimiter → Option (ℕ × ℕ) → List (List ℕ × ℕ) → Type 0
Promise x w r o cs = allowed_in x w r cs ≡ min (budget r.limit w o) (calls_in x r.window_secs w cs)

other_step :
    (x : List ℕ) (w : ℕ) (r : RateLimiter) (c : List ℕ) (u : ℕ) (cs : List (List ℕ × ℕ))
    → list_beq c x ≡ false
    → Promise x w (allow r c u).0 (Dict.get x (allow r c u).0.windows) cs
    → Promise x w r (Dict.get x r.windows) ((c, u) ∷ cs)
unfolding Promise allowed_in
other_step x w r c u cs ne h =
    rw ne (rw ((allow-limit r c u).0, (allow-limit r c u).1, entry_other r c x u ne) at h)

unequal : (a b : ℕ) → a ≢ b → (a == b) ≡ false
unequal a b ne = ground arith

hit_count :
    (x : List ℕ) (limit secs w u n : ℕ) (o : Option (ℕ × ℕ)) (cs : List (List ℕ × ℕ))
    → limit < 2 ^ 32
    → InTime (u / secs) o
    → u / secs ≡ w
    → n ≡ min (budget limit w (some (next_entry limit (u / secs) o))) (calls_in x secs w cs)
    → (if ltb 0 (budget limit (u / secs) o) then suc n else n)
      ≡ min (budget limit w o) (suc (calls_in x secs w cs))
hit_count x limit secs w u n o cs hl intime e h =
    rw (sym e) (ground (arith, budget-hit limit (u / secs) o hl intime, rw (sym e) at h))

miss_count :
    (x : List ℕ) (limit secs w u n : ℕ) (o : Option (ℕ × ℕ)) (cs : List (List ℕ × ℕ))
    → InTime (u / secs) o
    → Ascends u cs
    → u / secs ≢ w
    → n ≡ min (budget limit w (some (next_entry limit (u / secs) o))) (calls_in x secs w cs)
    → n ≡ min (budget limit w o) (calls_in x secs w cs)
miss_count x limit secs w u n o cs intime asc ne h = elim (Bool-cases (ltb w (u / secs))) [
  | inl past ↦ omega (arith, h, calls_in-later x secs w u cs (ground arith) asc)
  | inr ahead ↦ omega (arith, h, budget-before limit (u / secs) w o (ground arith) intime)
]

own_step :
    (x : List ℕ) (w : ℕ) (r : RateLimiter) (u : ℕ) (cs : List (List ℕ × ℕ))
    → r.limit < 2 ^ 32
    → Ascends u cs
    → InTime (u / r.window_secs) (Dict.get x r.windows)
    → Promise x w (allow r x u).0 (Dict.get x (allow r x u).0.windows) cs
    → Promise x w r (Dict.get x r.windows) ((x, u) ∷ cs)
unfolding Promise allowed_in
own_step x w r u cs hl asc intime h =
    let k = rw ((allow-limit r x u).0, (allow-limit r x u).1, entry_own r x u) at h in
    rw ((list_beq_iff x x).1 refl) (elim (ℕ_discrete (u / r.window_secs) w) [
      | yes e ↦
          rw ((==_iff (u / r.window_secs) w).1 e, allow-budget r x u intime)
            (hit_count x r.limit r.window_secs w u (allowed_in x w (allow r x u).0 cs)
              (Dict.get x r.windows) cs hl intime e k)
      | no ne ↦ rw (unequal (u / r.window_secs) w ne) (
          miss_count x r.limit r.window_secs w u (allowed_in x w (allow r x u).0 cs)
            (Dict.get x r.windows) cs intime asc ne k)
    ])

-- A state from which the times to come are not before the caller's entry.
record Ready (x : List ℕ) (t : ℕ) (r : RateLimiter) : Type 0 where
  limit : r.limit < 2 ^ 32
  entry : InTime (t / r.window_secs) (Dict.get x r.windows)

Ready-own :
    (x : List ℕ) (t u : ℕ) (r : RateLimiter) → t ≤ u → Ready x t r → Ready x u (allow r x u).0
Ready-own x t u r le h = record {
  limit = rw (allow-limit r x u).0 h.limit;
  entry =
      rw ((allow-limit r x u).1, entry_own r x u)
        (next_entry-InTime r.limit (u / r.window_secs) (Dict.get x r.windows));
}

Ready-other :
    (x c : List ℕ) (t u : ℕ) (r : RateLimiter)
    → list_beq c x ≡ false
    → t ≤ u
    → Ready x t r
    → Ready x u (allow r c u).0
Ready-other x c t u r ne le h = record {
  limit = rw (allow-limit r c u).0 h.limit;
  entry =
      rw ((allow-limit r c u).1, entry_other r c x u ne)
        (InTime-later (t / r.window_secs) (u / r.window_secs) (Dict.get x r.windows)
          (div_mono t u r.window_secs le) h.entry);
}

empty_step : (x : List ℕ) (w : ℕ) (r : RateLimiter) (o : Option (ℕ × ℕ)) → Promise x w r o []
unfolding Promise allowed_in
empty_step x w r o = omega arith

Ready-Promise :
    (x : List ℕ) (w t : ℕ) (r : RateLimiter) (cs : List (List ℕ × ℕ))
    → Ready x t r
    → Ascends t cs
    → Promise x w r (Dict.get x r.windows) cs
Ready-Promise x w t r [] h asc = empty_step x w r (Dict.get x r.windows)
Ready-Promise x w t r ((c, u) ∷ cs) h asc = elim (Bool-cases (list_beq c x)) [
  | inl same ↦ rw ((list_beq_iff c x).0 same) (
      own_step x w r u cs h.limit asc.1
        (InTime-later (t / r.window_secs) (u / r.window_secs) (Dict.get x r.windows)
          (div_mono t u r.window_secs asc.0) h.entry)
        (Ready-Promise x w u (allow r x u).0 cs (Ready-own x t u r asc.0 h) asc.1))
  | inr ne ↦
      other_step x w r c u cs ne
        (Ready-Promise x w u (allow r c u).0 cs (Ready-other x c t u r ne asc.0 h) asc.1)
]

-- Of the calls of one caller whose times fall in one window, a new limiter allows as many as its
-- limit, a `u32`, or all if they are fewer, whatever calls of other callers and in other windows
-- there are, if the times of all calls never go back.
pub allowed_in-new :
    (x : List ℕ) (w limit secs : ℕ) (cs : List (List ℕ × ℕ))
    → limit < 2 ^ 32
    → Ascends 0 cs
    → allowed_in x w (new limit secs) cs ≡ min limit (calls_in x (max secs 1) w cs)
unfolding new Promise budget InTime Dict.get
allowed_in-new x w limit secs cs hl asc =
    Ready-Promise x w 0 (new limit secs) cs (record { limit = hl; entry = tt }) asc
