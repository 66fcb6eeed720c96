-- ===== src/Session/Subscription.antt =====
-- crates/session/src/subscription.rs and error.rs. A method that fails leaves the subscription as it
-- was, so it returns the new one or the error.
use native.Mathlib.Nat.{div-le_self}
use overlay_broadcast.Base.{
  ℕ, zero, suc, ◌+◌, ◌/◌, ◌^◌, ◌<◌, ◌≡◌, ◌↔◌, refl, ap₂, ◌∙◌, Bool, true, min, Result, ok, err,
  ok_or, List, ◌>>=◌, ltb, leb, ◌==◌, arith, if◌then◌else◌,
}
use overlay_broadcast.Bsv.Cursor.{checked_add}
use overlay_broadcast.Bsv.Error.{BsvError}
use overlay_broadcast.Ckd.Key.{CkdError}

pub data SubscriptionMode : Type 0 where
  off_chain on_block : SubscriptionMode

pub data SesError : Type 0 where
  bsv : BsvError → SesError
  ckd : CkdError → SesError
  bad_structure bad_index exhausted bad_fee : SesError

pub record Subscription : Type 0 where
  pub mode : SubscriptionMode
  pub contribution : ℕ
  pub mem_fee : ℕ
  pub renewed : ℕ

unfoldable pub new : SubscriptionMode → ℕ → ℕ → Result SesError Subscription
new mode contribution mem_fee =
    if mem_fee == 0
    then err bad_fee
    else ok (record { mode = mode; contribution = contribution; mem_fee = mem_fee; renewed = 0 })

-- The parent transaction's id in hex.
pub record SubSession : Type 0 where
  pub parent_txid : List ℕ
  pub index : ℕ

unfoldable pub renewed_count : Subscription → ℕ
renewed_count s = s.renewed

unfoldable pub sessions_funded : Subscription → ℕ
sessions_funded s = s.contribution / s.mem_fee

unfoldable pub renew : Subscription → Result SesError Subscription
unfolding sessions_funded
renew s =
    if leb (sessions_funded s) s.renewed
    then err exhausted
    else (ok_or (checked_add s.renewed 1) exhausted >>= λ n. ok (record s { renewed = n }))

unfoldable pub is_revoked : Subscription → ℕ → Bool
is_revoked s sessions_elapsed = ltb s.renewed sessions_elapsed

-- The subscription after a call, also one that fails.
abbrev kept : Subscription → Result SesError Subscription → Subscription
kept s (ok t) = t
kept s (err e) = s

-- The subscription after so many calls of `renew`.
unfoldable pub attempts : ℕ → Subscription → Subscription
unfolding renew
attempts zero s = s
attempts (suc n) s = let before = attempts n s in kept before (renew before)

renew-kept :
    (s : Subscription)
    → s.contribution < 2 ^ 64
    → (kept s (renew s)).renewed
      ≡ (if ltb s.renewed (sessions_funded s) then s.renewed + 1 else s.renewed)
unfolding renew sessions_funded
renew-kept s h = ground (arith, div-le_self s.contribution s.mem_fee)

renew-fields :
    (s : Subscription)
    → ((kept s (renew s)).contribution ≡ s.contribution) × ((kept s (renew s)).mem_fee ≡ s.mem_fee)
unfolding renew
renew-fields s = ground arith

attempts-fields :
    (n : ℕ) (s : Subscription)
    → ((attempts n s).contribution ≡ s.contribution) × ((attempts n s).mem_fee ≡ s.mem_fee)
unfolding attempts
attempts-fields zero s = (refl, refl)
attempts-fields (suc n) s =
    let before = attempts n s in
    (
      (renew-fields before).0 ∙ (attempts-fields n s).0,
      (renew-fields before).1 ∙ (attempts-fields n s).1,
    )

attempts-funded : (n : ℕ) (s : Subscription) → sessions_funded (attempts n s) ≡ sessions_funded s
unfolding sessions_funded
attempts-funded n s = rw ((attempts-fields n s).0, (attempts-fields n s).1) refl

attempts-renewed :
    (n : ℕ) (s : Subscription)
    → s.contribution < 2 ^ 64
    → s.renewed ≡ 0
    → (attempts n s).renewed ≡ min n (sessions_funded s)
unfolding attempts sessions_funded
attempts-renewed zero s h fresh = omega (arith, fresh)
attempts-renewed (suc n) s h fresh =
    let b = attempts n s in
    ground (
      arith,
      renew-kept b (rw (attempts-fields n s).0 h),
      attempts-funded n s,
      attempts-renewed n s h fresh,
    )

-- What a subscription that `new` made starts from.
new-ok :
    (mode : SubscriptionMode) (x fee : ℕ) (s : Subscription)
    → new mode x fee ≡ ok s
    → (s.contribution ≡ x) × (s.mem_fee ≡ fee) × (s.renewed ≡ 0)
unfolding new
new-ok mode x fee s h = (ground (arith, h), ground (arith, h), ground (arith, h))

-- After `n` calls of `renew` on a new subscription, with a contribution of 64 bits, as many
-- sessions are renewed as the contribution funds, or `n` if that is less, whether calls failed or
-- not, and the member is revoked exactly when more sessions than these have elapsed.
pub attempts-is_revoked :
    (mode : SubscriptionMode) (x fee n elapsed : ℕ) (s : Subscription)
    → x < 2 ^ 64
    → new mode x fee ≡ ok s
    → ((attempts n s).renewed ≡ min n (x / fee))
      × ((is_revoked (attempts n s) elapsed ≡ true) ↔ (min n (x / fee) < elapsed))
unfolding is_revoked sessions_funded
attempts-is_revoked mode x fee n elapsed s h made =
    let k = new-ok mode x fee s made in
    let r = attempts-renewed n s (rw k.0 h) k.2 in
    let e = r ∙ ap₂ (λ (a b : ℕ). min n (a / b)) k.0 k.1 in
    (e, (λ t. ground (arith, e, t), λ t. ground (arith, e, t)))
