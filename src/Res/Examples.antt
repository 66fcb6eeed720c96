-- ===== src/Res/Examples.antt =====
-- Tests of the resilience modules on small inputs.
use overlay_broadcast.Base.{
  ℕ, ◌^◌, ◌*◌, ◌≤◌, ◌<◌, ◌≡◌, ◌↔◌, refl, min, max, true, false, List, [], ◌∷◌, map, arith, ok, err,
}
use overlay_broadcast.Res.Backoff.{BoundedBackoff, delay_millis, delay_millis_lem, delay_millis-le}
use overlay_broadcast.Res.Breaker
use overlay_broadcast.Res.Breaker.{
  success, failure, half_open_trial, run, closed, consecutive, is_tripped, record_failure, u32_max,
  run-consecutive, Event, CircuitBreaker,
}
use overlay_broadcast.Res.Quorum.{
  check_quorum, below_quorum, tolerable_unavailable, check_quorum-tolerable_unavailable,
}
use overlay_broadcast.Res.Recovery.{
  MemberRecord, LedgerSnapshot, MemberStatus, rebuild_from_chain, Coherent, revoked, renewed,
  rebuild_from_chain-Reordered, swap,
}
use overlay_broadcast.Res.Recovery.Statuses.{IsSorted, HasStatus, rebuild_from_chain_lem}
use mathlib.Core.List.{Perm, Memᴰ}
use overlay_broadcast.Res.Resubmit.{
  submitting, marking, resubmitting, outcomes, phase_outcomes, calls_of, unknown, broadcast,
  already_known, rebroadcast, outcomes-phase_outcomes, Operation,
}
use overlay_broadcast.Res.Resubmit
use overlay_broadcast.Base.Dict.{list_beq, contains, get, insert, remove}
use overlay_broadcast.Res.Shutdown
use overlay_broadcast.Res.Shutdown.{InFlightSession, Reached, sign_member}

abbrev backoff : BoundedBackoff
backoff = record { base_millis = 100; max_millis = 1000 }

delay_third : delay_millis backoff 3 ≡ 800
unfolding delay_millis
delay_third = refl

delay_millis_example : delay_millis backoff 70 ≡ min (100 * 2 ^ 70) 1000
delay_millis_example = delay_millis_lem backoff 70 (omega arith)

delay_order_example :
    (delay_millis backoff 2 ≤ delay_millis backoff 70) × (delay_millis backoff 70 ≤ 1000)
delay_order_example = delay_millis-le backoff 2 70 (omega arith) (omega arith)

abbrev events : List Event
events = failure ∷ success ∷ failure ∷ failure ∷ half_open_trial ∷ []

run_example :
    ((run (Breaker.new 2) events).failures ≡ min (consecutive 0 events) u32_max)
    × (((run (Breaker.new 2) events).state ≡ closed) ↔ (consecutive 0 events < max 2 1))
run_example = run-consecutive 2 events (omega arith)

quorum_example :
    ((check_quorum 3 3 5 ≡ ok tt) ↔ (2 ≤ tolerable_unavailable 3 5))
    × ((check_quorum 3 3 5 ≡ err below_quorum) ↔ (tolerable_unavailable 3 5 < 2))
quorum_example = check_quorum-tolerable_unavailable 3 2 3 5 (omega arith) (omega arith) refl

abbrev renewed_member : MemberRecord
renewed_member = record { member_id = 7; output_spent = true; expiry = 10 }

abbrev late_member : MemberRecord
late_member = record { member_id = 2; output_spent = false; expiry = 10 }

late_statuses :
    (rebuild_from_chain
      (record { members = renewed_member ∷ late_member ∷ []; graph_root = []; now = 11 })).statuses
    ≡ (2, revoked) ∷ (7, renewed) ∷ []
unfolding rebuild_from_chain
late_statuses = refl

members_Coherent : Coherent (renewed_member ∷ late_member ∷ [])
members_Coherent = (((λ e. absurd (omega (arith, e))), tt), (tt, tt))

reordered_example :
    rebuild_from_chain
      (record { members = renewed_member ∷ late_member ∷ []; graph_root = 1 ∷ []; now = 11 })
    ≡ rebuild_from_chain
        (record { members = late_member ∷ renewed_member ∷ []; graph_root = 1 ∷ []; now = 11 })
reordered_example =
    rebuild_from_chain-Reordered (renewed_member ∷ late_member ∷ [])
      (late_member ∷ renewed_member ∷ []) (1 ∷ []) 11 (swap renewed_member late_member [])
      members_Coherent

abbrev snapshot : LedgerSnapshot
snapshot = record { members = renewed_member ∷ late_member ∷ []; graph_root = []; now = 11 }

statuses_example :
    IsSorted (rebuild_from_chain snapshot).statuses
    × Perm
        (map (λ (e : ℕ × MemberStatus). e.0) (rebuild_from_chain snapshot).statuses)
        (map (λ (m : MemberRecord). m.member_id) snapshot.members)
    × (Memᴰ (2, revoked) (rebuild_from_chain snapshot).statuses ↔ (
        (m : MemberRecord) × Memᴰ m snapshot.members × (m.member_id ≡ 2) × HasStatus m 11 revoked))
    × ((rebuild_from_chain snapshot).graph_root ≡ snapshot.graph_root)
statuses_example = rebuild_from_chain_lem snapshot 2 revoked

abbrev calls : List (Operation × List ℕ)
calls =
    (submitting, 5 ∷ [])
    ∷ (submitting, 6 ∷ [])
    ∷ (marking, 5 ∷ [])
    ∷ (submitting, 5 ∷ [])
    ∷ (resubmitting, 5 ∷ [])
    ∷ (resubmitting, 5 ∷ [])
    ∷ []

calls-outcomes :
    outcomes (5 ∷ []) Resubmit.new calls
    ≡ broadcast ∷ already_known ∷ rebroadcast ∷ already_known ∷ []
unfolding outcomes list_beq contains get insert remove Resubmit.new
calls-outcomes = refl

outcomes_example :
    outcomes (5 ∷ []) Resubmit.new calls ≡ phase_outcomes unknown (calls_of (5 ∷ []) calls)
outcomes_example = outcomes-phase_outcomes (5 ∷ []) calls

abbrev half_signed : InFlightSession
half_signed = sign_member Shutdown.new
