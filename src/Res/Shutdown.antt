-- ===== src/Res/Shutdown.antt =====
-- crates/res/src/shutdown.rs: an in-flight session transaction and its graceful shutdown.
use overlay_broadcast.Base.{◌≡◌, Bool, true, false, not, ◌&&◌, arith, if◌then◌else◌}

pub record InFlightSession : Type 0 where
  pub member_signed : Bool
  pub broadcaster_signed : Bool
  pub committed : Bool

pub data ShutdownOutcome : Type 0 where
  completed rolled_back : ShutdownOutcome

unfoldable pub new : InFlightSession
new = record { member_signed = false; broadcaster_signed = false; committed = false }

unfoldable pub sign_member : InFlightSession → InFlightSession
sign_member s = record s { member_signed = true }

unfoldable pub sign_broadcaster : InFlightSession → InFlightSession
sign_broadcaster s = record s { broadcaster_signed = true }

unfoldable pub commit : InFlightSession → InFlightSession
commit s = if s.member_signed && s.broadcaster_signed then record s { committed = true } else s

-- `!=` on Booleans
abbrev differ : Bool → Bool → Bool
differ true b = not b
differ false b = b

unfoldable pub is_half_signed : InFlightSession → Bool
is_half_signed s = not s.committed && differ s.member_signed s.broadcaster_signed

unfoldable pub graceful_shutdown : InFlightSession → InFlightSession × ShutdownOutcome
graceful_shutdown s =
    if s.committed
    then (s, completed)
    else (record s { member_signed = false; broadcaster_signed = false }, rolled_back)

-- The sessions that the methods build from a fresh one.
pub data Reached : InFlightSession → Type 0 where
  fresh : Reached new
  member : {s : InFlightSession} → Reached s → Reached (sign_member s)
  broadcaster : {s : InFlightSession} → Reached s → Reached (sign_broadcaster s)
  committing : {s : InFlightSession} → Reached s → Reached (commit s)
  stopped : {s : InFlightSession} → Reached s → Reached (graceful_shutdown s).0

abbrev pub BothSigned : InFlightSession → Type 0
BothSigned s = s.committed ≡ true → (s.member_signed ≡ true) × (s.broadcaster_signed ≡ true)

pub Reached-BothSigned : {s : InFlightSession} → Reached s → BothSigned s
unfolding new sign_member sign_broadcaster commit graceful_shutdown
Reached-BothSigned fresh = λ h. cc
Reached-BothSigned (member r) = ground (arith, Reached-BothSigned r)
Reached-BothSigned (broadcaster r) = ground (arith, Reached-BothSigned r)
Reached-BothSigned (committing r) = ground (arith, Reached-BothSigned r)
Reached-BothSigned (stopped r) = ground (arith, Reached-BothSigned r)
