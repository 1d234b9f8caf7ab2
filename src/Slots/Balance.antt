-- ===== src/Slots/Balance.antt =====
-- What a slot holds after it was entered and after it was left.
use cognitrix.Prelude.{◌≢◌, Bool, Result, ok, err}
use cognitrix.Slots.{Lease, ReleaseEnd, release_cancelled, SlotError, Slot, exit_slot}
use cognitrix.Slots.Entry.{IsFree}

-- Leaving a slot that was entered.
abbrev pub LeavePost : Result SlotError (Unit {0}) × Slot → Type 0
LeavePost (ok u, s) =
    (renew_failed : Bool) (released : Lease → ReleaseEnd)
    → ((lease : Lease) → released lease ≢ release_cancelled)
    → IsFree (exit_slot renew_failed released s).1
LeavePost (err e, s) = Unit
