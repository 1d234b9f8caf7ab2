-- ===== src/Runs/Tests.antt =====
-- One run's history, and the theorems at it: a worker claims the run, its lease runs out, recovery
-- ends the run, and the worker's late writes arrive.
use mathlib.Core.List.{Memᴰ}
use cognitrix.Prelude.{
  ℕ, ◌+◌, ◌≤◌, ◌<◌, ◌≡◌, ◌≢◌, ◌⊎◌, inr, refl, true, false, none, some, [], arith,
}
use cognitrix.Runs.{
  TaskRun, queued, failed, LeaseClaim, owned_by, is_terminal, force_cancel_ready, holds, is_leased,
  lease_is_live,
}
use cognitrix.Runs.Cas.{attempted, update_one, cas_loop, returned}
use cognitrix.Runs.Lease.{
  claim, claim_guard, claim_update, heartbeat, heartbeat_guard, lease_guard, persist_usage, mutate,
  mutate_guard, mutate_patch, holds_lease,
}
use cognitrix.Runs.Terminal.{
  recovery_action, recover_guard, recover_update, recover_terminal, recover_run, cancel,
  cancel_guard, cancel_update,
}
use cognitrix.Runs.History.{
  perform, claim_op, heartbeat_op, recover_op, cancel_op, History, wrote, Step, act, Reach, here,
  next,
}
use cognitrix.Runs.Linear.{IsLinear, Reach-IsLinear}
use cognitrix.Runs.Change.{Frozen}
use cognitrix.Runs.Lifecycle.{IsSane}
use cognitrix.Runs.Ending.{Reach-Frozen, claimed_once, Reach-generation}
use cognitrix.Runs.Fencing.{
  beats, fenced_worker, worker_write_needs_lease, recover_spares_live, force_cancel_waits,
}
use cognitrix.Runs.Events.{IsNumbered, Reach-IsNumbered}
use cognitrix.Runs.Liveness.{IsKept, heartbeat_keeps, claim_wins, recover_ends, alone}

abbrev new_run : TaskRun
new_run = record {
  id = "r1";
  status = queued;
  outputs = record { plan = ""; result = none; result_data = none; usage = "{}" };
  error_code = none;
  error = none;
  queue_job_id = none;
  queued_at = some 90;
  started_at = none;
  completed_at = none;
  lease_owner = none;
  lease_generation = 0;
  heartbeat_at = none;
  lease_expires_at = none;
  cancel_requested_at = none;
  version = 0;
  next_event_sequence = 0;
  event_outbox = [];
  has_callback = false;
  notification_state = none;
  notification_owner = none;
  notification_expires_at = none;
  notification_next_at = none;
  notification_attempts = 0;
  notified_at = none;
}

abbrev pub first_claim : LeaseClaim
first_claim = record { run_id = "r1"; owner = "w1"; generation = 1 }

program : Unit {0}
unfolding perform attempted update_one cas_loop claim claim_guard claim_update heartbeat
    heartbeat_guard lease_guard persist_usage mutate mutate_guard mutate_patch recovery_action
    recover_guard recover_update recover_terminal recover_run cancel cancel_guard cancel_update
    owned_by force_cancel_ready
program = tt

abbrev fresh : History
fresh = record { row = new_run; past = []; clock = 100 }

abbrev pub claimed : History
claimed = wrote fresh 0 (perform (claim_op "w1" 30) new_run 100 new_run)

-- The recovery reads the row of the claim, and writes at the instant 200.
abbrev pub ended : History
ended = wrote claimed 100 (perform (recover_op 200 600 none) claimed.row 200 claimed.row)

claim-Step : Step IsSane fresh claimed
claim-Step = act fresh (claim_op "w1" 30) new_run 0 tt (Memᴰ.head refl)

recover-Step : Step IsSane claimed ended
recover-Step = act claimed (recover_op 200 600 none) claimed.row 100 tt (Memᴰ.head refl)

to_claimed : Reach IsSane fresh claimed
to_claimed = next here claim-Step

to_ended : Reach IsSane claimed ended
to_ended = next here recover-Step

fresh-IsLinear : IsLinear fresh
fresh-IsLinear = tt

claimed-IsLinear : IsLinear claimed
claimed-IsLinear = Reach-IsLinear fresh-IsLinear to_claimed

pub ended-IsLinear : IsLinear ended
ended-IsLinear = Reach-IsLinear claimed-IsLinear to_ended

ended_run :
    (ended.row.status ≡ failed)
    × (ended.row.lease_generation ≡ 2)
    × (ended.row.error_code ≡ some "worker_lost")
    × (claimed.row.lease_expires_at ≡ some 130)
unfolding program
ended_run = (refl, refl, refl, refl)

Reach-IsLinear_example : IsLinear ended
Reach-IsLinear_example = Reach-IsLinear claimed-IsLinear to_ended

-- After the end: a late heartbeat, from the row of the claim.
abbrev pub late : History
late = wrote ended 5 (perform (heartbeat_op first_claim 30) claimed.row 205 ended.row)

pub late-Step : Step IsSane ended late
late-Step = act ended (heartbeat_op first_claim 30) claimed.row 5 tt (Memᴰ.tail (Memᴰ.head refl))

ended_is_terminal : is_terminal ended.row.status ≡ true
unfolding program
ended_is_terminal = refl

Reach-Frozen_example : Frozen ended.row late.row
Reach-Frozen_example = Reach-Frozen ended-IsLinear ended_is_terminal (next here late-Step)

left_queue : claimed.row.status ≢ queued
unfolding program
left_queue = ground arith

claimed_once_example : perform (claim_op "w2" 30) new_run 210 ended.row ≡ ended.row
claimed_once_example =
    claimed_once claimed ended "w2" 30 new_run 210 claimed-IsLinear left_queue to_ended

Reach-generation_example : claimed.row.lease_generation ≤ ended.row.lease_generation
Reach-generation_example = Reach-generation claimed-IsLinear to_ended

pub older : first_claim.generation < ended.row.lease_generation
unfolding program
older = omega arith

fenced_worker_example : perform (heartbeat_op first_claim 30) claimed.row 206 late.row ≡ late.row
fenced_worker_example =
    fenced_worker ended late first_claim (heartbeat_op first_claim 30) claimed.row 206
      ended-IsLinear older (next here late-Step) (beats 30) (Memᴰ.tail (Memᴰ.tail (Memᴰ.head refl)))

claimed_is_leased : is_leased claimed.row.status ≡ true
unfolding program
claimed_is_leased = refl

claim_expired : (holds first_claim claimed.row ≡ false) ⊎ (lease_is_live 130 claimed.row ≡ false)
unfolding program
claim_expired = inr refl

worker_write_needs_lease_example :
    perform (heartbeat_op first_claim 30) claimed.row 130 claimed.row ≡ claimed.row
worker_write_needs_lease_example =
    worker_write_needs_lease claimed first_claim (heartbeat_op first_claim 30) claimed.row 130
      claimed-IsLinear claimed_is_leased claim_expired (beats 30) (Memᴰ.head refl)

claim_live : lease_is_live 110 claimed.row ≡ true
unfolding program
claim_live = refl

recover_spares_live_example :
    perform (recover_op 200 600 none) claimed.row 110 claimed.row ≡ claimed.row
recover_spares_live_example =
    recover_spares_live claimed 200 600 none claimed.row 110 claimed-IsLinear claimed_is_leased
      claim_live (Memᴰ.head refl)

-- A cancellation is requested at 105, and forced at 110.
abbrev stopping : History
stopping =
    wrote claimed 5 (perform (cancel_op false false "stop" 60 105) claimed.row 105 claimed.row)

stopping-Step : Step IsSane claimed stopping
stopping-Step = act claimed (cancel_op false false "stop" 60 105) claimed.row 5 tt (Memᴰ.head refl)

stopping-IsLinear : IsLinear stopping
stopping-IsLinear = Reach-IsLinear claimed-IsLinear (next here stopping-Step)

stopping_is_leased : is_leased stopping.row.status ≡ true
unfolding program
stopping_is_leased = refl

stopping_expires : stopping.row.lease_expires_at ≡ some 130
unfolding program
stopping_expires = refl

within_grace :
    (requested : ℕ) → stopping.row.cancel_requested_at ≡ some requested → 110 < requested + 60
unfolding program
within_grace requested e = let same : 105 ≡ requested = cc e in omega (arith, same)

force_cancel_waits_example :
    perform (cancel_op true false "stop" 60 110) stopping.row 110 stopping.row ≡ stopping.row
force_cancel_waits_example =
    force_cancel_waits stopping "stop" 60 110 130 stopping.row 110 stopping-IsLinear
      stopping_is_leased stopping_expires (omega arith) within_grace (Memᴰ.head refl)

fresh-IsNumbered : IsNumbered fresh.row
fresh-IsNumbered = record { stored = 0; in_order = tt; complete = refl }

Reach-IsNumbered_example : IsNumbered ended.row
Reach-IsNumbered_example =
    Reach-IsNumbered fresh-IsLinear fresh-IsNumbered (next to_claimed recover-Step)

claim_wins_example :
    let (result, row') = alone (claim "w1" 30) 100 [] new_run in
    (c : LeaseClaim) × (result ≡ returned (some c))
    × (holds_lease c row' ≡ true)
    × (lease_is_live 100 row' ≡ true)
claim_wins_example = claim_wins "w1" 30 100 [] new_run refl (omega arith) refl

held_by_first : holds_lease first_claim claimed.row ≡ true
unfolding program
held_by_first = refl

heartbeat_keeps_example :
    let (result, row') = alone (heartbeat first_claim 30) 110 [] claimed.row in
    (result ≡ returned tt) × IsKept first_claim (110 + 30) row'
heartbeat_keeps_example =
    heartbeat_keeps first_claim 30 110 [] claimed.row (omega arith) held_by_first claim_live

claim_over : lease_is_live 200 claimed.row ≡ false
unfolding program
claim_over = refl

recover_ends_example :
    let (result, row') = alone (recover_run 200 600 none) 200 [] claimed.row in
    (result ≡ returned true)
    × (row'.status ≡ failed)
    × (row'.completed_at ≡ some 200)
    × (row'.lease_generation ≡ claimed.row.lease_generation + 1)
unfolding program
recover_ends_example =
    recover_ends 200 600 none 200 [] claimed.row claimed_is_leased claim_over claim_over
