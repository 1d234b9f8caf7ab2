-- ===== src/Steps/Tests.antt =====
-- A step's life, and the theorems at it.
use cognitrix.Prelude.{◌≡◌, refl, true, false, none, some, List, [], ◌∷◌}
use cognitrix.Runs.{TaskRun, TaskRunStatus, owned_by}
use cognitrix.Runs.Lease.{require_step_write}
use cognitrix.Runs.Tests.{claimed, ended, late, first_claim, ended-IsLinear, older, late-Step}
use cognitrix.Runs.History.{here, next}
use cognitrix.Steps.{
  TaskRunStepStatus, pending, running, done, TaskRunStep, StepPatch, is_legal, transition_step,
  backfill_step_runtime, fenced_step_update,
}
use cognitrix.Steps.Path.{
  StepOp, transition, backfill, write_step, StepWrite, write_all, may_become, write_all-may_become,
  write_all-runtime_snapshot,
}
use cognitrix.Steps.Fence.{fenced_step_worker}

abbrev new_step : TaskRunStep
new_step = record {
  status = pending;
  fields = record {
    attempts = 0;
    result = none;
    gate = none;
    error = none;
    started_at = none;
    completed_at = none;
  };
  agent_name = "";
  runtime_snapshot = none;
}

abbrev to_status : TaskRunStepStatus → StepPatch
to_status s = record { status = some s; fields = λ f. f; is_empty = false }

abbrev running_run : TaskRun
running_run = record (claimed.row) {
  status = TaskRunStatus.running;
  lease_owner = some "w1";
  lease_generation = 1;
  lease_expires_at = some 130;
  id = "r1";
}

-- Two writers read the pending step; the second arrives after the step has ended.
abbrev writes : List StepWrite
writes =
    record {
      op = backfill first_claim "a" "a" "s" 105 running_run new_step;
      now = 105;
      run = running_run;
    }
    ∷ record {
      op = transition first_claim none (to_status running) 106 running_run new_step;
      now = 106;
      run = running_run;
    }
    ∷ record {
      op =
          transition first_claim none (to_status done) 107 running_run
            (record new_step { status = running });
      now = 107;
      run = running_run;
    }
    ∷ record {
      op = transition first_claim none (to_status running) 106 running_run new_step;
      now = 108;
      run = running_run;
    }
    ∷ []

program : Unit {0}
unfolding write_step write_all fenced_step_update transition_step backfill_step_runtime is_legal
    require_step_write owned_by
program = tt

step_ends :
    ((write_all writes new_step).status ≡ done)
    × ((write_all writes new_step).runtime_snapshot ≡ some "s")
unfolding program
step_ends = (refl, refl)

write_all-may_become_example : may_become pending (write_all writes new_step).status ≡ true
write_all-may_become_example = write_all-may_become writes new_step

write_all-runtime_snapshot_example :
    (write_all writes (record new_step { runtime_snapshot = some "old" })).runtime_snapshot
    ≡ some "old"
write_all-runtime_snapshot_example =
    write_all-runtime_snapshot writes (record new_step { runtime_snapshot = some "old" }) "old" refl

abbrev late_op : StepOp
late_op = transition first_claim none (to_status running) 110 running_run new_step

fenced_step_worker_example : write_step late_op 206 late.row new_step ≡ new_step
fenced_step_worker_example =
    fenced_step_worker ended late late_op 206 new_step ended-IsLinear older (next here late-Step)
