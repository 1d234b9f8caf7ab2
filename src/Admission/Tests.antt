-- ===== src/Admission/Tests.antt =====
-- A task's head from its first run to its deletion, and the theorems at it.
use text.Mathlib.Text.{◌==◌ as str_eq}
use mathlib.Core.List.{Memᴰ}
use cognitrix.Prelude.{err, ◌≡◌, refl, true, none, some, [], ◌∷◌, if◌then◌else◌}
use cognitrix.Runs.{running, completed}
use cognitrix.Admission.{
  TaskRunHead, RunStatuses, reserve_head, tombstone_task, restore_head, release_active,
  recover_reservation, write_head, names, is_blocked, reconcile_task_head, task_run_history, update,
  head_invariant_error,
}
use cognitrix.Admission.History.{
  reserve, tombstone, perform_head, HeadHistory, here, next, IsLinearHead, HeadReach-IsLinear,
}
use cognitrix.Admission.Guard.{IsTombstone, tombstone_is_final, reserves, admitted_alone}

program : Unit {0}
unfolding perform_head write_head reserve_head tombstone_task restore_head release_active
    recover_reservation names
program = tt

abbrev no_head : HeadHistory
no_head = record { row = none; past = [] }

abbrev none_yet : RunStatuses
none_yet id = none

abbrev first_runs : RunStatuses
first_runs id = if str_eq id "r1" then some running else none

abbrev first_ended : RunStatuses
first_ended id = if str_eq id "r1" then some completed else none

abbrev admitted : HeadHistory
admitted = record { row = perform_head (reserve none_yet "r1") none 10 none; past = none ∷ [] }

abbrev admitted_head : TaskRunHead
admitted_head = record {
  latest_run_id = some "r1";
  active_run_id = some "r1";
  deleted_at = none;
  version = 1;
  updated_at = 10;
}

first_admitted : admitted.row ≡ some admitted_head
unfolding program
first_admitted = refl

admitted-IsLinear : IsLinearHead admitted
admitted-IsLinear =
    HeadReach-IsLinear tt (next {k = no_head} (reserve none_yet "r1") none 10 here (Memᴰ.head refl))

first_blocks : is_blocked first_runs admitted_head.active_run_id ≡ true
first_blocks = refl

admitted_alone_example : perform_head (reserve first_runs "r2") none 20 admitted.row ≡ admitted.row
admitted_alone_example =
    admitted_alone admitted admitted_head first_runs (reserve first_runs "r2") none 20
      admitted-IsLinear first_admitted (reserves "r2") first_blocks (Memᴰ.tail (Memᴰ.head refl))

-- The run has ended, and the task is deleted.
abbrev deleted : HeadHistory
deleted = record {
  row = perform_head (tombstone first_ended "now") admitted.row 30 admitted.row;
  past = admitted.row ∷ admitted.past;
}

deleted-IsLinear : IsLinearHead deleted
deleted-IsLinear =
    HeadReach-IsLinear admitted-IsLinear
      (next {k = admitted} (tombstone first_ended "now") admitted.row 30 here (Memᴰ.head refl))

deleted-IsTombstone : IsTombstone deleted.row
unfolding program
deleted-IsTombstone = record {
  head = record {
    latest_run_id = some "r1";
    active_run_id = none;
    deleted_at = some "now";
    version = 2;
    updated_at = 30;
  };
  there = refl;
  deleted = refl;
  inactive = refl;
}

tombstone_is_final_example :
    perform_head (reserve none_yet "r2") admitted.row 40 deleted.row ≡ deleted.row
tombstone_is_final_example =
    tombstone_is_final deleted-IsLinear deleted-IsTombstone
      (next {k = deleted} (reserve none_yet "r2") admitted.row 40 here (Memᴰ.tail (Memᴰ.head refl)))

-- A head without an active run is repaired from the stored runs; two active runs are refused.
repaired_active :
    reconcile_task_head
      (λ id. some completed)
      (record { latest_run_id = some "r2"; active_run_id = some "r2" })
      (some (record {
        latest_run_id = some "r1";
        active_run_id = some "r1";
        deleted_at = none;
        version = 4;
        updated_at = 0;
      }))
    ≡ update 4 none
        (λ row. record row { latest_run_id = some "r2"; active_run_id = some "r2"; version = 5 })
unfolding reconcile_task_head
repaired_active = refl

two_active-refused : task_run_history ("r1" ∷ "r2" ∷ []) ("r2" ∷ []) ≡ err head_invariant_error
unfolding task_run_history
two_active-refused = refl
