-- ===== src/Admission.antt =====
-- cognitrix/tasks/run.py and cognitrix/tasks/repository.py: the head row of a task, by which the
-- repository admits its runs, one active run at a time and none once the task is deleted. Every
-- method reads the head, and where it names an active run the status of that run, and then sends one
-- write that names the version it read. `_active_head_candidates` and the enqueue of the run are
-- outside.
pub mod History
pub mod Guard
mod Tests
use text.Mathlib.Text.{◌==◌ as str_eq}
use cognitrix.Prelude.{
  ℕ, ◌+◌, List, [], ◌∷◌, Result, ok, err, String, Bool, true, false, not, ◌&&◌, ◌||◌, Option, none,
  some, ltb, ◌==◌, if◌then◌else◌,
}
use cognitrix.Runs.{TaskRunStatus, is_active, is_terminal}

pub record TaskRunHead : Type 0 where
  pub latest_run_id : Option String
  pub active_run_id : Option String
  pub deleted_at : Option String
  pub version : ℕ
  pub updated_at : ℕ

pub data HeadError : Type 0 where
  active_run_exists task_deleted value_error head_invariant_error : HeadError

-- What a method does with the head that it read.
pub data HeadAttempt : Type 0 where
  stop : HeadAttempt
  fail : HeadError → HeadAttempt
  insert : TaskRunHead → HeadAttempt
  update : ℕ → Option String → (TaskRunHead → TaskRunHead) → HeadAttempt

-- A column that is neither NULL nor empty.
abbrev pub is_set : Option String → Bool
is_set none = false
is_set (some s) = not (str_eq s "")

unfoldable pub names : Option String → String → Bool
names none id = false
names (some stored) id = str_eq stored id

-- The rows of the runs, as they are read: `none` is a run without a row.
abbrev pub RunStatuses : Type 0
RunStatuses = String → Option TaskRunStatus

-- A run without a row blocks too: its creator may be about to insert it.
abbrev pub blocks : Option TaskRunStatus → Bool
blocks none = true
blocks (some status) = is_active status

abbrev pub is_blocked : RunStatuses → Option String → Bool
is_blocked runs none = false
is_blocked runs (some id) = not (str_eq id "") && blocks (runs id)

abbrev pub reserved_head : String → ℕ → TaskRunHead → TaskRunHead
reserved_head run_id version head = record head {
  latest_run_id = some run_id;
  active_run_id = some run_id;
  version = version + 1;
}

-- `_reserve_head`
unfoldable pub reserve_head : RunStatuses → String → Option TaskRunHead → HeadAttempt
reserve_head runs run_id none = insert (record {
  latest_run_id = some run_id;
  active_run_id = some run_id;
  deleted_at = none;
  version = 1;
  updated_at = 0;
})
reserve_head runs run_id (some head) =
    if is_set head.deleted_at
    then fail task_deleted
    else if is_blocked runs head.active_run_id
    then fail active_run_exists
    else update head.version none (reserved_head run_id head.version)

-- `tombstone_task`
unfoldable pub tombstone_task : RunStatuses → String → Option TaskRunHead → HeadAttempt
tombstone_task runs deleted_at none =
    if str_eq deleted_at ""
    then fail value_error
    else insert (record {
      latest_run_id = none;
      active_run_id = none;
      deleted_at = some deleted_at;
      version = 1;
      updated_at = 0;
    })
tombstone_task runs deleted_at (some head) =
    if str_eq deleted_at ""
    then fail value_error
    else if is_set head.deleted_at
    then stop
    else if is_blocked runs head.active_run_id
    then fail active_run_exists
    else update head.version none (λ row. record row {
      active_run_id = none;
      deleted_at = some deleted_at;
      version = head.version + 1;
    })

abbrev pub released : ℕ → TaskRunHead → TaskRunHead
released version row = record row { active_run_id = none; version = version + 1 }

-- `_restore_head_after_failed_create`
unfoldable pub restore_head : String → Option String → Option TaskRunHead → HeadAttempt
restore_head run_id previous_latest none = stop
restore_head run_id previous_latest (some head) =
    if names head.active_run_id run_id
    then update head.version (some run_id)
        (λ row. record (released head.version row) { latest_run_id = previous_latest })
    else stop

-- `_release_active`
unfoldable pub release_active : String → Option TaskRunHead → HeadAttempt
release_active run_id none = stop
release_active run_id (some head) =
    if names head.active_run_id run_id
    then update head.version (some run_id) (released head.version)
    else stop

-- A run that has ended, or a reservation whose run was not inserted in time.
abbrev is_abandoned : ℕ → ℕ → ℕ → Option TaskRunStatus → Bool
is_abandoned now timeout updated_at none = not (ltb now (updated_at + timeout))
is_abandoned now timeout updated_at (some status) = is_terminal status

abbrev release_abandoned : RunStatuses → ℕ → ℕ → TaskRunHead → Option String → HeadAttempt
release_abandoned runs now timeout head none = stop
release_abandoned runs now timeout head (some run_id) =
    if not (str_eq run_id "") && is_abandoned now timeout head.updated_at (runs run_id)
    then update head.version (some run_id) (released head.version)
    else stop

-- One turn of `recover_stale_reservations`.
unfoldable pub recover_reservation : RunStatuses → ℕ → ℕ → Option TaskRunHead → HeadAttempt
recover_reservation runs now timeout none = stop
recover_reservation runs now timeout (some head) =
    release_abandoned runs now timeout head head.active_run_id

-- `_TaskRunHistory`: what the stored runs of the task say.
pub record TaskRunHistory : Type 0 where
  pub latest_run_id : Option String
  pub active_run_id : Option String

abbrev pub first_of : List String → Option String
first_of [] = none
first_of (id ∷ rest) = some id

-- `_task_run_history`, of the ids that its two queries return: at most two active runs, and the
-- latest run.
unfoldable pub task_run_history : List String → List String → Result HeadError TaskRunHistory
task_run_history (first ∷ second ∷ rest) latest = err head_invariant_error
task_run_history active latest =
    ok (record { latest_run_id = first_of latest; active_run_id = first_of active })

abbrev pub same_id : Option String → Option String → Bool
same_id none none = true
same_id (some id) (some other) = str_eq id other
same_id a b = false

abbrev pub is_some : Option String → Bool
is_some none = false
is_some (some id) = true

-- The write of `reconcile_task_head`, unless the head is as it should be.
abbrev pub project : TaskRunHead → Option String → Option String → HeadAttempt
project head latest active =
    if same_id head.latest_run_id latest && same_id head.active_run_id active
    then stop
    else update head.version none (λ row. record row {
      latest_run_id = latest;
      active_run_id = active;
      version = head.version + 1;
    })

-- The run that the head names has no row, or is active, or has ended.
abbrev pub project_over : TaskRunHistory → TaskRunHead → Option TaskRunStatus → HeadAttempt
project_over history head none = stop
project_over history head (some status) =
    if not (is_active status)
    then project head history.latest_run_id history.active_run_id
    else if same_id history.active_run_id head.active_run_id
    then project head history.latest_run_id head.active_run_id
    else if is_some history.active_run_id
    then fail head_invariant_error
    else project head head.latest_run_id head.active_run_id

abbrev pub project_named : RunStatuses → TaskRunHistory → TaskRunHead → Option String → HeadAttempt
project_named runs history head none = project head history.latest_run_id history.active_run_id
project_named runs history head (some run_id) =
    if str_eq run_id ""
    then project head history.latest_run_id history.active_run_id
    else project_over history head (runs run_id)

-- One turn of `reconcile_task_head`.
unfoldable pub reconcile_task_head : RunStatuses → TaskRunHistory → Option TaskRunHead → HeadAttempt
reconcile_task_head runs history none =
    if is_some history.latest_run_id
    then insert (record {
      latest_run_id = history.latest_run_id;
      active_run_id = history.active_run_id;
      deleted_at = none;
      version = 1;
      updated_at = 0;
    })
    else stop
reconcile_task_head runs history (some head) =
    if is_set head.deleted_at then stop else project_named runs history head head.active_run_id

abbrev pub same_active : Option String → Option String → Bool
same_active none active = true
same_active (some run_id) active = names active run_id

-- The write, on the head as it is at the instant `now`: an insert fails on a primary key that is
-- there, and the object mapper sets `updated_at`.
unfoldable pub write_head : HeadAttempt → ℕ → Option TaskRunHead → Option TaskRunHead
write_head stop now row = row
write_head (fail e) now row = row
write_head (insert head) now none = some (record head { updated_at = now })
write_head (insert head) now (some row) = some row
write_head (update version active assign) now none = none
write_head (update version active assign) now (some row) =
    if row.version == version && same_active active row.active_run_id
    then some (record (assign row) { updated_at = now })
    else some row
