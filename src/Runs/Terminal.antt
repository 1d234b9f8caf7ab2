-- ===== src/Runs/Terminal.antt =====
-- cognitrix/tasks/repository.py: `recover_terminal` and `_cancel`, which end a run without its
-- worker; and the choice of a cause in cognitrix/tasks/recovery.py.
use cognitrix.Prelude.{
  ℕ, ◌+◌, String, Bool, true, false, not, ◌&&◌, ◌||◌, Option, none, some, [], ◌∷◌, ◌++◌, leb, ◌==◌,
  if◌then◌else◌,
}
use cognitrix.Runs.{
  TaskRunStatus, queued, failed, cancelling, cancelled, same_status, is_leased, is_terminal, Event,
  status_data, TaskRun, value_error, lease_is_live, owned_by, keep_or, terminal_notification_state,
  force_cancel_ready, envelope_after,
}
use cognitrix.Runs.Cas.{Update, Attempt, return, Outcome, returned, raised, try_write}

abbrev run_status_event : TaskRunStatus → Option String → Event
run_status_event status error_code = record {
  kind = "run_status";
  payload = status_data status error_code;
}

-- The part of a `WHERE` clause that names the lease that was read, if its owner was not NULL.
abbrev same_lease : TaskRun → TaskRun → Bool
same_lease run row =
    if is_leased run.status
    then row.lease_generation == run.lease_generation && same_owner run.lease_owner
    else true
  where
    same_owner : Option String → Bool
    same_owner none = true
    same_owner (some owner) = owned_by owner row.lease_owner

-- A lease that is advanced shuts out the worker that held it.
abbrev next_generation : Bool → TaskRun → ℕ → ℕ
next_generation advance run stored = if advance then run.lease_generation + 1 else stored

pub record RecoveryAction : Type 0 where
  pub status : TaskRunStatus
  pub error_code : String
  pub error : String

-- A queue timestamp that is missing or unreadable counts as timed out.
abbrev queue_timed_out : ℕ → ℕ → Option ℕ → Bool
queue_timed_out timeout now none = true
queue_timed_out timeout now (some queued_at) = leb (queued_at + timeout) now

abbrev lost_worker : Option ℕ → RecoveryAction
lost_worker none = record {
  status = failed;
  error_code = "worker_lost";
  error = "worker lease expired";
}
lost_worker (some requested) = record {
  status = cancelled;
  error_code = "cancelled";
  error = "cancelled by user";
}

-- `_recovery_action` of recovery.py. A row's `created_at` stands in for a missing `queued_at`.
unfoldable pub recovery_action : ℕ → ℕ → Option ℕ → TaskRun → Option RecoveryAction
recovery_action now queue_timeout created_at run =
    if same_status run.status queued
    then (if queue_timed_out queue_timeout now (first_of_two run.queued_at)
        then some (record {
          status = failed;
          error_code = "queue_timeout";
          error = "task run exceeded queue wait timeout";
        })
        else none)
    else if is_leased run.status && not (lease_is_live now run)
    then some (lost_worker run.cancel_requested_at)
    else none
  where
    first_of_two : Option ℕ → Option ℕ
    first_of_two none = created_at
    first_of_two (some queued_at) = some queued_at

-- `_recovery_stale_predicate`, at the database's clock.
abbrev pub stale : ℕ → TaskRun → ℕ → TaskRun → Bool
stale queue_timeout run now row =
    if is_leased run.status
    then not (lease_is_live now row)
    else queue_timed_out queue_timeout now row.queued_at

-- The row that a status event of the repository leaves behind.
abbrev with_event : TaskRunStatus → Option String → TaskRun → TaskRun → TaskRun
with_event status error_code run row = record row {
  status = status;
  next_event_sequence = run.next_event_sequence + 1;
  event_outbox = run.event_outbox ++ envelope_after run (run_status_event status error_code) ∷ [];
  version = run.version + 1;
}

unfoldable pub recover_guard : RecoveryAction → TaskRun → Option (Outcome Bool)
recover_guard action run =
    if not (is_terminal action.status)
    then some (raised value_error)
    else if is_terminal run.status
    then some (returned false)
    else none

unfoldable pub recover_update : RecoveryAction → ℕ → ℕ → TaskRun → Update
recover_update action completed_at queue_timeout run = record {
  where_clause = λ now row.
      same_status row.status run.status
      && row.version == run.version
      && same_lease run row
      && stale queue_timeout run now row;
  assign = λ now row.
      let patched = with_event action.status (some action.error_code) run row in
      record patched {
        error_code = some action.error_code;
        error = some action.error;
        completed_at = some completed_at;
        notification_state = keep_or run.notification_state (terminal_notification_state run);
        lease_generation = next_generation (is_leased run.status) run row.lease_generation;
      };
}

unfoldable pub recover_terminal : RecoveryAction → ℕ → ℕ → TaskRun → Attempt Bool
recover_terminal action completed_at queue_timeout run =
    try_write (recover_guard action run) (recover_update action completed_at queue_timeout run) true

abbrev pub recover_by : Option RecoveryAction → ℕ → ℕ → TaskRun → Attempt Bool
recover_by none now queue_timeout run = return false
recover_by (some action) now queue_timeout run = recover_terminal action now queue_timeout run

-- One turn of `recover_run`: read the row, choose the cause, and try the write.
unfoldable pub recover_run : ℕ → ℕ → Option ℕ → TaskRun → Attempt Bool
recover_run now queue_timeout created_at run =
    recover_by (recovery_action now queue_timeout created_at run) now queue_timeout run

-- The write of `_cancel`, from the row that was read at the instant `now`.
unfoldable pub cancel_update : Bool → String → ℕ → TaskRun → Update
cancel_update force reason now run =
    let ends = force || same_status run.status queued in
    record {
      where_clause = λ clock row.
          same_status row.status run.status && row.version == run.version && same_lease run row;
      assign = λ clock row.
          let patched = with_event (if ends then cancelled else cancelling) none run row in
          record patched {
            cancel_requested_at = keep_or run.cancel_requested_at now;
            error = if ends then some reason else row.error;
            completed_at = if ends then some now else row.completed_at;
            notification_state =
                if ends
                then keep_or run.notification_state (terminal_notification_state run)
                else row.notification_state;
            lease_generation =
                next_generation (force && is_leased run.status) run row.lease_generation;
          };
    }

-- A run that has ended, that is being cancelled already, or that may not be forced yet is returned
-- as it is.
unfoldable pub cancel_guard : Bool → Bool → ℕ → ℕ → TaskRun → Option (Outcome Unit)
unfolding force_cancel_ready
cancel_guard force queued_only grace now run =
    if is_terminal run.status
      || queued_only && not (same_status run.status queued)
      || not force && same_status run.status cancelling
      || force && not (same_status run.status queued) && not (force_cancel_ready now grace run)
    then some (returned tt)
    else none

-- `_cancel`
unfoldable pub cancel : Bool → Bool → String → ℕ → ℕ → TaskRun → Attempt Unit
cancel force queued_only reason grace now run =
    try_write (cancel_guard force queued_only grace now run) (cancel_update force reason now run) tt

abbrev pub request_cancel : String → ℕ → TaskRun → Attempt Unit
request_cancel reason = cancel false false reason 0

abbrev pub cancel_queued : ℕ → TaskRun → Attempt Unit
cancel_queued = cancel false true "cancelled by user" 0

-- The second half of `force_cancel`; the first is a `request_cancel`.
abbrev pub force_cancel : String → ℕ → ℕ → TaskRun → Attempt Unit
force_cancel reason grace = cancel true false reason grace
