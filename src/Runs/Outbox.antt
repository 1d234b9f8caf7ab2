-- ===== src/Runs/Outbox.antt =====
-- cognitrix/tasks/repository.py: the writes that leave a run's lifecycle alone, `flush_outbox`,
-- `attach_queue_job_id`, `claim_completion_notification` and `finish_completion_notification`.
use text.Mathlib.Text.{◌==◌ as str_eq}
use cognitrix.Prelude.{
  ℕ, zero, suc, ◌+◌, ◌-◌, String, Bool, true, false, not, ◌&&◌, ◌||◌, Option, none, some, List, [],
  ◌∷◌, leb, ◌==◌, if◌then◌else◌, min,
}
use cognitrix.Runs.{
  is_terminal, NotificationState, pending, delivering, delivered, skipped, Envelope, TaskRun,
  run_state_conflict, value_error, later_than, owned_by,
}
use cognitrix.Runs.Cas.{Update, Attempt, Outcome, returned, raised, try_write}

abbrev pub tail_of : List Envelope → List Envelope
tail_of [] = []
tail_of (e ∷ rest) = rest

abbrev pub acknowledge_guard : List Envelope → Option (Outcome Unit)
acknowledge_guard [] = some (returned tt)
acknowledge_guard (e ∷ rest) = none

abbrev pub acknowledge_update : TaskRun → Update
acknowledge_update run = record {
  where_clause = λ now row. row.version == run.version;
  assign =
      λ now row. record row { event_outbox = tail_of run.event_outbox; version = run.version + 1 };
}

-- One turn of `flush_outbox`, behind the insert of the first envelope into the event store.
unfoldable pub acknowledge : TaskRun → Attempt Unit
acknowledge run = try_write (acknowledge_guard run.event_outbox) (acknowledge_update run) tt

abbrev attach_to : Option String → String → Option (Outcome Unit)
attach_to none job_id = none
attach_to (some stored) job_id =
    some (if str_eq stored job_id then returned tt else raised run_state_conflict)

unfoldable pub attach_guard : String → TaskRun → Option (Outcome Unit)
attach_guard job_id run =
    if str_eq job_id "" then some (raised value_error) else attach_to run.queue_job_id job_id

abbrev pub attach_update : String → TaskRun → Update
attach_update job_id run = record {
  where_clause = λ now row. row.version == run.version;
  assign = λ now row. record row { queue_job_id = some job_id; version = run.version + 1 };
}

unfoldable pub attach_queue_job_id : String → TaskRun → Attempt Unit
attach_queue_job_id job_id run = try_write (attach_guard job_id run) (attach_update job_id run) tt

abbrev same_state : NotificationState → NotificationState → Bool
same_state pending pending = true
same_state delivering delivering = true
same_state delivered delivered = true
same_state skipped skipped = true
same_state NotificationState.failed NotificationState.failed = true
same_state _ _ = false

abbrev in_state : Option NotificationState → NotificationState → Bool
in_state none state = false
in_state (some stored) state = same_state stored state

-- The column is compared with what was read, where that is no NULL.
abbrev same_as : Option NotificationState → Option NotificationState → Bool
same_as none stored = false
same_as (some state) stored = in_state stored state

abbrev pub deliver_update : String → ℕ → ℕ → TaskRun → Update
deliver_update owner lease_seconds now run = record {
  where_clause = λ clock row.
      row.version == run.version && same_as run.notification_state row.notification_state;
  assign = λ clock row. record row {
    notification_state = some delivering;
    notification_owner = some owner;
    notification_expires_at = some (now + lease_seconds);
    notification_next_at = none;
    notification_attempts = run.notification_attempts + 1;
    version = run.version + 1;
  };
}

-- A pending notification is due at its time, and one being delivered when its lease has run out.
abbrev is_due : Option NotificationState → ℕ → TaskRun → Bool
is_due (some pending) now run = not (later_than run.notification_next_at now)
is_due (some delivering) now run = not (later_than run.notification_expires_at now)
is_due _ now run = false

unfoldable pub notification_guard : String → ℕ → ℕ → TaskRun → Option (Outcome Bool)
notification_guard owner lease_seconds now run =
    if str_eq owner "" || lease_seconds == 0
    then some (raised value_error)
    else if is_terminal run.status && is_due run.notification_state now run
    then none
    else some (returned false)

-- `claim_completion_notification`
unfoldable pub claim_notification : String → ℕ → ℕ → TaskRun → Attempt Bool
claim_notification owner lease_seconds now run =
    try_write (notification_guard owner lease_seconds now run)
      (deliver_update owner lease_seconds now run) true

abbrev pub max_notification_attempts : ℕ
max_notification_attempts = 8

-- `NOTIFICATION_BACKOFF_SECONDS` at an index of at most its last.
abbrev pub backoff_seconds : ℕ → ℕ
backoff_seconds zero = 30
backoff_seconds (suc zero) = 120
backoff_seconds (suc (suc zero)) = 600
backoff_seconds (suc (suc (suc zero))) = 1800
backoff_seconds (suc (suc (suc (suc zero)))) = 3600
backoff_seconds (suc (suc (suc (suc (suc zero))))) = 7200
backoff_seconds (suc (suc (suc (suc (suc (suc n)))))) = 21600

abbrev finish_patch : Bool → ℕ → TaskRun → TaskRun → TaskRun
finish_patch success now run row =
    let freed = record row {
      notification_owner = none;
      notification_expires_at = none;
      version = run.version + 1;
    } in
    if success
    then record freed {
      notification_state = some delivered;
      notification_next_at = none;
      notified_at = some now;
    }
    else if leb max_notification_attempts run.notification_attempts
    then record freed {
      notification_state = some NotificationState.failed;
      notification_next_at = none;
    }
    else record freed {
      notification_state = some pending;
      notification_next_at = some (now + backoff_seconds (min (run.notification_attempts - 1) 6));
    }

unfoldable pub finish_guard : String → TaskRun → Option (Outcome Unit)
finish_guard owner run =
    if in_state run.notification_state delivered
    then some (returned tt)
    else if in_state run.notification_state delivering && owned_by owner run.notification_owner
    then none
    else some (raised run_state_conflict)

unfoldable pub finish_update : String → Bool → ℕ → TaskRun → Update
finish_update owner success now run = record {
  where_clause = λ clock row.
      row.version == run.version
      && in_state row.notification_state delivering
      && owned_by owner row.notification_owner;
  assign = λ clock row. finish_patch success now run row;
}

-- `finish_completion_notification`
unfoldable pub finish_notification : String → Bool → ℕ → TaskRun → Attempt Unit
finish_notification owner success now run =
    try_write (finish_guard owner run) (finish_update owner success now run) tt
