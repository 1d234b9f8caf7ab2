-- ===== src/Runs/Lease.antt =====
-- cognitrix/tasks/repository.py: the methods by which a worker holds a run and writes to it, `claim`,
-- `heartbeat`, `mutate` (with `emit_event`) and `persist_usage`, one attempt of each.
use text.Mathlib.Text.{◌==◌ as str_eq}
use cognitrix.Prelude.{
  ℕ, ◌+◌, String, Bool, true, false, not, ◌&&◌, ◌||◌, Option, none, some, List, [], ◌∷◌, ◌++◌, ◌==◌,
  if◌then◌else◌,
}
use cognitrix.Runs.{
  TaskRunStatus, queued, running, same_status, is_leased, is_terminal, NotificationState, Event,
  Envelope, Outputs, TaskRun, LeaseClaim, Failure, lease_lost, run_state_conflict, value_error,
  lease_is_live, holds, or_else, keep_or, terminal_notification_state, envelope_after,
}
use cognitrix.Runs.Cas.{Update, Attempt, Outcome, returned, raised, try_write}

-- `claim`: only a queued run can be claimed, under the next generation of its lease.
unfoldable pub claim_update : String → ℕ → TaskRun → Update
claim_update owner lease_seconds run = record {
  where_clause = λ now row. same_status row.status queued && row.version == run.version;
  assign = λ now row. record row {
    status = running;
    lease_owner = some owner;
    lease_generation = run.lease_generation + 1;
    heartbeat_at = some now;
    lease_expires_at = some (now + lease_seconds);
    started_at = keep_or row.started_at now;
    version = run.version + 1;
  };
}

unfoldable pub claim_guard : String → ℕ → TaskRun → Option (Outcome (Option LeaseClaim))
claim_guard owner lease_seconds run =
    if str_eq owner "" || lease_seconds == 0
    then some (raised value_error)
    else if same_status run.status queued
    then none
    else some (returned none)

unfoldable pub claim : String → ℕ → TaskRun → Attempt (Option LeaseClaim)
claim owner lease_seconds run =
    try_write (claim_guard owner lease_seconds run) (claim_update owner lease_seconds run)
      (some (record { run_id = run.id; owner = owner; generation = run.lease_generation + 1 }))

-- What the guards of a worker's write demand of the row that was read.
abbrev pub holds_lease : LeaseClaim → TaskRun → Bool
holds_lease claim run = is_leased run.status && str_eq claim.run_id run.id && holds claim run

-- The `WHERE` clause of `_heartbeat_update` and `_fenced_run_update`.
abbrev pub fence : LeaseClaim → TaskRun → ℕ → TaskRun → Bool
fence claim run now row =
    same_status row.status run.status
    && row.version == run.version
    && holds claim row
    && lease_is_live now row

unfoldable pub lease_guard : LeaseClaim → TaskRun → Option (Outcome Unit)
lease_guard claim run = if holds_lease claim run then none else some (raised lease_lost)

unfoldable pub heartbeat_guard : LeaseClaim → ℕ → TaskRun → Option (Outcome Unit)
unfolding lease_guard
heartbeat_guard claim lease_seconds run =
    if lease_seconds == 0 then some (raised value_error) else lease_guard claim run

abbrev pub heartbeat_update : LeaseClaim → ℕ → TaskRun → Update
heartbeat_update claim lease_seconds run = record {
  where_clause = fence claim run;
  assign = λ now row. record row {
    heartbeat_at = some now;
    lease_expires_at = some (now + lease_seconds);
    version = run.version + 1;
  };
}

unfoldable pub heartbeat : LeaseClaim → ℕ → TaskRun → Attempt Unit
heartbeat claim lease_seconds run =
    try_write (heartbeat_guard claim lease_seconds run) (heartbeat_update claim lease_seconds run)
      tt

-- `persist_usage`, with `merge` for `_merge_usage`.
abbrev pub usage_update : (String → String) → LeaseClaim → TaskRun → Update
usage_update merge claim run = record {
  where_clause = fence claim run;
  assign = λ now row. record row {
    outputs = record (row.outputs) { usage = merge run.outputs.usage };
    version = run.version + 1;
  };
}

unfoldable pub persist_usage : (String → String) → LeaseClaim → TaskRun → Attempt Unit
persist_usage merge claim run = try_write (lease_guard claim run) (usage_update merge claim run) tt

-- The fields of `_RUN_MUTABLE_FIELDS`; the outer `none` is a field that the patch does not name, the
-- inner one a null.
pub record RunUpdates : Type 0 where
  pub status : Option TaskRunStatus
  pub outputs : Option Outputs
  pub error_code : Option (Option String)
  pub error : Option (Option String)
  pub started_at : Option (Option ℕ)
  pub completed_at : Option (Option ℕ)

abbrev expects : Option (List TaskRunStatus) → TaskRunStatus → Bool
expects none status = true
expects (some statuses) status = listed statuses
  where
    listed : List TaskRunStatus → Bool
    listed [] = false
    listed (s ∷ rest) = same_status s status || listed rest

-- `query["status"]`, which is set where one status is expected.
abbrev expected_row : Option (List TaskRunStatus) → TaskRun → Bool
expected_row (some (status ∷ [])) row = same_status row.status status
expected_row _ row = true

-- The notification state that goes with a target status.
abbrev notification_after :
    Option TaskRunStatus → TaskRun → Option NotificationState → Option NotificationState
notification_after none run stored = stored
notification_after (some target) run stored =
    if is_terminal target
    then keep_or run.notification_state (terminal_notification_state run)
    else stored

abbrev sequence_after : Option Event → TaskRun → ℕ → ℕ
sequence_after none run stored = stored
sequence_after (some event) run stored = run.next_event_sequence + 1

abbrev outbox_after : Option Event → TaskRun → List Envelope → List Envelope
outbox_after none run stored = stored
outbox_after (some event) run stored = run.event_outbox ++ envelope_after run event ∷ []

unfoldable pub mutate_patch : RunUpdates → Option Event → TaskRun → TaskRun → TaskRun
mutate_patch updates event run row = record row {
  status = or_else updates.status row.status;
  outputs = or_else updates.outputs row.outputs;
  error_code = or_else updates.error_code row.error_code;
  error = or_else updates.error row.error;
  started_at = or_else updates.started_at row.started_at;
  completed_at = or_else updates.completed_at row.completed_at;
  notification_state = notification_after updates.status run row.notification_state;
  next_event_sequence = sequence_after event run row.next_event_sequence;
  event_outbox = outbox_after event run row.event_outbox;
  version = run.version + 1;
}

-- The guards of `_mutate` on the claim: it must match where it is given, and must be given where
-- the run is leased.
abbrev claim_refused : Option LeaseClaim → TaskRun → Bool
claim_refused none run = is_leased run.status
claim_refused (some claim) run = not (str_eq claim.run_id run.id && holds claim run)

abbrev mutate_where : Option LeaseClaim → Option (List TaskRunStatus) → TaskRun → ℕ → TaskRun → Bool
mutate_where none expected run now row = row.version == run.version && expected_row expected row
mutate_where (some claim) expected run now row =
    if is_leased run.status
    then fence claim run now row
    else row.version == run.version && expected_row expected row

unfoldable pub mutate_guard :
    Option LeaseClaim → Option (List TaskRunStatus) → TaskRun → Option (Outcome Unit)
mutate_guard claim expected run =
    if not (expects expected run.status)
    then some (raised run_state_conflict)
    else if claim_refused claim run
    then some (raised lease_lost)
    else if is_terminal run.status
    then some (raised run_state_conflict)
    else none

abbrev pub mutate_update :
    Option LeaseClaim → RunUpdates → Option (List TaskRunStatus) → Option Event → TaskRun → Update
mutate_update claim updates expected event run = record {
  where_clause = mutate_where claim expected run;
  assign = λ now row. mutate_patch updates event run row;
}

unfoldable pub mutate :
    Option LeaseClaim
    → RunUpdates
    → Option (List TaskRunStatus)
    → Option Event
    → TaskRun
    → Attempt Unit
mutate claim updates expected event run =
    try_write (mutate_guard claim expected run) (mutate_update claim updates expected event run) tt

abbrev no_updates : RunUpdates
no_updates = record {
  status = none;
  outputs = none;
  error_code = none;
  error = none;
  started_at = none;
  completed_at = none;
}

abbrev pub emit_event : Option LeaseClaim → Event → TaskRun → Attempt Unit
emit_event claim event = mutate claim no_updates none (some event)

-- `_require_step_write`: why a write that changed no row is not tried again.
unfoldable pub require_step_write : LeaseClaim → ℕ → TaskRun → Option Failure
require_step_write claim now run =
    if holds_lease claim run && lease_is_live now run then none else some lease_lost
