-- ===== src/Runs.antt =====
-- cognitrix/tasks/run.py and cognitrix/tasks/repository.py: the durable row of one task run, and
-- how the repository writes to it. Every write is one `UPDATE … WHERE` on the row: the children
-- model its methods, as what they decide from the row that they read, and prove what holds of the
-- row's history whatever the order of reads and writes.
-- Instants are seconds, as the stored timestamps are; `none` is a missing or unreadable one. The
-- store is relational (SQLite, PostgreSQL or MySQL): the repository refuses others at enqueue.
pub mod Cas
pub mod Lease
pub mod Terminal
pub mod Outbox
pub mod History
pub mod Linear
pub mod Change
pub mod EventChange
pub mod Lifecycle
pub mod Ending
pub mod Fencing
pub mod Events
pub mod Liveness
pub mod Tests
use text.Mathlib.Text.{◌==◌ as str_eq}
use cognitrix.Prelude.{
  ℕ, ◌+◌, ◌≤◌, String, Bool, true, false, not, ◌&&◌, ◌||◌, Option, none, some, List, [], ◌∷◌, ltb,
  leb, ◌==◌, if◌then◌else◌,
}

-- cognitrix/tasks/run.py
pub data TaskRunStatus : Type 0 where
  queued running completed failed cancelled cancelling : TaskRunStatus

pub TaskRunStatus-discrete : Discrete TaskRunStatus
TaskRunStatus-discrete = hlevel

abbrev pub same_status : TaskRunStatus → TaskRunStatus → Bool
same_status queued queued = true
same_status running running = true
same_status completed completed = true
same_status failed failed = true
same_status cancelled cancelled = true
same_status cancelling cancelling = true
same_status _ _ = false

-- `_LEASED_STATUSES`, `_TERMINAL_STATUSES`, `_ACTIVE_STATUSES`
abbrev pub is_leased : TaskRunStatus → Bool
is_leased running = true
is_leased cancelling = true
is_leased _ = false

abbrev pub is_terminal : TaskRunStatus → Bool
is_terminal completed = true
is_terminal failed = true
is_terminal cancelled = true
is_terminal _ = false

abbrev pub is_active : TaskRunStatus → Bool
is_active queued = true
is_active running = true
is_active cancelling = true
is_active _ = false

pub data NotificationState : Type 0 where
  pending delivering delivered skipped failed : NotificationState

-- What an event says: the status events of the repository, or a worker's own text.
pub data EventData : Type 0 where
  status_data : TaskRunStatus → Option String → EventData
  worker_data : String → EventData

pub record Event : Type 0 where
  pub kind : String
  pub payload : EventData

-- `_event_envelope`
pub record Envelope : Type 0 where
  pub sequence : ℕ
  pub event : Event

-- The columns that a worker fills in and no test reads.
pub record Outputs : Type 0 where
  pub plan : String
  pub result : Option String
  pub result_data : Option String
  pub usage : String

pub record TaskRun : Type 0 where
  pub id : String
  pub status : TaskRunStatus
  pub outputs : Outputs
  pub error_code : Option String
  pub error : Option String
  pub queue_job_id : Option String
  pub queued_at : Option ℕ
  pub started_at : Option ℕ
  pub completed_at : Option ℕ
  pub lease_owner : Option String
  pub lease_generation : ℕ
  pub heartbeat_at : Option ℕ
  pub lease_expires_at : Option ℕ
  pub cancel_requested_at : Option ℕ
  pub version : ℕ
  pub next_event_sequence : ℕ
  pub event_outbox : List Envelope
  pub has_callback : Bool
  pub notification_state : Option NotificationState
  pub notification_owner : Option String
  pub notification_expires_at : Option ℕ
  pub notification_next_at : Option ℕ
  pub notification_attempts : ℕ
  pub notified_at : Option ℕ

-- The token by which a worker proves that it holds the run.
pub record LeaseClaim : Type 0 where
  pub run_id : String
  pub owner : String
  pub generation : ℕ

pub data Failure : Type 0 where
  lease_lost run_state_conflict value_error : Failure

-- `_lease_is_live` and `_lease_expiry_predicate`: NULL compares as false.
abbrev pub later_than : Option ℕ → ℕ → Bool
later_than none now = false
later_than (some expires) now = ltb now expires

abbrev pub lease_is_live : ℕ → TaskRun → Bool
lease_is_live now run = later_than run.lease_expires_at now

-- `claim.owner == run.lease_owner`, where the column may be NULL.
unfoldable pub owned_by : String → Option String → Bool
owned_by owner none = false
owned_by owner (some stored) = str_eq owner stored

abbrev pub holds : LeaseClaim → TaskRun → Bool
holds claim run = owned_by claim.owner run.lease_owner && claim.generation == run.lease_generation

abbrev pub or_else {ℓ} : {A : Type ℓ} → Option A → A → A
or_else none a = a
or_else (some b) a = b

-- `x or y` on a column, and `COALESCE(x, y)`.
abbrev pub keep_or {ℓ} : {A : Type ℓ} → Option A → A → Option A
keep_or none a = some a
keep_or (some b) a = some b

-- `_terminal_notification_state`
abbrev pub terminal_notification_state : TaskRun → NotificationState
terminal_notification_state run = if run.has_callback then pending else skipped

-- `_force_cancel_ready`
abbrev grace_over : Option ℕ → ℕ → ℕ → Bool
grace_over none grace now = false
grace_over (some requested) grace now = leb (requested + grace) now

unfoldable pub force_cancel_ready : ℕ → ℕ → TaskRun → Bool
force_cancel_ready now grace run =
    not (lease_is_live now run) || grace_over run.cancel_requested_at grace now

-- The row after an event was appended to its outbox, at the sequence number that follows.
abbrev pub envelope_after : TaskRun → Event → Envelope
envelope_after run event = record { sequence = run.next_event_sequence + 1; event = event }
