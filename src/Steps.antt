-- ===== src/Steps.antt =====
-- cognitrix/tasks/step.py and cognitrix/tasks/repository.py: the durable row of one step of a run,
-- and its two writers, `transition_step` and `backfill_step_runtime`. Both send one `UPDATE` on the
-- step's row, whose `WHERE` clause names the status that was read and asks the run's row, in the same
-- statement, whether the worker's claim still holds a live lease.
pub mod Path
pub mod Fence
mod Tests
use text.Mathlib.Text.{◌==◌ as str_eq}
use cognitrix.Prelude.{
  ℕ, ◌+◌, String, Bool, true, false, not, ◌&&◌, ◌||◌, Option, none, some, List, [], ◌∷◌,
  if◌then◌else◌,
}
use cognitrix.Runs.{
  TaskRun, LeaseClaim, Failure, lease_lost, run_state_conflict, value_error, is_leased, holds,
  lease_is_live,
}
use cognitrix.Runs.Lease.{require_step_write, holds_lease}

pub data TaskRunStepStatus : Type 0 where
  pending running done failed skipped cancelled : TaskRunStepStatus

abbrev pub same_step_status : TaskRunStepStatus → TaskRunStepStatus → Bool
same_step_status pending pending = true
same_step_status running running = true
same_step_status done done = true
same_step_status failed failed = true
same_step_status skipped skipped = true
same_step_status cancelled cancelled = true
same_step_status _ _ = false

-- `_STEP_STATUS_TRANSITIONS`
abbrev pub step_transitions : TaskRunStepStatus → List TaskRunStepStatus
step_transitions pending = running ∷ skipped ∷ cancelled ∷ []
step_transitions running = done ∷ failed ∷ cancelled ∷ []
step_transitions _ = []

abbrev pub listed : TaskRunStepStatus → List TaskRunStepStatus → Bool
listed s [] = false
listed s (t ∷ rest) = same_step_status s t || listed s rest

-- `_require_legal_step_transition`
unfoldable pub is_legal : TaskRunStepStatus → TaskRunStepStatus → Bool
is_legal current target =
    same_step_status target current || listed target (step_transitions current)

-- The columns of `_STEP_MUTABLE_FIELDS` but for the status, and the two that `backfill` fills in.
pub record StepFields : Type 0 where
  pub attempts : ℕ
  pub result : Option String
  pub gate : Option String
  pub error : Option String
  pub started_at : Option String
  pub completed_at : Option String

pub record TaskRunStep : Type 0 where
  pub status : TaskRunStepStatus
  pub fields : StepFields
  pub agent_name : String
  pub runtime_snapshot : Option String

-- `_step_update_patch`: what the patch does to the fields, and the status where it names one.
pub record StepPatch : Type 0 where
  pub status : Option TaskRunStepStatus
  pub fields : StepFields → StepFields
  pub is_empty : Bool

-- What a step writer finds: the claim is refused by `_require_step_write`, another error, an answer
-- without a write, or a write for `_fenced_step_update` to send.
pub data StepAttempt : Type 0 where
  refused : Failure → StepAttempt
  settled : StepAttempt
  update : (TaskRunStep → Bool) → (TaskRunStep → TaskRunStep) → StepAttempt

abbrev pub target_of : StepPatch → TaskRunStepStatus → TaskRunStepStatus
target_of patch current = elim patch.status [ none ↦ current | some status ↦ status ]

abbrev expects_step : Option (List TaskRunStepStatus) → TaskRunStepStatus → Bool
expects_step none status = true
expects_step (some statuses) status = listed status statuses

abbrev pub transition_row : Option (List TaskRunStepStatus) → StepPatch → TaskRunStep → StepAttempt
transition_row expected patch row =
    if not (expects_step expected row.status)
      || not (is_legal row.status (target_of patch row.status))
    then refused run_state_conflict
    else if patch.is_empty
    then settled
    else update (λ now. same_step_status now.status row.status)
        (λ now. record now {
          status = target_of patch now.status;
          fields = patch.fields now.fields;
        })

abbrev pub when_held : Option Failure → StepAttempt → StepAttempt
when_held none attempt = attempt
when_held (some e) attempt = refused e

-- One turn of `transition_step`, from the rows of the run and the step that were read.
unfoldable pub transition_step :
    LeaseClaim
    → Option (List TaskRunStepStatus)
    → StepPatch
    → ℕ
    → TaskRun
    → TaskRunStep
    → StepAttempt
transition_step claim expected patch now run row =
    when_held (require_step_write claim now run) (transition_row expected patch row)

abbrev pub backfill_row : String → String → (Option String → Bool) → TaskRunStep → StepAttempt
backfill_row name snapshot same row = elim row.runtime_snapshot [
  | some stored ↦
      if str_eq row.agent_name name && same (some stored)
      then settled
      else refused run_state_conflict
  | none ↦
      update (λ now. same_step_status now.status row.status && is_missing now.runtime_snapshot)
        (λ now. record now { agent_name = name; runtime_snapshot = some snapshot })
]
  where
    is_missing : Option String → Bool
    is_missing none = true
    is_missing (some stored) = false

abbrev pub same_snapshot : String → Option String → Bool
same_snapshot snapshot none = false
same_snapshot snapshot (some stored) = str_eq stored snapshot

-- One turn of `backfill_step_runtime`; `name` is the stripped name, `own` the snapshot's.
unfoldable pub backfill_step_runtime :
    LeaseClaim → String → String → String → ℕ → TaskRun → TaskRunStep → StepAttempt
backfill_step_runtime claim name own snapshot now run row =
    if str_eq name "" || not (str_eq name own)
    then refused value_error
    else when_held (require_step_write claim now run)
        (backfill_row name snapshot (same_snapshot snapshot) row)

-- The part of `_fenced_step_update`'s `WHERE` clause that reads the run's row.
abbrev pub run_fence : LeaseClaim → ℕ → TaskRun → Bool
run_fence claim now run =
    str_eq claim.run_id run.id && is_leased run.status && holds claim run && lease_is_live now run

-- `_fenced_step_update`: both rows as they are at the statement's instant.
unfoldable pub fenced_step_update :
    LeaseClaim → ℕ → TaskRun → StepAttempt → TaskRunStep → TaskRunStep
fenced_step_update claim now run (refused e) row = row
fenced_step_update claim now run settled row = row
fenced_step_update claim now run (update where_clause assign) row =
    if where_clause row && run_fence claim now run then assign row else row
