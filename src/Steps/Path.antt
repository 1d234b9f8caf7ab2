-- ===== src/Steps/Path.antt =====
-- The statuses that a step passes through, under any interleaving of its writers.
use text.Mathlib.Text.{◌==◌ as str_eq}
use cognitrix.Prelude.{
  ℕ, ◌≡◌, inl, inr, String, Bool, true, false, Option, none, some, List, [], ◌∷◌, arith, Bool-cases,
  not, ◌||◌,
}
use cognitrix.Runs.{TaskRun, LeaseClaim, Failure}
use cognitrix.Runs.Lease.{require_step_write}
use cognitrix.Steps.{
  TaskRunStepStatus, pending, running, skipped, TaskRunStep, StepPatch, StepAttempt,
  transition_step, backfill_step_runtime, fenced_step_update, is_legal, same_step_status, refused,
  settled, update, when_held, transition_row, backfill_row, run_fence, same_snapshot,
}

-- A method of the step's row, with its arguments and what it read: the run and the step may both be
-- any earlier rows, or of another run.
pub data StepOp : Type 0 where
  transition :
      LeaseClaim → Option (List TaskRunStepStatus) → StepPatch → ℕ → TaskRun → TaskRunStep → StepOp
  backfill : LeaseClaim → String → String → String → ℕ → TaskRun → TaskRunStep → StepOp

abbrev pub claim_of : StepOp → LeaseClaim
claim_of (transition c expected patch clock run step) = c
claim_of (backfill c name own snapshot clock run step) = c

-- The step's row after the method's write, at the instant `now` and with the run's row as it is then.
unfoldable pub write_step : StepOp → ℕ → TaskRun → TaskRunStep → TaskRunStep
write_step (transition c expected patch clock seen step) now run =
    fenced_step_update c now run (transition_step c expected patch clock seen step)
write_step (backfill c name own snapshot clock seen step) now run =
    fenced_step_update c now run (backfill_step_runtime c name own snapshot clock seen step)

-- Writes in their order, each with its instant and the run's row at that instant.
pub record StepWrite : Type 0 where
  pub op : StepOp
  pub now : ℕ
  pub run : TaskRun

unfoldable pub write_all : List StepWrite → TaskRunStep → TaskRunStep
write_all [] row = row
write_all (w ∷ rest) row = write_all rest (write_step w.op w.now w.run row)

-- The life of a step: it waits, may run, and ends for good; a step that has run is not skipped.
abbrev pub may_become : TaskRunStepStatus → TaskRunStepStatus → Bool
may_become pending t = true
may_become running pending = false
may_become running skipped = false
may_become running t = true
may_become s t = same_step_status s t

may_become_refl : (s : TaskRunStepStatus) → may_become s s ≡ true
may_become_refl s = ground arith

may_become_trans :
    (a b c : TaskRunStepStatus)
    → may_become a b ≡ true
    → may_become b c ≡ true
    → may_become a c ≡ true
may_become_trans a b c p q = ground arith

-- What a write does to the row that it finds.
abbrev Moves : TaskRunStep → TaskRunStep → Type 0
Moves row row' =
    (may_become row.status row'.status ≡ true)
    × ((snapshot : String)
        → row.runtime_snapshot ≡ some snapshot
        → row'.runtime_snapshot ≡ some snapshot)

abbrev Allowed : StepAttempt → Type 0
Allowed (refused e) = Unit
Allowed settled = Unit
Allowed (update where_clause assign) =
    (row : TaskRunStep) → where_clause row ≡ true → Moves row (assign row)

when_held-Allowed :
    (held : Option Failure) (attempt : StepAttempt)
    → Allowed attempt
    → Allowed (when_held held attempt)
when_held-Allowed none attempt h = h
when_held-Allowed (some e) attempt h = tt

transition-Allowed :
    (expected : Option (List TaskRunStepStatus)) (patch : StepPatch) (seen : TaskRunStep)
    → Allowed (transition_row expected patch seen)
unfolding is_legal
transition-Allowed expected patch seen = ground arith

backfill-Allowed :
    (name snapshot : String) (same : Option String → Bool) (seen : TaskRunStep)
    → Allowed (backfill_row name snapshot same seen)
backfill-Allowed name snapshot same seen = ground arith

fenced-Moves :
    (c : LeaseClaim) (now : ℕ) (run : TaskRun) (attempt : StepAttempt) (row : TaskRunStep)
    → Allowed attempt
    → Moves row (fenced_step_update c now run attempt row)
unfolding fenced_step_update
fenced-Moves c now run (refused e) row h = (may_become_refl row.status, λ snapshot e. e)
fenced-Moves c now run settled row h = (may_become_refl row.status, λ snapshot e. e)
fenced-Moves c now run (update where_clause assign) row h = elim (Bool-cases (where_clause row)) [
  | inl w ↦ elim (Bool-cases (run_fence c now run)) [
    | inl f ↦ rw (w, f) (h row w)
    | inr f ↦ rw (w, f) (may_become_refl row.status, λ snapshot e. e)
  ]
  | inr w ↦ rw w (may_become_refl row.status, λ snapshot e. e)
]

backfill_all :
    (c : LeaseClaim) (name own snapshot : String) (clock : ℕ) (seen : TaskRun) (step : TaskRunStep)
    → Allowed (backfill_step_runtime c name own snapshot clock seen step)
unfolding backfill_step_runtime
backfill_all c name own snapshot clock seen step =
    elim (Bool-cases (str_eq name "" || not (str_eq name own))) [
      | inl e ↦ rw (e, backfill_step_runtime) tt
      | inr e ↦
          rw (e, backfill_step_runtime)
            (when_held-Allowed (require_step_write c clock seen) _
              (backfill-Allowed name snapshot (same_snapshot snapshot) step))
    ]

write_step-Moves :
    (op : StepOp) (now : ℕ) (run : TaskRun) (row : TaskRunStep)
    → Moves row (write_step op now run row)
unfolding write_step transition_step backfill_step_runtime
write_step-Moves (transition c expected patch clock seen step) now run row =
    fenced-Moves c now run _ row (
      when_held-Allowed (require_step_write c clock seen) _
        (transition-Allowed expected patch step))
write_step-Moves (backfill c name own snapshot clock seen step) now run row =
    fenced-Moves c now run (backfill_step_runtime c name own snapshot clock seen step) row
      (backfill_all c name own snapshot clock seen step)

write_all-Moves : (writes : List StepWrite) (row : TaskRunStep) → Moves row (write_all writes row)
unfolding write_all
write_all-Moves [] row = (may_become_refl row.status, λ snapshot e. e)
write_all-Moves (w ∷ rest) row =
    let (s, t) = write_step-Moves w.op w.now w.run row in
    let (s', t') = write_all-Moves rest (write_step w.op w.now w.run row) in
    (may_become_trans row.status _ _ s s', λ snapshot e. t' snapshot (t snapshot e))

-- Whatever is written to a step, in whatever order and from however stale a reading, it only moves
-- forward: a step that has ended keeps its status, and one that has run is not set back or skipped.
pub write_all-may_become :
    (writes : List StepWrite) (row : TaskRunStep)
    → may_become row.status (write_all writes row).status ≡ true
write_all-may_become writes row = (write_all-Moves writes row).0

-- The agent runtime of a step is written at most once: a snapshot that is there stays as it is under
-- all later writes of either kind.
pub write_all-runtime_snapshot :
    (writes : List StepWrite) (row : TaskRunStep) (snapshot : String)
    → row.runtime_snapshot ≡ some snapshot
    → (write_all writes row).runtime_snapshot ≡ some snapshot
write_all-runtime_snapshot writes row = (write_all-Moves writes row).1
