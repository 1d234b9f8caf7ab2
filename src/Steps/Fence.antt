-- ===== src/Steps/Fence.antt =====
-- The lease of a run over the rows of its steps.
use cognitrix.Prelude.{ℕ, ◌<◌, ◌≡◌, inl, inr, refl, false, arith, Bool-cases}
use cognitrix.Runs.{TaskRun, LeaseClaim}
use cognitrix.Runs.History.{History, Reach}
use cognitrix.Runs.Linear.{IsLinear}
use cognitrix.Runs.Lifecycle.{IsSane}
use cognitrix.Runs.Ending.{Reach-generation}
use cognitrix.Runs.Fencing.{not_held}
use cognitrix.Steps.{
  TaskRunStep, StepAttempt, refused, settled, update, fenced_step_update, run_fence,
}
use cognitrix.Steps.Path.{StepOp, transition, backfill, claim_of, write_step}

fenced-same :
    (c : LeaseClaim) (now : ℕ) (run : TaskRun) (attempt : StepAttempt) (row : TaskRunStep)
    → run_fence c now run ≡ false
    → fenced_step_update c now run attempt row ≡ row
unfolding fenced_step_update
fenced-same c now run (refused e) row f = refl
fenced-same c now run settled row f = refl
fenced-same c now run (update where_clause assign) row f = elim (Bool-cases (where_clause row)) [
  | inl w ↦ rw (w, f) refl
  | inr w ↦ rw w refl
]

write-same :
    (op : StepOp) (now : ℕ) (run : TaskRun) (row : TaskRunStep)
    → run_fence (claim_of op) now run ≡ false
    → write_step op now run row ≡ row
unfolding write_step
write-same (transition c expected patch clock seen step) now run row f =
    fenced-same c now run _ row f
write-same (backfill c name own snapshot clock seen step) now run row f =
    fenced-same c now run _ row f

-- In a history of the run whose versions tell its rows apart, and in which no caller of `mutate`
-- sends it back to the queue: a worker whose generation of the lease has passed cannot change a
-- step of the run, at any later time and whatever it has read.
pub fenced_step_worker :
    (h k : History) (op : StepOp) (now : ℕ) (row : TaskRunStep)
    → IsLinear h
    → (claim_of op).generation < h.row.lease_generation
    → Reach IsSane h k
    → write_step op now k.row row ≡ row
fenced_step_worker h k op now row l older r =
    let lost = not_held (claim_of op) k.row (omega (arith, Reach-generation l r)) in
    write-same op now k.row row (ground arith)
