-- ===== src/Runs/Ending.antt =====
-- How a run begins, ends and changes hands, over every history of its row.
use cognitrix.Prelude.{ℕ, ◌≤◌, ◌≡◌, ◌≢◌, inl, inr, sym, subst, ◌∙◌, true, arith, ap, String}
use cognitrix.Runs.{TaskRun, queued, is_terminal}
use cognitrix.Runs.Cas.{attempted}
use cognitrix.Runs.Lease.{claim, claim_guard, claim_update}
use cognitrix.Runs.History.{perform, claim_op, History, Reach, here, next}
use cognitrix.Runs.Linear.{IsLinear, Reach-IsLinear}
use cognitrix.Runs.Change.{Frozen, LifeChange}
use cognitrix.Runs.Lifecycle.{IsSane, Changes, Step-LifeChange}

Frozen-refl : (r : TaskRun) → Frozen r r
Frozen-refl r = ground arith

Frozen-trans : {a b c : TaskRun} → Frozen a b → Frozen b c → Frozen a c
Frozen-trans f g = record {
  status = g.status ∙ f.status;
  outputs = g.outputs ∙ f.outputs;
  error_code = g.error_code ∙ f.error_code;
  error = g.error ∙ f.error;
  completed_at = g.completed_at ∙ f.completed_at;
  lease_owner = g.lease_owner ∙ f.lease_owner;
  lease_generation = g.lease_generation ∙ f.lease_generation;
  next_event_sequence = g.next_event_sequence ∙ f.next_event_sequence;
}

Changes-Frozen :
    (r r' : TaskRun) → Changes LifeChange r r' → is_terminal r.status ≡ true → Frozen r r'
Changes-Frozen r r' (inl same) t = subst (Frozen r) (sym same) (Frozen-refl r)
Changes-Frozen r r' (inr change) t = change.ended t

-- In a history whose versions tell its rows apart, and in which no caller of `mutate` sends a run
-- back to the queue, a run that has ended stays as it ended, whatever is done later: its status,
-- outputs, error, lease owner and generation and number of events do not change again.
pub Reach-Frozen :
    {h k : History}
    → IsLinear h
    → is_terminal h.row.status ≡ true
    → Reach IsSane h k
    → Frozen h.row k.row
Reach-Frozen l t here = Frozen-refl _
Reach-Frozen l t (next {k} {m} r s) =
    let f = Reach-Frozen l t r in
    Frozen-trans f (
      Changes-Frozen k.row m.row (Step-LifeChange (Reach-IsLinear l r) s)
        (ap is_terminal f.status ∙ t))

Changes-unqueued :
    (r r' : TaskRun) → Changes LifeChange r r' → r.status ≢ queued → r'.status ≢ queued
Changes-unqueued r r' (inl same) q = λ e. q (ap (λ x. x.status) (sym same) ∙ e)
Changes-unqueued r r' (inr change) q = λ e. q (change.queue e)

Reach-unqueued :
    {h k : History} → IsLinear h → h.row.status ≢ queued → Reach IsSane h k → k.row.status ≢ queued
Reach-unqueued l q here = q
Reach-unqueued l q (next {k} {m} r s) =
    Changes-unqueued k.row m.row (Step-LifeChange (Reach-IsLinear l r) s) (Reach-unqueued l q r)

claim_needs_queue :
    (owner : String) (lease : ℕ) (observed : TaskRun) (now : ℕ) (row : TaskRun)
    → row.status ≢ queued
    → perform (claim_op owner lease) observed now row ≡ row
unfolding perform attempted claim claim_guard claim_update
claim_needs_queue owner lease observed now row q = ground arith

-- In a history whose versions tell its rows apart, and in which no caller of `mutate` sends a run
-- back to the queue, a run is claimed at most once: once it has left the queue, no claim of any
-- worker changes the row, whatever the worker has read.
pub claimed_once :
    (h k : History) (owner : String) (lease : ℕ) (observed : TaskRun) (now : ℕ)
    → IsLinear h
    → h.row.status ≢ queued
    → Reach IsSane h k
    → perform (claim_op owner lease) observed now k.row ≡ k.row
claimed_once h k owner lease observed now l q r =
    claim_needs_queue owner lease observed now k.row (Reach-unqueued l q r)

Changes-generation :
    (r r' : TaskRun) → Changes LifeChange r r' → r.lease_generation ≤ r'.lease_generation
Changes-generation r r' (inl same) = omega (arith, ap (λ x. x.lease_generation) same)
Changes-generation r r' (inr change) = ground (arith, change.lease)

-- In a history whose versions tell its rows apart, and in which no caller of `mutate` sends a run
-- back to the queue, the generation of the lease never falls.
pub Reach-generation :
    {h k : History}
    → IsLinear h
    → Reach IsSane h k
    → h.row.lease_generation ≤ k.row.lease_generation
Reach-generation l here = omega arith
Reach-generation l (next {k} {m} r s) = omega (
  arith,
  Reach-generation l r,
  Changes-generation k.row m.row (Step-LifeChange (Reach-IsLinear l r) s),
)
