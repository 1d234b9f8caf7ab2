-- ===== src/Dag/Refinement.antt =====
-- Whatever happens to a run, `run_dag` does what the abstract run of Dag/Sequential does
-- (cognitrix/tasks/dag.py).
use cognitrix.Prelude.{
  ℕ, ◌-◌, ◌≡◌, ◌⊎◌, refl, Bool, true, false, Option, none, some, List, [], ◌∷◌, map, arith, ◌==◌,
  Bool-cases, Option-cases, length, inl, inr, Result, ok, err, Exec, raise_if, and_then, ◌>>◌,
}
use cognitrix.Dag.Graph.{subset, take, Node, ids_of, deps_of, validated_nodes, first_pass}
use cognitrix.Dag.Sets.{all_ready-take}
use cognitrix.Dag.Order.{first_pass-distinct, or_invalid-none}
use cognitrix.Dag.Schedule.{filter_ready-all}
use cognitrix.Dag.Waiting.{filter_ready-inside, take-inside}
use cognitrix.Dag.Termination.{unfinished-open}
use cognitrix.Dag.Sequential.{Sequential, begin, IsRun}
use cognitrix.Dag.{
  wait_then, Tick, Dag, DagError, completed_ids, finish_all, filter_ready, launch, progress, settle,
  turn, run_loop, run_dag, initial, is_idle, is_empty, continue_with, execution_cancelled,
  validation_error, fail_if,
}
use cognitrix.Dag.Advance.{
  take-distinct, filter_ready-distinct, unfinished-distinct, start_all-IsRun, finish_all-IsRun,
}

module _ {R : Type 0} where
  -- What each part keeps, the whole keeps.
  after-keeps :
      {A B : Type 0} (P : Dag R → Type 0) (r : Result DagError A × Dag R)
      (f : A → Exec DagError (Dag R) B)
      → P r.1
      → ((a : A) (e : Dag R) → P e → P (f a e).1)
      → P (and_then r.0 f r.1).1
  after-keeps P (ok a, e) f h g = g a e h
  after-keeps P (err x, e) f h g = h

  raise_if-keeps :
      (P : Dag R → Type 0) (test : Bool) (x : DagError) (d : Dag R) → P d → P (raise_if test x d).1
  raise_if-keeps P true x d h = h
  raise_if-keeps P false x d h = h

  wait_then-keeps :
      (P : Dag R → Type 0) (stopped : Bool) (m : Exec DagError (Dag R) Unit) (d : Dag R)
      → P d
      → P (m d).1
      → P (wait_then stopped m d).1
  wait_then-keeps P true m d h k = h
  wait_then-keeps P false m d h k = k

  fail_if-keeps :
      (P : Dag R → Type 0) (failure : Option ℕ) (d : Dag R) → P d → P (fail_if failure d).1
  fail_if-keeps P none d h = h
  fail_if-keeps P (some id) d h = h

  continue_with-keeps :
      (P : Dag R → Type 0) (rest : Dag R → Option (Result DagError (Unit {0})) × Dag R)
      (r : Result DagError (Unit {0}) × Dag R)
      → ((e : Dag R) → P e → P (rest e).1)
      → P r.1
      → P (continue_with rest r).1
  continue_with-keeps P rest (ok u, e) g h = g e h
  continue_with-keeps P rest (err x, e) g h = h

module _ {R : Type 0} (ids : List ℕ) (deps : ℕ → List ℕ) (given : List (ℕ × R)) where
  launch-IsRun :
      (limit : ℕ) (tick : Tick R) (d : Dag R)
      → IsRun ids deps given d
      → IsRun ids deps given (launch limit deps tick d).1
  unfolding launch
  launch-IsRun limit tick d h =
      let free = limit - length d.active in
      start_all-IsRun ids deps given tick
        (take (limit - length d.active) (filter_ready deps d d.pending)) d
        (take-distinct (limit - length d.active) (filter_ready deps d d.pending)
          (filter_ready-distinct deps d d.pending h.pending_once))
        (λ y m.
          filter_ready-inside deps d d.pending y
            (take-inside (limit - length d.active) (filter_ready deps d d.pending) y m))
        (all_ready-take deps (limit - length d.active) (filter_ready deps d d.pending)
          (completed_ids d) (filter_ready-all limit deps d d.pending))
        h

  settle-IsRun :
      (tick : Tick R) (d : Dag R) → IsRun ids deps given d → IsRun ids deps given (settle tick d).1
  unfolding settle
  settle-IsRun tick d h = wait_then-keeps (IsRun ids deps given) tick.caller_cancelled _ d h (
      after-keeps (IsRun ids deps given) (finish_all tick d.active none d)
        (λ failure. raise_if tick.cancel execution_cancelled >> fail_if failure)
        (finish_all-IsRun ids deps given tick d.active none d h.active_once (λ y m. m) h)
        (λ failure e s.
          after-keeps (IsRun ids deps given) (raise_if tick.cancel execution_cancelled e)
            (λ u. fail_if failure)
            (raise_if-keeps (IsRun ids deps given) tick.cancel execution_cancelled e s)
            (λ u x t. fail_if-keeps (IsRun ids deps given) failure x t)))

  turn-IsRun :
      (limit : ℕ) (tick : Tick R) (d : Dag R)
      → IsRun ids deps given d
      → IsRun ids deps given (turn limit deps tick d).1
  unfolding turn
  turn-IsRun limit tick d h =
      after-keeps (IsRun ids deps given) (raise_if tick.stop_before execution_cancelled d)
        (λ u. launch limit deps tick >> (progress >> settle tick))
        (raise_if-keeps (IsRun ids deps given) tick.stop_before execution_cancelled d h)
        (λ u e s.
          after-keeps (IsRun ids deps given) (launch limit deps tick e)
            (λ u'. progress >> settle tick) (launch-IsRun limit tick e s)
            (λ u' x t.
              after-keeps (IsRun ids deps given) (progress x) (λ u''. settle tick)
                (raise_if-keeps (IsRun ids deps given) (is_empty x.active) (validation_error none) x
                  t)
                (λ u'' z v. settle-IsRun tick z v)))

  run_loop-IsRun :
      (limit : ℕ) (ticks : List (Tick R)) (d : Dag R)
      → IsRun ids deps given d
      → IsRun ids deps given (run_loop limit deps ticks d).1
  unfolding run_loop
  run_loop-IsRun limit [] d h = h
  run_loop-IsRun limit (tick ∷ later) d h = elim (Bool-cases (is_idle d)) [
    | inl e ↦ rw (run_loop, e) h
    | inr e ↦
        rw (run_loop, e)
          (continue_with-keeps (IsRun ids deps given) (λ x. run_loop limit deps later x)
            (turn limit deps tick d) (λ x s. run_loop-IsRun limit later x s)
            (turn-IsRun limit tick d h))
  ]

-- What a run comes to: the rounds of an accepted graph, or the start where it was refused.
pub run_dag-cases :
    {R : Type 0} (nodes : List Node) (max_parallel : ℕ) (completed : List (ℕ × R))
    (ticks : List (Tick R))
    → let d = (run_dag nodes max_parallel completed ticks).1 in
      IsRun (ids_of nodes) (deps_of nodes) completed d ⊎ (d ≡ initial nodes completed)
unfolding run_dag validated_nodes initial
run_dag-cases nodes max_parallel completed ticks = elim (Bool-cases (max_parallel == 0)) [
  | inl z ↦ rw z (inr refl)
  | inr z ↦ elim (Option-cases (validated_nodes nodes)) [
    | inr (invalid, v) ↦ rw (z, v) (inr refl)
    | inl v ↦ elim (Bool-cases (subset (map (λ entry. entry.0) completed) (ids_of nodes))) [
      | inr c ↦ rw (z, v, c) (inr refl)
      | inl c ↦
          let (first, _) = or_invalid-none (first_pass [] nodes) _ v in
          rw (z, v, c)
            (inl (
              run_loop-IsRun (ids_of nodes) (deps_of nodes) completed max_parallel ticks
                (initial nodes completed)
                record {
                  run = begin;
                  ready = refl;
                  active_once = refl;
                  pending_once =
                      unfinished-distinct completed (ids_of nodes)
                        (first_pass-distinct [] nodes first).0;
                  waiting = λ x m.
                      let old = unfinished-open completed (ids_of nodes) x m in
                      (old.0, old.1, refl);
                  working = λ x m. absurd (ground arith);
                }))
    ]
  ]
]

-- Of any graph, after any number of rounds and whatever fails or is cancelled in them, `run_dag` has
-- the results of an abstract run from the given ones, in which one node after another gets its result,
-- none twice, each after the nodes it depends on.
pub run_dag_refines :
    {R : Type 0} (nodes : List Node) (max_parallel : ℕ) (completed : List (ℕ × R))
    (ticks : List (Tick R))
    → Sequential
        (ids_of nodes)
        (deps_of nodes)
        completed
        (run_dag nodes max_parallel completed ticks).1.results
unfolding initial
run_dag_refines nodes max_parallel completed ticks =
    elim (run_dag-cases nodes max_parallel completed ticks) [ inl h ↦ h.run | inr e ↦ rw e begin ]
