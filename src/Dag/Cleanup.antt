-- ===== src/Dag/Cleanup.antt =====
-- What the `finally` clause of `run_dag` leaves behind.
use cognitrix.Prelude.{
  ℕ, ◌≡◌, refl, Bool, true, false, Option, none, some, List, [], ◌∷◌, map, arith, Bool-cases,
  Option-cases, inl, inr, Result, ok, err, ◌==◌, ◌⊎◌, ◌&&◌, not,
}
use cognitrix.Dag.Sequential.{Sequential, begin, IsRun, moved-IsRun}
use cognitrix.Dag.Advance.{remove-others}
use cognitrix.Dag.Refinement.{run_dag-cases}
use cognitrix.Dag.Graph.{elem, has_duplicate, Node, deps_of, ids_of, subset, validated_nodes}
use cognitrix.Dag.{
  DagNodeState, NodeOutcome, returned, raised, interrupted, Tick, Dag, DagError, is_idle,
  continue_with, turn, run_loop, run_dag, cleaned, clean_all, cleanup_active, is_empty, recorded,
  popped, done, initial,
}

module _ {R : Type 0} where
  -- A loop that has returned has nothing left to run.
  abbrev IdleIfOk : Option (Result DagError (Unit {0})) × Dag R → Type 0
  IdleIfOk (some (ok u), d) = is_idle d ≡ true
  IdleIfOk (some (err e), d) = Unit
  IdleIfOk (none, d) = Unit

  continue_with-IdleIfOk :
      (rest : Dag R → Option (Result DagError (Unit {0})) × Dag R)
      (r : Result DagError (Unit {0}) × Dag R)
      → ((d : Dag R) → IdleIfOk (rest d))
      → IdleIfOk (continue_with rest r)
  continue_with-IdleIfOk rest (ok u, d) g = g d
  continue_with-IdleIfOk rest (err e, d) g = tt

  run_loop-IdleIfOk :
      (limit : ℕ) (deps : ℕ → List ℕ) (ticks : List (Tick R)) (d : Dag R)
      → IdleIfOk (run_loop limit deps ticks d)
  unfolding run_loop
  run_loop-IdleIfOk limit deps [] d = elim (Bool-cases (is_idle d)) [
    | inl e ↦ rw e e
    | inr e ↦ rw e tt
  ]
  run_loop-IdleIfOk limit deps (tick ∷ later) d = elim (Bool-cases (is_idle d)) [
    | inl e ↦ rw (run_loop, e) e
    | inr e ↦
        rw (run_loop, e)
          (continue_with-IdleIfOk (λ d'. run_loop limit deps later d') (turn limit deps tick d)
            (λ d'. run_loop-IdleIfOk limit deps later d'))
  ]

  run_dag-IdleIfOk :
      (nodes : List Node) (max_parallel : ℕ) (completed : List (ℕ × R)) (ticks : List (Tick R))
      → IdleIfOk (run_dag nodes max_parallel completed ticks)
  unfolding run_dag
  run_dag-IdleIfOk nodes max_parallel completed ticks = elim (Bool-cases (max_parallel == 0)) [
    | inl z ↦ rw z tt
    | inr z ↦ elim (Option-cases (validated_nodes nodes)) [
      | inr (invalid, v) ↦ rw (z, v) tt
      | inl v ↦ elim (Bool-cases (subset (map (λ entry. entry.0) completed) (ids_of nodes))) [
        | inl c ↦ rw (z, v, c) (run_loop-IdleIfOk max_parallel (deps_of nodes) ticks _)
        | inr c ↦ rw (z, v, c) tt
      ]
    ]
  ]

  NodeOutcome-cases :
      (ended : NodeOutcome R)
      → ((r : R) × (ended ≡ returned r))
        ⊎ ((persisted : ℕ → DagNodeState → Bool) (id : ℕ) (results : List (ℕ × R))
            → cleaned persisted id ended results ≡ results)
  NodeOutcome-cases (returned r) = inl (r, refl)
  NodeOutcome-cases raised = inr (λ persisted id results. refl)
  NodeOutcome-cases interrupted = inr (λ persisted id results. refl)

  module _ (outcome : ℕ → NodeOutcome R) (persisted : ℕ → DagNodeState → Bool) where
    idle_same :
        (gather_cancelled has_persist : Bool) (r : Option (Result DagError (Unit {0})) × Dag R)
        → IdleIfOk r
        → r.0 ≡ some (ok tt)
        → (cleanup_active gather_cancelled has_persist outcome persisted r.1).results ≡ r.1.results
    unfolding cleanup_active
    idle_same gather_cancelled has_persist (none, d) h e = ground arith
    idle_same gather_cancelled has_persist (some (err x), d) h e = ground arith
    idle_same gather_cancelled has_persist (some (ok u), d) h e = ground arith

    -- If `run_dag` returns, its clean-up adds no result: what it returns is what its rounds found.
    pub run_dag_return :
        (nodes : List Node) (max_parallel : ℕ) (completed : List (ℕ × R)) (ticks : List (Tick R))
        (gather_cancelled has_persist : Bool)
        → (run_dag nodes max_parallel completed ticks).0 ≡ some (ok tt)
        → (cleanup_active gather_cancelled has_persist outcome persisted
            (run_dag nodes max_parallel completed ticks).1).results
          ≡ (run_dag nodes max_parallel completed ticks).1.results
    run_dag_return nodes max_parallel completed ticks gather_cancelled has_persist ends =
        idle_same gather_cancelled has_persist (run_dag nodes max_parallel completed ticks)
          (run_dag-IdleIfOk nodes max_parallel completed ticks) ends

    module _ (ids : List ℕ) (deps : ℕ → List ℕ) (given : List (ℕ × R)) where
      -- The results that the clean-up takes from active nodes are further steps of the abstract run.
      clean_all-Sequential :
          (list : List ℕ) (d : Dag R)
          → has_duplicate list ≡ false
          → ((y : ℕ) → elem y list ≡ true → elem y d.active ≡ true)
          → IsRun ids deps given d
          → Sequential ids deps given (clean_all outcome persisted list d.results)
      clean_all-Sequential [] d once active h = h.run
      clean_all-Sequential (id ∷ rest) d once active h =
          let same =
            clean_all-Sequential rest d (ground arith) (λ y m. active y (ground arith)) h in
          elim (NodeOutcome-cases (outcome id)) [
            | inr dropped ↦ rw (dropped persisted id d.results) same
            | inl (r, o) ↦ elim (Bool-cases (persisted id done)) [
              | inr p ↦ rw (o, p) same
              | inl p ↦
                  rw (o, p)
                    (clean_all-Sequential rest (recorded id r (popped id d)) (ground arith)
                      (λ y m.
                        let old = active y (ground arith) in
                        remove-others id y rest d.active once m old)
                      (moved-IsRun ids deps given id r d (active id (ground arith)) h))
            ]
          ]

      cleaned-Sequential :
          (gather_cancelled has_persist : Bool) (d : Dag R)
          → IsRun ids deps given d
          → Sequential ids deps given
              (cleanup_active gather_cancelled has_persist outcome persisted d).results
      unfolding cleanup_active
      cleaned-Sequential gather_cancelled has_persist d h =
          elim (Bool-cases (gather_cancelled && not (is_empty d.active))) [
            | inl c ↦ rw c h.run
            | inr c ↦ elim (Bool-cases has_persist) [
              | inl p ↦ rw (c, p) (clean_all-Sequential d.active d h.active_once (λ y m. m) h)
              | inr p ↦ rw (c, p) h.run
            ]
          ]

      refused_same :
          (gather_cancelled has_persist : Bool) (pending : List ℕ)
          → Sequential ids deps given
              (cleanup_active gather_cancelled has_persist outcome persisted
                (record { pending = pending; active = []; results = given })).results
      unfolding cleanup_active
      refused_same true true pending = begin
      refused_same true false pending = begin
      refused_same false true pending = begin
      refused_same false false pending = begin

    -- However the rounds of `run_dag` end, and whichever of the nodes that are then still active
    -- come to a result before their cancellation, and even if the clean-up is itself cancelled, the
    -- results after it are those of an abstract run from the given ones: one node after another, none
    -- twice, each after the nodes it depends on.
    pub run_dag_cleanup :
        (nodes : List Node) (max_parallel : ℕ) (completed : List (ℕ × R)) (ticks : List (Tick R))
        (gather_cancelled has_persist : Bool)
        → Sequential
            (ids_of nodes)
            (deps_of nodes)
            completed
            (cleanup_active gather_cancelled has_persist outcome persisted
              (run_dag nodes max_parallel completed ticks).1).results
    unfolding cleanup_active initial
    run_dag_cleanup nodes max_parallel completed ticks gather_cancelled has_persist =
        elim (run_dag-cases nodes max_parallel completed ticks) [
          | inl h ↦
              cleaned-Sequential (ids_of nodes) (deps_of nodes) completed gather_cancelled
                has_persist _ h
          | inr e ↦ rw e (
              refused_same (ids_of nodes) (deps_of nodes) completed gather_cancelled has_persist
                (initial nodes completed).pending)
        ]
