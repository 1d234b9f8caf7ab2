-- ===== src/Dag/Complete.antt =====
-- When `run_dag` returns, every node of the graph has its result.
use cognitrix.Prelude.{
  ℕ, ◌≡◌, refl, Bool, true, false, ◌||◌, Option, none, some, List, [], ◌∷◌, map, arith, Bool-cases,
  Option-cases, inl, inr, Result, ok, err, Exec, ◌==◌, raise_if, and_then, ◌>>◌,
}
use cognitrix.Dag.Graph.{elem, subset, Node, deps_of, ids_of, validated_nodes}
use cognitrix.Dag.Sets.{elem-remove, elem-insert}
use cognitrix.Dag.{
  wait_then, running, done, failed, cancelled, NodeOutcome, returned, raised, interrupted, Tick,
  Dag, DagError, execution_cancelled, completed_ids, start_one, start_all, finish_one, finish_all,
  settle, launch, turn, run_loop, run_dag, initial, launched, popped, recorded, is_idle,
  continue_with, is_empty, validation_error, progress, first_failure, fail_if, unfinished,
}

module _ {R : Type 0} (ids : List ℕ) where
  -- No node is lost: it waits, runs or has its result.
  abbrev pub IsCovered : Dag R → Type 0
  IsCovered d =
      (id : ℕ)
      → elem id ids ≡ true
      → (elem id d.pending || elem id d.active || elem id (completed_ids d)) ≡ true

  -- What holds if a method returns.
  abbrev AfterOk : {A : Type 0} → (A → Dag R → Type 0) → Result DagError A × Dag R → Type 0
  AfterOk P (ok a, d) = P a d
  AfterOk P (err e, d) = Unit

  after-AfterOk :
      {A B : Type 0} (P : A → Dag R → Type 0) (Q : B → Dag R → Type 0)
      (r : Result DagError A × Dag R) (f : A → Exec DagError (Dag R) B)
      → AfterOk P r
      → ((a : A) (e : Dag R) → P a e → AfterOk Q (f a e))
      → AfterOk Q (and_then r.0 f r.1)
  after-AfterOk P Q (ok a, e) f h g = g a e h
  after-AfterOk P Q (err x, e) f h g = tt

  abbrev Always : Unit {0} → Dag R → Type 0
  Always u d = IsCovered d

  -- Coverage, unless a node has failed.
  abbrev Unless : Option ℕ → Dag R → Type 0
  Unless failure d = failure ≡ none → IsCovered d

  pub launched-IsCovered : (id : ℕ) (d : Dag R) → IsCovered d → IsCovered (launched id d)
  launched-IsCovered id d h x m =
      ground (arith, h x m, elem-remove x id d.pending, elem-insert x id d.active)

  pub moved-IsCovered :
      (id : ℕ) (r : R) (d : Dag R) → IsCovered d → IsCovered (recorded id r (popped id d))
  moved-IsCovered id r d h x m = ground (arith, h x m, elem-remove x id d.active)

  start_all-AfterOk :
      (tick : Tick R) (starts : List ℕ) (d : Dag R)
      → IsCovered d
      → AfterOk Always (start_all tick starts d)
  unfolding start_all start_one
  start_all-AfterOk tick [] d h = h
  start_all-AfterOk tick (id ∷ rest) d h = elim (Bool-cases (tick.persisted id running)) [
    | inl e ↦ rw e (start_all-AfterOk tick rest (launched id d) (launched-IsCovered id d h))
    | inr e ↦ rw e tt
  ]

  finish_one-AfterOk :
      (tick : Tick R) (id : ℕ) (outcome : Option (NodeOutcome R)) (failure : Option ℕ) (d : Dag R)
      → Unless failure d
      → AfterOk Unless (finish_one tick id outcome failure d)
  unfolding finish_one
  finish_one-AfterOk tick id none failure d h = h
  finish_one-AfterOk tick id (some (returned r)) failure d h =
      elim (Bool-cases (tick.persisted id done)) [
        | inl e ↦ rw e (λ n. moved-IsCovered id r d (h n))
        | inr e ↦ rw e tt
      ]
  finish_one-AfterOk tick id (some raised) failure d h =
      elim (Bool-cases (tick.persisted id failed)) [
        | inl e ↦ rw e (λ n. absurd (failed_is_some failure id n))
        | inr e ↦ rw e tt
      ]
    where
      failed_is_some : (failure : Option ℕ) (id : ℕ) → ¬ (first_failure failure id ≡ none)
      failed_is_some none id e = ground arith
      failed_is_some (some first) id e = ground arith
  finish_one-AfterOk tick id (some interrupted) failure d h =
      elim (Bool-cases (tick.persisted id cancelled)) [ inl e ↦ rw e tt | inr e ↦ rw e tt ]

  finish_all-AfterOk :
      (tick : Tick R) (active : List ℕ) (failure : Option ℕ) (d : Dag R)
      → Unless failure d
      → AfterOk Unless (finish_all tick active failure d)
  unfolding finish_all
  finish_all-AfterOk tick [] failure d h = h
  finish_all-AfterOk tick (id ∷ rest) failure d h =
      after-AfterOk Unless Unless (finish_one tick id (tick.outcome id) failure d) _
        (finish_one-AfterOk tick id (tick.outcome id) failure d h)
        (λ f e s. finish_all-AfterOk tick rest f e s)

  wait_then-AfterOk :
      (stopped : Bool) (m : Exec DagError (Dag R) Unit) (d : Dag R)
      → AfterOk Always (m d)
      → AfterOk Always (wait_then stopped m d)
  wait_then-AfterOk true m d k = tt
  wait_then-AfterOk false m d k = k

  settle-AfterOk : (tick : Tick R) (d : Dag R) → IsCovered d → AfterOk Always (settle tick d)
  unfolding settle
  settle-AfterOk tick d h = wait_then-AfterOk tick.caller_cancelled _ d (
      after-AfterOk Unless Always (finish_all tick d.active none d) _
        (finish_all-AfterOk tick d.active none d (λ n. h))
        (λ failure e s. end tick.cancel failure e s))
    where
      end :
          (cancel : Bool) (failure : Option ℕ) (e : Dag R)
          → Unless failure e
          → AfterOk Always ((raise_if cancel execution_cancelled >> fail_if failure) e)
      end true failure e s = tt
      end false none e s = s refl
      end false (some id) e s = tt

  raise_if-AfterOk :
      (test : Bool) (x : DagError) (d : Dag R) → IsCovered d → AfterOk Always (raise_if test x d)
  raise_if-AfterOk true x d h = tt
  raise_if-AfterOk false x d h = h

  turn-AfterOk :
      (limit : ℕ) (deps : ℕ → List ℕ) (tick : Tick R) (d : Dag R)
      → IsCovered d
      → AfterOk Always (turn limit deps tick d)
  unfolding turn launch
  turn-AfterOk limit deps tick d h =
      after-AfterOk Always Always (raise_if tick.stop_before execution_cancelled d)
        (λ u. launch limit deps tick >> (progress >> settle tick))
        (raise_if-AfterOk tick.stop_before execution_cancelled d h)
        (λ u e s.
          after-AfterOk Always Always (launch limit deps tick e) (λ u'. progress >> settle tick)
            (start_all-AfterOk tick _ e s)
            (λ u' e' s'.
              after-AfterOk Always Always (progress e') (λ u''. settle tick)
                (raise_if-AfterOk (is_empty e'.active) (validation_error none) e' s')
                (λ u'' e'' s''. settle-AfterOk tick e'' s'')))

  -- Nothing is left to do, so the results are those of all nodes.
  idle-IsCovered :
      (d : Dag R)
      → is_idle d ≡ true
      → IsCovered d
      → (id : ℕ) → elem id ids ≡ true
      → elem id (completed_ids d) ≡ true
  idle-IsCovered d idle h id m = ground (arith, h id m)

  -- The results are complete, if the loop has returned.
  abbrev IsComplete : Option (Result DagError (Unit {0})) × Dag R → Type 0
  IsComplete (none, d) = Unit
  IsComplete (some (err e), d) = Unit
  IsComplete (some (ok u), d) = (id : ℕ) → elem id ids ≡ true → elem id (completed_ids d) ≡ true

  continue_with-IsComplete :
      (rest : Dag R → Option (Result DagError (Unit {0})) × Dag R)
      (r : Result DagError (Unit {0}) × Dag R)
      → ((e : Dag R) → IsCovered e → IsComplete (rest e))
      → AfterOk Always r
      → IsComplete (continue_with rest r)
  continue_with-IsComplete rest (ok u, e) g s = g e s
  continue_with-IsComplete rest (err x, e) g s = tt

  run_loop-IsComplete :
      (limit : ℕ) (deps : ℕ → List ℕ) (ticks : List (Tick R)) (d : Dag R)
      → IsCovered d
      → IsComplete (run_loop limit deps ticks d)
  unfolding run_loop
  run_loop-IsComplete limit deps [] d h = elim (Bool-cases (is_idle d)) [
    | inl e ↦ rw e (idle-IsCovered d e h)
    | inr e ↦ rw e tt
  ]
  run_loop-IsComplete limit deps (tick ∷ later) d h = elim (Bool-cases (is_idle d)) [
    | inl e ↦ rw (run_loop, e) (idle-IsCovered d e h)
    | inr e ↦
        rw (run_loop, e)
          (continue_with-IsComplete (λ d'. run_loop limit deps later d') (turn limit deps tick d)
            (λ d' s. run_loop-IsComplete limit deps later d' s) (turn-AfterOk limit deps tick d h))
  ]

module _ {R : Type 0} where
  unfinished-covers :
      (completed : List (ℕ × R)) (nodes : List ℕ) (id : ℕ)
      → elem id nodes ≡ true
      → (elem id (unfinished completed nodes) || elem id (map (λ entry. entry.0) completed)) ≡ true
  unfinished-covers completed [] id m = ground arith
  unfinished-covers completed (x ∷ rest) id m =
      ground
        (arith, unfinished-covers completed rest id, elem-insert id x (unfinished completed rest))

  pub initial-IsCovered :
      (nodes : List Node) (completed : List (ℕ × R))
      → IsCovered (ids_of nodes) (initial nodes completed)
  unfolding initial
  initial-IsCovered nodes completed id m =
      ground (arith, unfinished-covers completed (ids_of nodes) id m)

  run_dag-IsComplete :
      (nodes : List Node) (max_parallel : ℕ) (completed : List (ℕ × R)) (ticks : List (Tick R))
      → IsComplete (ids_of nodes) (run_dag nodes max_parallel completed ticks)
  unfolding run_dag
  run_dag-IsComplete nodes max_parallel completed ticks = elim (Bool-cases (max_parallel == 0)) [
    | inl z ↦ rw z tt
    | inr z ↦ elim (Option-cases (validated_nodes nodes)) [
      | inr (invalid, v) ↦ rw (z, v) tt
      | inl v ↦ elim (Bool-cases (subset (map (λ entry. entry.0) completed) (ids_of nodes))) [
        | inl c ↦
            rw (z, v, c)
              (run_loop-IsComplete (ids_of nodes) max_parallel (deps_of nodes) ticks _
                (initial-IsCovered nodes completed))
        | inr c ↦ rw (z, v, c) tt
      ]
    ]
  ]

  complete_results :
      (ids : List ℕ) (r : Option (Result DagError (Unit {0})) × Dag R)
      → IsComplete ids r
      → r.0 ≡ some (ok tt)
      → (id : ℕ) → elem id ids ≡ true
      → elem id (completed_ids r.1) ≡ true
  complete_results ids (none, d) h e = ground arith
  complete_results ids (some (err x), d) h e = ground arith
  complete_results ids (some (ok u), d) h e = h

  -- If `run_dag` returns, then every node of the graph has a result, computed or given beforehand.
  pub run_dag_complete :
      (nodes : List Node) (max_parallel : ℕ) (completed : List (ℕ × R)) (ticks : List (Tick R))
      (id : ℕ)
      → (run_dag nodes max_parallel completed ticks).0 ≡ some (ok tt)
      → elem id (ids_of nodes) ≡ true
      → elem id (completed_ids (run_dag nodes max_parallel completed ticks).1) ≡ true
  run_dag_complete nodes max_parallel completed ticks id ends m =
      complete_results (ids_of nodes) (run_dag nodes max_parallel completed ticks)
        (run_dag-IsComplete nodes max_parallel completed ticks) ends id m
