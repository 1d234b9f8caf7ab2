-- ===== src/Dag/Schedule.antt =====
-- The nodes that run at a time: they have what they depend on, and they fit the limit.
use cognitrix.Prelude.{
  ℕ, ◌+◌, ◌-◌, ◌≤◌, ◌≡◌, refl, Bool, true, false, Option, none, some, List, [], ◌∷◌, map, arith,
  Bool-cases, Option-cases, inl, inr, length, Result, ok, err, Exec, ◌==◌, raise_if, and_then,
  ◌>>=◌,
}
use cognitrix.Dag.Graph.{subset, take, Node, deps_of, ids_of, validated_nodes}
use cognitrix.Dag.Sets.{
  all_ready, length-remove, length-insert, length-take, all_ready-cons, all_ready-remove,
  all_ready-insert, all_ready-take,
}
use cognitrix.Dag.{
  wait_then, running, done, failed, cancelled, NodeOutcome, returned, raised, interrupted, Tick,
  Dag, completed_ids, filter_ready, start_one, start_all, finish_one, finish_all, settle, launch,
  turn, run_loop, run_dag, initial, launched, popped, recorded, is_idle, continue_with, is_empty,
  DagError, execution_cancelled, validation_error, fail_if, progress,
}

-- Every active node has the results of its dependencies, and there are no more active nodes than
-- the limit.
pub record IsSound {R : Type 0} (limit : ℕ) (deps : ℕ → List ℕ) (d : Dag R) : Type 0 where
  pub ready : all_ready deps d.active (completed_ids d) ≡ true
  pub slots : length d.active ≤ limit

module _ {R : Type 0} (limit : ℕ) (deps : ℕ → List ℕ) where
  pub filter_ready-all :
      (d : Dag R) (ids : List ℕ) → all_ready deps (filter_ready deps d ids) (completed_ids d) ≡ true
  filter_ready-all d [] = refl
  filter_ready-all d (id ∷ rest) = ground (arith, filter_ready-all d rest)

  start_all-IsSound :
      (tick : Tick R) (ids : List ℕ) (d : Dag R)
      → all_ready deps ids (completed_ids d) ≡ true
      → length ids + length d.active ≤ limit
      → IsSound limit deps d
      → IsSound limit deps (start_all tick ids d).1
  unfolding start_all start_one
  start_all-IsSound tick [] d r n h = h
  start_all-IsSound tick (id ∷ rest) d r n h = elim (Bool-cases (tick.persisted id running)) [
    | inr e ↦ rw e h
    | inl e ↦ rw e (
        start_all-IsSound tick rest (launched id d) (ground arith)
          (omega (arith, length-insert id d.active, n))
          record {
            ready = all_ready-insert deps id d.active (completed_ids d) (ground arith) h.ready;
            slots = omega (arith, length-insert id d.active, n);
          })
  ]

  pub launch-IsSound :
      (tick : Tick R) (d : Dag R)
      → IsSound limit deps d
      → IsSound limit deps (launch limit deps tick d).1
  unfolding launch
  launch-IsSound tick d h =
      start_all-IsSound tick (take (limit - length d.active) (filter_ready deps d d.pending)) d
        (all_ready-take deps (limit - length d.active) (filter_ready deps d d.pending)
          (completed_ids d) (filter_ready-all d d.pending))
        (omega
          (arith, length-take (limit - length d.active) (filter_ready deps d d.pending), h.slots))
        h

  popped-IsSound : (id : ℕ) (d : Dag R) → IsSound limit deps d → IsSound limit deps (popped id d)
  popped-IsSound id d h = record {
    ready = all_ready-remove deps id d.active (completed_ids d) h.ready;
    slots = omega (arith, length-remove id d.active, h.slots);
  }

  recorded-IsSound :
      (id : ℕ) (r : R) (d : Dag R) → IsSound limit deps d → IsSound limit deps (recorded id r d)
  recorded-IsSound id r d h = record {
    ready = all_ready-cons deps d.active (completed_ids d) id h.ready;
    slots = h.slots;
  }

  finish_one-IsSound :
      (tick : Tick R) (id : ℕ) (outcome : Option (NodeOutcome R)) (failure : Option ℕ) (d : Dag R)
      → IsSound limit deps d
      → IsSound limit deps (finish_one tick id outcome failure d).1
  unfolding finish_one
  finish_one-IsSound tick id none failure d h = h
  finish_one-IsSound tick id (some (returned r)) failure d h =
      elim (Bool-cases (tick.persisted id done)) [
        | inl e ↦ rw e (recorded-IsSound id r (popped id d) (popped-IsSound id d h))
        | inr e ↦ rw e (popped-IsSound id d h)
      ]
  finish_one-IsSound tick id (some raised) failure d h =
      elim (Bool-cases (tick.persisted id failed)) [
        | inl e ↦ rw e (popped-IsSound id d h)
        | inr e ↦ rw e (popped-IsSound id d h)
      ]
  finish_one-IsSound tick id (some interrupted) failure d h =
      elim (Bool-cases (tick.persisted id cancelled)) [
        | inl e ↦ rw e (popped-IsSound id d h)
        | inr e ↦ rw e (popped-IsSound id d h)
      ]

  after-IsSound :
      {A B : Type 0} (r : Result DagError A × Dag R) (f : A → Exec DagError (Dag R) B)
      → IsSound limit deps r.1
      → ((a : A) (e : Dag R) → IsSound limit deps e → IsSound limit deps (f a e).1)
      → IsSound limit deps (and_then r.0 f r.1).1
  after-IsSound (ok a, e) f h g = g a e h
  after-IsSound (err x, e) f h g = h

  bind-IsSound :
      {A B : Type 0} (m : Exec DagError (Dag R) A) (f : A → Exec DagError (Dag R) B) (d : Dag R)
      → IsSound limit deps (m d).1
      → ((a : A) (e : Dag R) → IsSound limit deps e → IsSound limit deps (f a e).1)
      → IsSound limit deps ((m >>= f) d).1
  bind-IsSound m f d h g = after-IsSound (m d) f h g

  finish_all-IsSound :
      (tick : Tick R) (ids : List ℕ) (failure : Option ℕ) (d : Dag R)
      → IsSound limit deps d
      → IsSound limit deps (finish_all tick ids failure d).1
  unfolding finish_all
  finish_all-IsSound tick [] failure d h = h
  finish_all-IsSound tick (id ∷ rest) failure d h =
      bind-IsSound (finish_one tick id (tick.outcome id) failure) (finish_all tick rest) d
        (finish_one-IsSound tick id (tick.outcome id) failure d h)
        (λ f e s. finish_all-IsSound tick rest f e s)

  raise_if-IsSound :
      (test : Bool) (x : DagError) (d : Dag R)
      → IsSound limit deps d
      → IsSound limit deps (raise_if test x d).1
  raise_if-IsSound true x d h = h
  raise_if-IsSound false x d h = h

  fail_if-IsSound :
      (failure : Option ℕ) (d : Dag R)
      → IsSound limit deps d
      → IsSound limit deps (fail_if failure d).1
  fail_if-IsSound none d h = h
  fail_if-IsSound (some id) d h = h

  wait_then-IsSound :
      (stopped : Bool) (m : Exec DagError (Dag R) Unit) (d : Dag R)
      → IsSound limit deps d
      → IsSound limit deps (m d).1
      → IsSound limit deps (wait_then stopped m d).1
  wait_then-IsSound true m d h k = h
  wait_then-IsSound false m d h k = k

  settle-IsSound :
      (tick : Tick R) (d : Dag R) → IsSound limit deps d → IsSound limit deps (settle tick d).1
  unfolding settle
  settle-IsSound tick d h = wait_then-IsSound tick.caller_cancelled _ d h (
      bind-IsSound (finish_all tick d.active none) _ d (finish_all-IsSound tick d.active none d h)
        (λ failure e s.
          bind-IsSound (raise_if tick.cancel execution_cancelled) _ e
            (raise_if-IsSound tick.cancel execution_cancelled e s)
            (λ u e' s'. fail_if-IsSound failure e' s')))

  pub turn-IsSound :
      (tick : Tick R) (d : Dag R)
      → IsSound limit deps d
      → IsSound limit deps (turn limit deps tick d).1
  unfolding turn
  turn-IsSound tick d h =
      bind-IsSound (raise_if tick.stop_before execution_cancelled) _ d
        (raise_if-IsSound tick.stop_before execution_cancelled d h)
        (λ u e s. bind-IsSound (launch limit deps tick) _ e (launch-IsSound tick e s) (λ u' e' s'.
          bind-IsSound progress _ e'
            (raise_if-IsSound (is_empty e'.active) (validation_error none) e' s')
            (λ u'' e'' s''. settle-IsSound tick e'' s'')))

  continue_with-IsSound :
      (rest : Dag R → Option (Result DagError (Unit {0})) × Dag R)
      (r : Result DagError (Unit {0}) × Dag R)
      → ((e : Dag R) → IsSound limit deps e → IsSound limit deps (rest e).1)
      → IsSound limit deps r.1
      → IsSound limit deps (continue_with rest r).1
  continue_with-IsSound rest (ok u, e) g s = g e s
  continue_with-IsSound rest (err x, e) g s = s

  run_loop-IsSound :
      (ticks : List (Tick R)) (d : Dag R)
      → IsSound limit deps d
      → IsSound limit deps (run_loop limit deps ticks d).1
  unfolding run_loop
  run_loop-IsSound [] d h = h
  run_loop-IsSound (tick ∷ later) d h = elim (Bool-cases (is_idle d)) [
    | inl e ↦ rw (run_loop, e) h
    | inr e ↦
        rw (run_loop, e)
          (continue_with-IsSound (λ d'. run_loop limit deps later d') (turn limit deps tick d)
            (λ d' s. run_loop-IsSound later d' s) (turn-IsSound tick d h))
  ]

-- `run_dag` runs a node only when all its dependencies have results, and never more nodes at a
-- time than `max_parallel`: both hold after any number of scheduler rounds, and also where new
-- nodes of a further round have been started.
pub run_dag-IsSound :
    {R : Type 0} (nodes : List Node) (max_parallel : ℕ) (completed : List (ℕ × R))
    (ticks : List (Tick R)) (tick : Tick R)
    → let d = (run_dag nodes max_parallel completed ticks).1 in
      IsSound max_parallel (deps_of nodes) d
      × IsSound max_parallel (deps_of nodes) (launch max_parallel (deps_of nodes) tick d).1
unfolding run_dag initial
run_dag-IsSound nodes max_parallel completed ticks tick =
    (sound, launch-IsSound max_parallel (deps_of nodes) tick _ sound)
  where
    start : IsSound max_parallel (deps_of nodes) (initial nodes completed)
    start = record { ready = refl; slots = omega arith }

    sound : IsSound max_parallel (deps_of nodes) (run_dag nodes max_parallel completed ticks).1
    sound = elim (Bool-cases (max_parallel == 0)) [
      | inl z ↦ rw z start
      | inr z ↦ elim (Option-cases (validated_nodes nodes)) [
        | inr (invalid, v) ↦ rw (z, v) start
        | inl v ↦ elim (Bool-cases (subset (map (λ entry. entry.0) completed) (ids_of nodes))) [
          | inl c ↦ rw (z, v, c) (run_loop-IsSound max_parallel (deps_of nodes) ticks _ start)
          | inr c ↦ rw (z, v, c) start
        ]
      ]
    ]
