-- ===== src/Dag/Termination.antt =====
-- `run_dag` returns (cognitrix/tasks/dag.py): an accepted graph is never stuck, and each wait that
-- returns with a task that is done brings it nearer to its end.
use cognitrix.Prelude.{
  ℕ, ◌≤◌, ◌≡◌, refl, true, false, ◌&&◌, none, some, List, [], ◌∷◌, map, arith, length, ◌==◌, ==_iff,
  Bool-cases, inl, inr, ok,
}
use cognitrix.Dag.Graph.{elem, subset, Node, ids_of, deps_of, validated_nodes}
use cognitrix.Dag.Sets.{elem-insert}
use cognitrix.Dag.{
  Tick, Dag, completed_ids, launch, turn, is_idle, is_empty, run_loop, run_dag, initial, unfinished,
}
use cognitrix.Dag.Complete.{initial-IsCovered}
use cognitrix.Dag.Acyclic.{length-ids, IsOrder, accepted_nodes-IsOrder}
use cognitrix.Dag.Progress.{missing, missing-none, IsGood, IsLive}
use cognitrix.Dag.Finish.{any_done, open_nodes}
use cognitrix.Dag.Rounds.{turn-Nearer, continue_returns}

missing-length : (ids results : List ℕ) → missing ids results ≤ length ids
missing-length [] results = omega arith
missing-length (x ∷ ids) results = ground (arith, missing-length ids results)

both_empty :
    (xs ys : List ℕ)
    → ((x : ℕ) → elem x xs ≡ true → ⊥)
    → ((x : ℕ) → elem x ys ≡ true → ⊥)
    → (is_empty xs && is_empty ys) ≡ true
both_empty [] [] a b = refl
both_empty (x ∷ xs) ys a b = absurd (a x (ground arith))
both_empty [] (y ∷ ys) a b = absurd (b y (ground arith))

module _ {R : Type 0} where
  -- Each wait of a run returns with a task that is done, if one runs.
  abbrev pub EachWaitWakes : ℕ → (ℕ → List ℕ) → List (Tick R) → Dag R → Type 0
  EachWaitWakes limit deps [] d = Unit
  EachWaitWakes limit deps (tick ∷ later) d =
      (is_empty (launch limit deps tick d).1.active ≡ false
        → any_done tick (launch limit deps tick d).1.active ≡ true)
      × EachWaitWakes limit deps later (turn limit deps tick d).1

  abbrev pub AllGood : List (Tick R) → Type 0
  AllGood [] = Unit
  AllGood (tick ∷ later) = IsGood tick × AllGood later

module _ {R : Type 0} (limit : ℕ) (nodes : List Node) (positive : 1 ≤ limit) (order : List ℕ)
    (o : IsOrder nodes order) where
  live_is_idle :
      (d : Dag R) → IsLive (ids_of nodes) d → open_nodes (ids_of nodes) d ≡ 0 → is_idle d ≡ true
  live_is_idle d h z =
      both_empty d.pending d.active
        (λ x m.
          let old = h.waiting x m in
          let n = old.1 in
          let p = missing-none (ids_of nodes) (completed_ids d) x z old.0 in absurd (ground arith))
        (λ x m.
          let old = h.working x m in
          let n = old.1 in
          let p = missing-none (ids_of nodes) (completed_ids d) x z old.0 in absurd (ground arith))

  run_loop-returns :
      (ticks : List (Tick R)) (d : Dag R)
      → AllGood ticks
      → EachWaitWakes limit (deps_of nodes) ticks d
      → IsLive (ids_of nodes) d
      → open_nodes (ids_of nodes) d ≤ length ticks
      → (run_loop limit (deps_of nodes) ticks d).0 ≡ some (ok tt)
  unfolding run_loop
  run_loop-returns [] d good wakes h enough = rw (live_is_idle d h (omega (arith, enough))) refl
  run_loop-returns (tick ∷ later) d good wakes h enough = elim (Bool-cases (is_idle d)) [
    | inl e ↦ rw (run_loop, e) refl
    | inr e ↦
        rw (run_loop, e)
          (continue_returns (ids_of nodes) (run_loop limit (deps_of nodes) later) d
            (turn limit (deps_of nodes) tick d) (length later)
            (turn-Nearer limit nodes positive order o tick d good.0 wakes.0 e h) enough
            (λ live fewer.
              run_loop-returns later (turn limit (deps_of nodes) tick d).1 good.1 wakes.1 live
                fewer))
  ]

module _ {R : Type 0} where
  pub unfinished-open :
      (completed : List (ℕ × R)) (ids : List ℕ) (x : ℕ)
      → elem x (unfinished completed ids) ≡ true
      → (elem x ids ≡ true) × (elem x (map (λ entry. entry.0) completed) ≡ false)
  unfinished-open completed [] x m = absurd (ground arith)
  unfinished-open completed (y ∷ ids) x m =
      elim (Bool-cases (elem y (map (λ entry. entry.0) completed))) [
        | inl t ↦ let (a, b) = unfinished-open completed ids x (rw t at m) in (ground arith, b)
        | inr f ↦ elim (Bool-cases (x == y)) [
          | inl e ↦ (ground arith, rw ((==_iff x y).0 e) f)
          | inr n ↦
              let there : elem x (unfinished completed ids) ≡ true =
                let inserted = rw f at m in
                ground (arith, elem-insert x y (unfinished completed ids)) in
              let (a, b) = unfinished-open completed ids x there in (ground arith, b)
        ]
      ]

  initial-IsLive :
      (nodes : List Node) (completed : List (ℕ × R))
      → IsLive (ids_of nodes) (initial nodes completed)
  unfolding initial
  initial-IsLive nodes completed = record {
    covered = initial-IsCovered nodes completed;
    waiting = λ x m. let old = unfinished-open completed (ids_of nodes) x m in (old.0, old.1, refl);
    working = λ x m. absurd (ground arith);
  }

  -- `run_dag` returns for every graph that its checks accept, with a positive limit and results given
  -- for nodes of the graph only, if neither a round nor the caller is cancelled, all callbacks answer,
  -- the tasks that end return, each wait ends with a task that is done where one runs, and there are
  -- as many waits as nodes.
  pub run_dag_terminates :
      (nodes : List Node) (max_parallel : ℕ) (completed : List (ℕ × R)) (ticks : List (Tick R))
      → 1 ≤ max_parallel
      → validated_nodes nodes ≡ none
      → subset (map (λ entry. entry.0) completed) (ids_of nodes) ≡ true
      → AllGood ticks
      → EachWaitWakes max_parallel (deps_of nodes) ticks (initial nodes completed)
      → length nodes ≤ length ticks
      → (run_dag nodes max_parallel completed ticks).0 ≡ some (ok tt)
  unfolding run_dag
  run_dag_terminates nodes max_parallel completed ticks positive v inside good wakes enough =
      let (order, o) = accepted_nodes-IsOrder nodes v in
      let nonzero : max_parallel == 0 ≡ false = ground arith in
      rw (nonzero, v, inside)
        (run_loop-returns max_parallel nodes positive order o ticks (initial nodes completed) good
          wakes (initial-IsLive nodes completed)
          (omega (
            arith,
            missing-length (ids_of nodes) (completed_ids (initial nodes completed)),
            length-ids nodes,
            enough,
          )))
