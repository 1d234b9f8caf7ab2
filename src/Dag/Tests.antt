-- ===== src/Dag/Tests.antt =====
-- A diamond of four nodes, two at a time, and the theorems at it.
use cognitrix.Prelude.{
  ℕ, none, inr, arith, ◌≡◌, refl, true, false, some, List, [], ◌∷◌, ok, err, ◌+◌, if◌then◌else◌,
  ◌==◌,
}
use cognitrix.Dag.Graph.{
  Node, ids_of, deps_of, elem, validated_nodes, first_pass, second_pass, walk, cycle,
}
use cognitrix.Dag.{
  returned, raised, Tick, completed_ids, start_one, start_all, finish_one, finish_all, settle,
  launch, turn, run_loop, initial, run_dag, node_failed,
}
use cognitrix.Dag.Schedule.{IsSound, run_dag-IsSound}
use cognitrix.Dag.Cleanup.{run_dag_cleanup, run_dag_return}
use cognitrix.Dag.{DagNodeState, NodeOutcome, cleanup_active}
use cognitrix.Prelude.{Bool}
use cognitrix.Dag.Complete.{run_dag_complete}
use cognitrix.Dag.Termination.{EachWaitWakes, run_dag_terminates}
use cognitrix.Dag.Progress.{IsGood}
use cognitrix.Dag.Refinement.{run_dag_refines}
use cognitrix.Dag.Sequential.{Sequential}

abbrev node : ℕ → List ℕ → Node
node id deps = record { node_id = id; dependencies = deps }

abbrev diamond : List Node
diamond = node 3 (1 ∷ 2 ∷ []) ∷ node 1 (0 ∷ []) ∷ node 2 (0 ∷ []) ∷ node 0 [] ∷ []

abbrev all_done : Tick ℕ
all_done = record {
  stop_before = false;
  cancel = false;
  outcome = λ id. some (returned (id + 10));
  persisted = λ id state. true;
  caller_cancelled = false;
  persist_cancelled = λ id state. false;
}

abbrev second_fails : Tick ℕ
second_fails = record all_done {
  outcome = λ id. if id == 2 then some raised else some (returned (id + 10));
}

program : Unit {0}
unfolding validated_nodes first_pass second_pass walk start_one start_all finish_one finish_all
    settle launch turn run_loop initial run_dag cleanup_active
program = tt

diamond_runs :
    (run_dag diamond 2 [] (all_done ∷ all_done ∷ all_done ∷ [])).1.results
    ≡ (3, 13) ∷ (2, 12) ∷ (1, 11) ∷ (0, 10) ∷ []
unfolding program
diamond_runs = refl

one_fails : (run_dag diamond 2 [] (all_done ∷ second_fails ∷ [])).0 ≡ some (err (node_failed 2))
unfolding program
one_fails = refl

cycle_refused : validated_nodes (node 1 (2 ∷ []) ∷ node 2 (1 ∷ []) ∷ []) ≡ some cycle
unfolding program
cycle_refused = refl

run_dag-IsSound_example :
    let d = (run_dag diamond 2 [] (all_done ∷ [])).1 in
    IsSound 2 (deps_of diamond) d
    × IsSound 2 (deps_of diamond) (launch 2 (deps_of diamond) all_done d).1
run_dag-IsSound_example = run_dag-IsSound diamond 2 [] (all_done ∷ []) all_done

diamond_returns : (run_dag diamond 2 [] (all_done ∷ all_done ∷ all_done ∷ [])).0 ≡ some (ok tt)
unfolding program
diamond_returns = refl

run_dag_complete_example :
    elem 3 (completed_ids (run_dag diamond 2 [] (all_done ∷ all_done ∷ all_done ∷ [])).1) ≡ true
run_dag_complete_example =
    run_dag_complete diamond 2 [] (all_done ∷ all_done ∷ all_done ∷ []) 3 diamond_returns refl

abbrev late_outcome : ℕ → NodeOutcome ℕ
late_outcome id = returned (id + 20)

abbrev always : ℕ → DagNodeState → Bool
always id state = true

run_dag_return_example :
    (cleanup_active false true late_outcome always
      (run_dag diamond 2 [] (all_done ∷ all_done ∷ all_done ∷ [])).1).results
    ≡ (run_dag diamond 2 [] (all_done ∷ all_done ∷ all_done ∷ [])).1.results
run_dag_return_example =
    run_dag_return late_outcome always diamond 2 [] (all_done ∷ all_done ∷ all_done ∷ []) false true
      diamond_returns

-- The first of two nodes fails while the second is active; that comes to its result meanwhile.
abbrev first_fails : Tick ℕ
first_fails = record all_done { outcome = λ id. if id == 1 then some raised else none }

cleaned_up :
    (cleanup_active false true late_outcome always
      (run_dag diamond 2 [] (all_done ∷ first_fails ∷ [])).1).results
    ≡ (2, 22) ∷ (0, 10) ∷ []
unfolding program
cleaned_up = refl

run_dag_cleanup_example :
    Sequential
      (ids_of diamond)
      (deps_of diamond)
      []
      (cleanup_active false true late_outcome always
        (run_dag diamond 2 [] (all_done ∷ first_fails ∷ [])).1).results
run_dag_cleanup_example =
    run_dag_cleanup late_outcome always diamond 2 [] (all_done ∷ first_fails ∷ []) false true

diamond_accepted : validated_nodes diamond ≡ none
unfolding program
diamond_accepted = refl

abbrev four_rounds : List (Tick ℕ)
four_rounds = all_done ∷ all_done ∷ all_done ∷ all_done ∷ []

all_done-IsGood : IsGood all_done
all_done-IsGood = (refl, refl, λ id state. refl, λ id. inr (id + 10, refl), refl)

four_rounds-EachWaitWakes : EachWaitWakes 2 (deps_of diamond) four_rounds (initial diamond [])
unfolding program
four_rounds-EachWaitWakes = (λ e. refl, (λ e. refl, (λ e. refl, (λ e. absurd (cc e), tt))))

run_dag_terminates_example : (run_dag diamond 2 [] four_rounds).0 ≡ some (ok tt)
run_dag_terminates_example =
    run_dag_terminates diamond 2 [] four_rounds (omega arith) diamond_accepted refl
      (all_done-IsGood, (all_done-IsGood, (all_done-IsGood, (all_done-IsGood, tt))))
      four_rounds-EachWaitWakes (omega arith)

run_dag_refines_example :
    Sequential
      (ids_of diamond)
      (deps_of diamond)
      []
      (run_dag diamond 2 [] (all_done ∷ second_fails ∷ [])).1.results
run_dag_refines_example = run_dag_refines diamond 2 [] (all_done ∷ second_fails ∷ [])
