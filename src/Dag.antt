-- ===== src/Dag.antt =====
-- cognitrix/tasks/dag.py: `run_dag`, which runs the nodes of a task graph as soon as the nodes they
-- depend on have results, a bounded number at a time. The event loop is a list of ticks, each what
-- one `asyncio.wait` of the scheduler returns with and how the callbacks of that tick answer.
pub mod Finish
pub mod Graph
pub mod Order
pub mod Progress
pub mod Refinement
pub mod Sequential
pub mod Sets
pub mod Termination
pub mod Waiting
pub mod Walk
pub mod Rounds
pub mod Schedule
pub mod Complete
pub mod Acyclic
pub mod Advance
pub mod Cleanup
mod Tests
use cognitrix.Prelude.{
  ℕ, zero, suc, ◌+◌, ◌-◌, Bool, true, false, not, ◌&&◌, ◌||◌, Option, none, some, List, [], ◌∷◌,
  ◌++◌, map, leb, ltb, ◌==◌, if◌then◌else◌, length, Result, ok, err, Exec, pure, raise, get, modify,
  raise_if, and_then, ◌>>=◌, ◌>>◌,
}
use cognitrix.Dag.Graph.{
  elem, subset, remove, insert_sorted, take, Node, deps_of, ids_of, Invalid, validated_nodes,
}

pub data DagNodeState : Type 0 where
  running done failed cancelled : DagNodeState

-- How a node's task ended.
pub data NodeOutcome (R : Type 0) : Type 0 where
  returned : R → NodeOutcome R
  raised : NodeOutcome R
  interrupted : NodeOutcome R

pub data DagError : Type 0 where
  validation_error : Option Invalid → DagError
  node_failed : ℕ → DagError
  persistence_error : ℕ → DagNodeState → DagError
  execution_cancelled : DagError
  -- `asyncio.CancelledError`, thrown into the caller of `run_dag` while it waits, or by `persist`.
  caller_cancelled : DagError

pub record Tick (R : Type 0) : Type 0 where
  -- `cancel_event.is_set()` at the head of the loop, and its waiter among those done.
  pub stop_before : Bool
  pub cancel : Bool
  -- The caller of `run_dag` is cancelled in the wait, which then returns nothing.
  pub caller_cancelled : Bool
  -- The tasks that are done, with their outcomes; whether `persist` returns, and where it does not,
  -- whether it was cancelled.
  pub outcome : ℕ → Option (NodeOutcome R)
  pub persisted : ℕ → DagNodeState → Bool
  pub persist_cancelled : ℕ → DagNodeState → Bool

-- The sets `pending` and `active` are lists of node ids in ascending order, the order in which the
-- source walks them.
pub record Dag (R : Type 0) : Type 0 where
  pub pending : List ℕ
  pub active : List ℕ
  pub results : List (ℕ × R)

abbrev pub first_failure : Option ℕ → ℕ → Option ℕ
first_failure none id = some id
first_failure (some first) id = some first

abbrev pub is_empty : List ℕ → Bool
is_empty [] = true
is_empty (x ∷ xs) = false

module _ {R : Type 0} where
  abbrev pub completed_ids : Dag R → List ℕ
  completed_ids d = map (λ entry. entry.0) d.results

  abbrev pub notify : Tick R → ℕ → DagNodeState → Exec DagError (Dag R) Unit
  notify tick id state = raise_if (not (tick.persisted id state)) (
      if tick.persist_cancelled id state
      then DagError.caller_cancelled
      else persistence_error id state)

  abbrev pub is_ready : (ℕ → List ℕ) → Dag R → ℕ → Bool
  is_ready deps d id = subset (deps id) (completed_ids d)

  abbrev pub filter_ready : (ℕ → List ℕ) → Dag R → List ℕ → List ℕ
  filter_ready deps d [] = []
  filter_ready deps d (id ∷ rest) =
      if is_ready deps d id then id ∷ filter_ready deps d rest else filter_ready deps d rest

  abbrev pub launched : ℕ → Dag R → Dag R
  launched id d = record d { pending = remove id d.pending; active = insert_sorted id d.active }

  unfoldable pub start_one : Tick R → ℕ → Exec DagError (Dag R) Unit
  start_one tick id = notify tick id running >> modify (launched id)

  unfoldable pub start_all : Tick R → List ℕ → Exec DagError (Dag R) Unit
  start_all tick [] = pure tt
  start_all tick (id ∷ rest) = start_one tick id >> start_all tick rest

  abbrev pub popped : ℕ → Dag R → Dag R
  popped id d = record d { active = remove id d.active }

  abbrev pub recorded : ℕ → R → Dag R → Dag R
  recorded id r d = record d { results = (id, r) ∷ d.results }

  -- A task of the tick that is done, with the first failure so far; the others stay active.
  unfoldable pub finish_one :
      Tick R → ℕ → Option (NodeOutcome R) → Option ℕ → Exec DagError (Dag R) (Option ℕ)
  finish_one tick id none failure = pure failure
  finish_one tick id (some (returned r)) failure =
      modify (popped id) >> notify tick id done >> modify (recorded id r) >> pure failure
  finish_one tick id (some raised) failure =
      modify (popped id) >> notify tick id failed >> pure (first_failure failure id)
  finish_one tick id (some interrupted) failure =
      modify (popped id) >> notify tick id cancelled >> raise execution_cancelled

  unfoldable pub finish_all : Tick R → List ℕ → Option ℕ → Exec DagError (Dag R) (Option ℕ)
  finish_all tick [] failure = pure failure
  finish_all tick (id ∷ rest) failure =
      finish_one tick id (tick.outcome id) failure >>= finish_all tick rest

  abbrev pub fail_if : Option ℕ → Exec DagError (Dag R) Unit
  fail_if none = pure tt
  fail_if (some id) = raise (node_failed id)

  -- The wait, and what follows it.
  -- The wait, out of which a cancellation of the caller is thrown.
  abbrev pub wait_then : Bool → Exec DagError (Dag R) Unit → Exec DagError (Dag R) Unit
  wait_then true m d = (err DagError.caller_cancelled, d)
  wait_then false m d = m d

  unfoldable pub settle : Tick R → Exec DagError (Dag R) Unit
  settle tick = wait_then tick.caller_cancelled λ d.
      (finish_all tick d.active none >>= λ failure.
      raise_if tick.cancel execution_cancelled >> fail_if failure)
        d

  unfoldable pub launch : ℕ → (ℕ → List ℕ) → Tick R → Exec DagError (Dag R) Unit
  launch max_parallel deps tick d =
      start_all tick (take (max_parallel - length d.active) (filter_ready deps d d.pending)) d

  abbrev pub progress : Exec DagError (Dag R) Unit
  progress d = raise_if (is_empty d.active) (validation_error none) d

  -- One round of `while pending or active`.
  unfoldable pub turn : ℕ → (ℕ → List ℕ) → Tick R → Exec DagError (Dag R) Unit
  turn max_parallel deps tick =
      raise_if tick.stop_before execution_cancelled
      >> (launch max_parallel deps tick >> (progress >> settle tick))

  abbrev pub is_idle : Dag R → Bool
  is_idle d = is_empty d.pending && is_empty d.active

  abbrev pub continue_with :
      (Dag R → Option (Result DagError (Unit {0})) × Dag R)
      → Result DagError (Unit {0}) × Dag R
      → Option (Result DagError (Unit {0})) × Dag R
  continue_with rest (ok u, d) = rest d
  continue_with rest (err e, d) = (some (err e), d)

  -- The rounds until the loop ends; `none` where the ticks run out while it still waits.
  unfoldable pub run_loop :
      ℕ → (ℕ → List ℕ) → List (Tick R) → Dag R → Option (Result DagError (Unit {0})) × Dag R
  run_loop max_parallel deps [] d = (if is_idle d then some (ok tt) else none, d)
  run_loop max_parallel deps (tick ∷ later) d = elim (is_idle d) [
    | true ↦ (some (ok tt), d)
    | false ↦
        continue_with (λ d'. run_loop max_parallel deps later d') (turn max_parallel deps tick d)
  ]

  abbrev pub unfinished : List (ℕ × R) → List ℕ → List ℕ
  unfinished completed [] = []
  unfinished completed (id ∷ rest) =
      if elem id (map (λ entry. entry.0) completed)
      then unfinished completed rest
      else insert_sorted id (unfinished completed rest)

  unfoldable pub initial : List Node → List (ℕ × R) → Dag R
  initial nodes completed = record {
    pending = unfinished completed (ids_of nodes);
    active = [];
    results = completed;
  }

  abbrev pub refuse : DagError → Dag R → Option (Result DagError (Unit {0})) × Dag R
  refuse e d = (some (err e), d)

  -- `run_dag` up to its `finally` clause.
  unfoldable pub run_dag :
      List Node → ℕ → List (ℕ × R) → List (Tick R) → Option (Result DagError (Unit {0})) × Dag R
  run_dag nodes max_parallel completed ticks =
      if max_parallel == 0
      then refuse (validation_error none) (initial nodes completed)
      else elim (validated_nodes nodes) [
        | some invalid ↦ refuse (validation_error (some invalid)) (initial nodes completed)
        | none ↦
            if subset (map (λ entry. entry.0) completed) (ids_of nodes)
            then run_loop max_parallel (deps_of nodes) ticks (initial nodes completed)
            else refuse (validation_error none) (initial nodes completed)
      ]

  -- The result that the clean-up adds: a task that had come to its end, and was persisted as done.
  abbrev pub cleaned : (ℕ → DagNodeState → Bool) → ℕ → NodeOutcome R → List (ℕ × R) → List (ℕ × R)
  cleaned persisted id (returned r) results =
      if persisted id done then (id, r) ∷ results else results
  cleaned persisted id raised results = results
  cleaned persisted id interrupted results = results

  abbrev pub clean_all :
      (ℕ → NodeOutcome R) → (ℕ → DagNodeState → Bool) → List ℕ → List (ℕ × R) → List (ℕ × R)
  clean_all outcome persisted [] results = results
  clean_all outcome persisted (id ∷ rest) results =
      clean_all outcome persisted rest (cleaned persisted id (outcome id) results)

  -- `cleanup_active`: how the tasks that were still active ended once they had been cancelled and
  -- waited for. What `persist` raises is dropped; without `persist` no result is added. A
  -- cancellation while it waits for them ends it there, with nothing changed.
  unfoldable pub cleanup_active :
      Bool → Bool → (ℕ → NodeOutcome R) → (ℕ → DagNodeState → Bool) → Dag R → Dag R
  cleanup_active gather_cancelled has_persist outcome persisted d =
      if gather_cancelled && not (is_empty d.active) then d else record d {
        active = [];
        results = if has_persist then clean_all outcome persisted d.active d.results else d.results;
      }
