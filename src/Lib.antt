-- ===== src/Lib.antt =====
-- Verification of the durable task engine of cognitrix, the part of the program that admits, runs,
-- recovers and accounts for the runs of a task. A task has one head row, through which its runs are
-- admitted one at a time; a run has one row, which a worker claims under a lease and writes to with
-- compare-and-set updates; a step of a run has a row that only the holder of the lease may write; the
-- steps form a graph that a scheduler runs; and one ledger per run counts what its calls of models
-- and tools use up. Round this engine stand the scheduler that starts the runs of a task at their
-- times, the broker by which a turn asks its user a question, and the gate in front of risky calls of
-- tools. The files and what they model:
--
-- - Prelude: shared names, Boolean tests on numbers, lists under native numbers, methods that raise
--   (Prelude/Effects), the stripping of texts (Prelude/Texts), and rows under version numbers
--   (Prelude/Versions).
-- - Budget (cognitrix/tasks/budget.py): `TaskBudget`, `BudgetLedger` and `TokenReservation`. Ledger
--   has the methods that reserve and consume, Reservation those that settle, Parallel the slots;
--   Session is a run's whole sequence of calls. Each method is one step, since it holds the ledger's
--   lock from its checks to its writes.
-- - Runs (cognitrix/tasks/run.py, cognitrix/tasks/repository.py, cognitrix/tasks/recovery.py): the row
--   of a run and every method that writes to it. Cas is one attempt of a method, a read, a guard and a
--   conditional UPDATE, and the loop round it; Lease, Terminal and Outbox are the methods. History is
--   any interleaving of them, where a write may go out from any earlier row.
-- - Steps (cognitrix/tasks/step.py, cognitrix/tasks/repository.py): `transition_step`,
--   `backfill_step_runtime` and the UPDATE that reads the run's row in the same statement.
-- - Admission (cognitrix/tasks/run.py, cognitrix/tasks/repository.py): the head row, `_reserve_head`,
--   `tombstone_task`, `_restore_head_after_failed_create`, `_release_active`,
--   `recover_stale_reservations` and `reconcile_task_head`.
-- - Dag (cognitrix/tasks/dag.py): `_validated_nodes` (Dag/Graph) and `run_dag` with its clean-up. Order,
--   Walk and Acyclic are about the walk of the validation, Progress to Termination about rounds in
--   which tasks return, and Sequential is the abstract run of a graph, one node after another.
-- - Slots (cognitrix/providers/limits.py): `LimitSlot`, the leases under which a call of a model runs.
-- - Accounts (cognitrix/tasks/repository.py, cognitrix/tasks/budget.py): the stored usage of a run, from
--   the ledger of one worker through `_merge_usage` to the ledger of the next.
-- - Questions (cognitrix/questions/models.py, cognitrix/questions/broker.py): what a question to the
--   user may be (Questions), and the pending questions that turns, users and the timer act on
--   (Questions/Broker). Each stretch of code between two awaits is one step.
-- - Approvals (cognitrix/safety/destructive_ops.py, cognitrix/safety/approval_gate.py,
--   cognitrix/agents/base.py): the risk of a call of a tool, the gate that asks a user about it
--   (Approvals/Gate), and what `call_tools` makes of one call before any tool runs (Approvals/Calls).
--   Approvals/History is any sequence of checks, answers, clearings and restarts, beside the grants
--   that users have given.
-- - Schedules (cognitrix/tasks/scheduler.py): the schedule of a task, `validate_schedule` and
--   `compute_next_run`; Schedules/Claims is `tick` on one task, with the pause and the deletion of
--   cognitrix/api/routes/tasks.py, and Schedules/History any number of ticks at once.
-- - Retry (cognitrix/utils/retry.py): `with_retry`.
--
-- Numbers are natural numbers. Instants and durations are whole seconds, as the stored timestamps are
-- (milliseconds in Retry, where the source has floats); money is counted in a unit that makes the
-- configured rates whole. Estimates and totals of tokens are integers where the code tests their sign,
-- and the prompt and completion counts of a report are natural numbers, whose sign it does not test.
-- A loop over `range(MAX_CAS_ATTEMPTS)` is recursion on the list of its turns, of any length; the
-- loop of a slot's polls is recursion on the polls before its deadline; the loop of `run_dag` is
-- recursion on the list of what its waits return with, and says so where that list ends while it
-- waits; `with_retry` recurs on the attempts that are left. The walk of the graph has as many
-- turns as there are nodes, and a node is queued at most once. Steps of several parties, such as the
-- ticks on a schedule or the users of the broker, are sequences of steps of any length.
-- The store is relational: the repository refuses to admit runs in any other. The database executes
-- one UPDATE at a time on a row and answers with the number of rows changed; the clock of its
-- predicates is the database's, and the clock of a caller is an argument.
--
-- Not modelled: the language models, agents, sessions, tools, the HTTP API, the command line,
-- media and memory, which are I/O round this engine; parsing and formatting of stored rows, index
-- setup and logging; errors of the database itself; reports of a negative number of prompt or
-- completion tokens, and stored counters with a fraction; the insert of a
-- run by `create_queued`. croniter, SHA-256, `str.lower` and the regular expressions of the risk
-- detector are parameters.
pub mod Prelude
pub mod Budget
pub mod Runs
pub mod Steps
pub mod Admission
pub mod Approvals
pub mod Retry
pub mod Dag
pub mod Schedules
pub mod Slots
pub mod Accounts
pub mod Questions
