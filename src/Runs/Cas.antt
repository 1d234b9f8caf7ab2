-- ===== src/Runs/Cas.antt =====
-- cognitrix/tasks/repository.py: one attempt of a method. The method reads the row, and either stops
-- with a result or sends one `UPDATE` that names what it read: `where` is its `WHERE` clause, and
-- `assign` its `SET` clause, both evaluated on the row as it is then, at the database's clock.
use cognitrix.Prelude.{ℕ, zero, suc, Bool, List, [], ◌∷◌, Option, none, some, if◌then◌else◌}
use cognitrix.Runs.{TaskRun, Failure, run_state_conflict}

pub record Update : Type 0 where
  pub where_clause : ℕ → TaskRun → Bool
  pub assign : ℕ → TaskRun → TaskRun

pub data Attempt (A : Type 0) : Type 0 where
  return : A → Attempt A
  raise : Failure → Attempt A
  write : Update → A → Attempt A

-- The database's answer is the number of rows changed, 0 or 1.
unfoldable pub update_one : Update → ℕ → TaskRun → TaskRun × ℕ
update_one u now row = if u.where_clause now row then (u.assign now row, 1) else (row, 0)

-- The row after an attempt whose read saw `observed`.
unfoldable pub attempted : {A : Type 0} → Attempt A → ℕ → TaskRun → TaskRun
unfolding update_one
attempted (return a) now row = row
attempted (raise e) now row = row
attempted (write u a) now row = (update_one u now row).0

pub data Outcome (A : Type 0) : Type 0 where
  returned : A → Outcome A
  raised : Failure → Outcome A

-- A method's early returns and raises, and then its write.
abbrev pub try_write : {A : Type 0} → Option (Outcome A) → Update → A → Attempt A
try_write none u a = write u a
try_write (some (returned a)) u b = return a
try_write (some (raised e)) u b = raise e

-- One turn of a method's loop: what others do to the row between its read and its write, and the
-- clock at the write.
pub record Round : Type 0 where
  pub others : TaskRun → TaskRun
  pub now : ℕ

-- `for _ in range(MAX_CAS_ATTEMPTS)`: the turns left are the list's length. After a write that
-- changed no row, `recheck` may find a reason to give up, as `_require_step_write` does.
unfoldable pub cas_loop :
    {A : Type 0}
    → (TaskRun → Attempt A)
    → (ℕ → TaskRun → Option Failure)
    → List Round
    → TaskRun
    → Outcome A × TaskRun
unfolding update_one
cas_loop attempt recheck [] row = (raised run_state_conflict, row)
cas_loop attempt recheck (round ∷ rounds) row = elim (attempt row) [
  | return a ↦ (returned a, row)
  | raise e ↦ (raised e, row)
  | write u a ↦
      let seen = round.others row in
      elim (update_one u round.now seen).1 [
        | suc n ↦ (returned a, (update_one u round.now seen).0)
        | zero ↦ elim (recheck round.now seen) [
          | some e ↦ (raised e, seen)
          | none ↦ cas_loop attempt recheck rounds seen
        ]
      ]
]
