-- ===== src/Schedules/History.antt =====
-- Any number of ticks on one task, in any order (cognitrix/tasks/scheduler.py). The schedule itself is
-- not edited and not resumed meanwhile; it may be paused and the task deleted.
use cognitrix.Prelude.{ℕ, ◌≡◌, String, Bool, Option, none, some, ◌==◌, if◌then◌else◌}
use cognitrix.Schedules.{Row}
use cognitrix.Schedules.Claims.{
  Claim, claim_of, claim_task, EnqueueEnd, gives_back, after_enqueue, pause_schedule, delete_task,
}

-- A claim that a tick has won and not given back: its start is on its way, or has ended.
pub record Turn : Type 0 where
  pub claim : Claim
  pub start : Option EnqueueEnd

-- The task's row, and the claims under the numbers of the ticks' turns.
pub record World : Type 0 where
  pub row : Row
  pub turns : ℕ → Option Turn

abbrev pub set_turn : ℕ → Option Turn → (ℕ → Option Turn) → ℕ → Option Turn
set_turn id turn turns other = if other == id then turn else turns other

-- A claim that is given back is nobody's any more, whatever its start had done before it raised.
abbrev pub ended : Claim → EnqueueEnd → Option Turn
ended c end = if gives_back c end then none else some (record { claim = c; start = some end })

-- The same schedule, whatever the state of its run.
abbrev pub SameSchedule : Row → Row → Type 0
SameSchedule a b =
    (a.schedule_at ≡ b.schedule_at)
    × (a.schedule_interval ≡ b.schedule_interval)
    × (a.schedule_cron ≡ b.schedule_cron)

module _ (cron_is_valid : String → ℕ → Bool) (cron_next : String → ℕ → Option ℕ) (plan : Row) where
  -- A tick reads the row at any earlier moment, so its read is any row with the same schedule.
  pub data Step : World → World → Type 0 where
    claim :
        {w : World} (id now : ℕ) (observed : Row) (c : Claim)
        → SameSchedule observed plan
        → w.turns id ≡ none
        → claim_of cron_is_valid cron_next now observed ≡ some c
        → (claim_task c w.row).1 ≡ 1
        → Step w (record {
          row = (claim_task c w.row).0;
          turns = set_turn id (some (record { claim = c; start = none })) w.turns;
        })
    finish :
        {w : World} (id : ℕ) (c : Claim) (end : EnqueueEnd)
        → w.turns id ≡ some (record { claim = c; start = none })
        → Step w
            (record { row = after_enqueue c end w.row; turns = set_turn id (ended c end) w.turns })
    paused : {w : World} → Step w (record w { row = pause_schedule w.row })
    deleted_task : {w : World} → Step w (record w { row = delete_task w.row })

  pub data Steps : World → World → Type 0 where
    stay : {w : World} → Steps w w
    then_step : {a b c : World} → Steps a b → Step b c → Steps a c
