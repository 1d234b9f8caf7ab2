-- ===== src/Schedules.antt =====
-- cognitrix/tasks/scheduler.py: when a task is due, and the loop that starts it. A stored instant is
-- a number of seconds; croniter and the server's time zone are parameters. The pause and the deletion
-- of cognitrix/api/routes/tasks.py write to the same row.
pub mod Claims
pub mod Disjoint
pub mod History
pub mod Once
pub mod Turns
pub mod Paused
pub mod Valid
mod Tests
use cognitrix.Prelude.{
  ℕ, suc, ◌+◌, ◌-◌, String, Bool, true, false, not, ◌&&◌, ◌||◌, Option, none, some, ltb, leb, ◌==◌,
  if◌then◌else◌, ℤ, pos, negsuc, Result, ok, err,
}

-- A column with an instant: null or empty, or a text that is none, or an instant.
pub data Stamp : Type 0 where
  unset malformed : Stamp
  instant : ℕ → Stamp

-- The columns of a task that the scheduler reads and writes.
pub record Row : Type 0 where
  pub deleted : Bool
  pub schedule_at : Stamp
  pub schedule_interval : Option ℤ
  pub schedule_cron : Option String
  pub next_run_at : Stamp
  pub schedule_enabled : Bool

pub data Rejection : Type 0 where
  more_than_one interval_too_short invalid_cron invalid_datetime in_the_past : Rejection

pub data CronError : Type 0 where
  cron_error : CronError

abbrev pub min_interval : ℕ
min_interval = 60

abbrev pub is_set : Stamp → Bool
is_set unset = false
is_set s = true

abbrev pub interval_set : Option ℤ → Bool
interval_set (some (negsuc n)) = true
interval_set (some (pos n)) = ltb 0 n
interval_set none = false

abbrev pub cron_set : Option String → Bool
cron_set none = false
cron_set (some cron) = true

abbrev pub count : Bool → ℕ
count true = 1
count false = 0

-- `len(set_types)`
abbrev pub types_set : Row → ℕ
types_set row =
    count (is_set row.schedule_at)
    + count (interval_set row.schedule_interval)
    + count (cron_set row.schedule_cron)

abbrev pub interval_short : Option ℤ → Bool
interval_short none = false
interval_short (some (pos n)) = ltb n min_interval
interval_short (some (negsuc n)) = true

-- What `schedule_at` is refused for; the past is refused only where the schedule was just set.
abbrev pub at_rejection : Stamp → Bool → ℕ → Option Rejection
at_rejection unset respecified now = none
at_rejection malformed respecified now = some invalid_datetime
at_rejection (instant t) respecified now =
    if respecified && leb t now then some in_the_past else none

-- `now + timedelta(seconds=interval)`
abbrev pub shift : ℕ → ℤ → ℕ
shift now (pos n) = now + n
shift now (negsuc n) = now - suc n

-- `cron_is_valid` is whether `croniter(cron, now).get_next` returns, and `cron_next` what it returns
-- on the server's clock, where it does not raise. An empty expression is no expression.
module _ (cron_is_valid : String → ℕ → Bool) (cron_next : String → ℕ → Option ℕ) where
  abbrev pub cron_refused : Option String → ℕ → Bool
  cron_refused none now = false
  cron_refused (some cron) now = not (cron_is_valid cron now)

  unfoldable pub validate_schedule : Row → Bool → ℕ → Option Rejection
  validate_schedule row respecified now =
      if ltb 1 (types_set row)
      then some more_than_one
      else if interval_short row.schedule_interval
      then some interval_too_short
      else if cron_refused row.schedule_cron now
      then some invalid_cron
      else at_rejection row.schedule_at respecified now

  abbrev pub next_of_cron : Option String → ℕ → Result CronError Stamp
  next_of_cron none now = ok unset
  next_of_cron (some cron) now = elim (cron_next cron now) [
    | none ↦ err cron_error
    | some t ↦ ok (instant t)
  ]

  abbrev pub next_of_interval : Option ℤ → Option String → ℕ → Result CronError Stamp
  next_of_interval none cron now = next_of_cron cron now
  next_of_interval (some interval) cron now =
      if interval_set (some interval)
      then ok (instant (shift now interval))
      else next_of_cron cron now

  unfoldable pub compute_next_run : Row → ℕ → Result CronError Stamp
  compute_next_run row now = elim row.schedule_at [
    | unset ↦ next_of_interval row.schedule_interval row.schedule_cron now
    | s ↦ ok s
  ]
