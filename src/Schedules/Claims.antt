-- ===== src/Schedules/Claims.antt =====
-- cognitrix/tasks/scheduler.py: one task in `tick`. The task is read, claimed by an UPDATE that
-- compares `next_run_at`, started, and given back where it could not be started.
use cognitrix.Prelude.{
  ℕ, String, Bool, true, false, not, ◌&&◌, ◌||◌, Option, none, some, ltb, ◌==◌, if◌then◌else◌,
  Result, ok, err,
}
use cognitrix.Schedules.{Stamp, unset, malformed, instant, Row, is_set, CronError, compute_next_run}

-- The instant for which a task is due, as `tick` reads it.
unfoldable pub due : ℕ → Row → Option ℕ
due now row = if not row.schedule_enabled || row.deleted then none else elim row.next_run_at [
  | unset ↦ none
  | malformed ↦ none
  | instant t ↦ if ltb now t then none else some t
]

-- The dictionary `claim`, with the `next_run_at` that it takes the place of.
pub record Claim : Type 0 where
  pub prev : ℕ
  pub next_run_at : Stamp
  pub one_shot : Bool

abbrev pub same_stamp : Stamp → Stamp → Bool
same_stamp (instant t) (instant u) = t == u
same_stamp unset unset = true
same_stamp malformed malformed = true
same_stamp s t = false

abbrev pub recurring_claim : ℕ → Result CronError Stamp → Option Claim
recurring_claim prev (err e) = none
recurring_claim prev (ok next) = some (record { prev = prev; next_run_at = next; one_shot = false })

module _ (cron_is_valid : String → ℕ → Bool) (cron_next : String → ℕ → Option ℕ) where
  abbrev pub claim_due : Row → ℕ → Option ℕ → Option Claim
  claim_due observed now none = none
  claim_due observed now (some prev) =
      if is_set observed.schedule_at
      then some (record { prev = prev; next_run_at = unset; one_shot = true })
      else recurring_claim prev (compute_next_run cron_is_valid cron_next observed now)

  -- What `tick` decides to write from the task as it read it.
  unfoldable pub claim_of : ℕ → Row → Option Claim
  unfolding due
  claim_of now observed = claim_due observed now (due now observed)

-- `Task.update_one({'id': ..., 'next_run_at': ...}, claim)`
unfoldable pub claim_task : Claim → Row → Row × ℕ
claim_task claim row =
    if same_stamp row.next_run_at (instant claim.prev)
    then (
      record row {
        next_run_at = claim.next_run_at;
        schedule_enabled = if claim.one_shot then false else row.schedule_enabled;
      },
      1,
    )
    else (row, 0)

-- How `_enqueue_task_start` ends: it returns; it raises a conflict with an active run; or it raises
-- anything else, before a run was created, or with a run that was created but not published, or with
-- a run that was published, as where `attach_queue_job_id` raises.
pub data EnqueueEnd : Type 0 where
  enqueued conflict failed_without_run failed_unpublished failed_published : EnqueueEnd

-- An exception gives the claim back, except an overlap of a recurring task; `tick` does not see
-- whether a run was created or published before it.
abbrev pub gives_back : Claim → EnqueueEnd → Bool
gives_back claim enqueued = false
gives_back claim conflict = claim.one_shot
gives_back claim failed_without_run = true
gives_back claim failed_unpublished = true
gives_back claim failed_published = true

-- `claim_cond`: the values of the claim that are not null. A one-shot claim is off, and has no next.
abbrev pub claim_cond : Claim → Row → Bool
claim_cond claim row =
    (not (is_set claim.next_run_at) || same_stamp row.next_run_at claim.next_run_at)
    && (not claim.one_shot || not row.schedule_enabled)

-- `Task.update_one(claim_cond, prev)`
unfoldable pub revert_update : Claim → Row → Row × ℕ
revert_update claim row =
    if claim_cond claim row
    then (record row { next_run_at = instant claim.prev; schedule_enabled = true }, 1)
    else (row, 0)

unfoldable pub after_enqueue : Claim → EnqueueEnd → Row → Row
unfolding revert_update
after_enqueue claim end row = if gives_back claim end then (revert_update claim row).0 else row

-- The other writers of these columns: `toggle_schedule` with `enabled` false, and the deletion.
unfoldable pub pause_schedule : Row → Row
pause_schedule row = record row { schedule_enabled = false; next_run_at = unset }

unfoldable pub delete_task : Row → Row
delete_task row = record row { deleted = true; schedule_enabled = false; next_run_at = unset }
