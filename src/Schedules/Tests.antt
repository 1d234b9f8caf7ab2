-- ===== src/Schedules/Tests.antt =====
-- Concrete runs of the scheduler. The cron expression here is due at every full hour.
use cognitrix.Prelude.{
  ℕ, ◌+◌, ◌*◌, ◌/◌, ◌<◌, ◌≡◌, ◌≢◌, refl, String, Bool, true, false, Option, none, some, pos, ok,
  arith,
}
use cognitrix.Schedules.{
  types_set, unset, instant, Row, in_the_past, interval_too_short, more_than_one, validate_schedule,
  compute_next_run,
}
use cognitrix.Schedules.Claims.{
  Claim, due, claim_of, claim_task, enqueued, failed_published, after_enqueue, pause_schedule,
}
use cognitrix.Schedules.History.{World, set_turn, Steps, stay, then_step, claim, finish}
use cognitrix.Schedules.Valid.{LiesAhead, accepted_schedule-LiesAhead}
use cognitrix.Schedules.Once.{instants_held_once}
use cognitrix.Schedules.Paused.{pause_against_failed_start}

abbrev any_cron : String → ℕ → Bool
any_cron cron now = true

abbrev full_hour : String → ℕ → Option ℕ
full_hour cron now = some ((now / 3600 + 1) * 3600)

full_hour-later : (cron : String) (now t : ℕ) → full_hour cron now ≡ some t → now < t
full_hour-later cron now t e = let same : (now / 3600 + 1) * 3600 ≡ t = cc e in omega (arith, same)

abbrev hourly : Row
hourly = record {
  deleted = false;
  schedule_at = unset;
  schedule_interval = none;
  schedule_cron = some "0 * * * *";
  next_run_at = instant 3600;
  schedule_enabled = true;
}

abbrev once : Row
once = record hourly { schedule_at = instant 3600; schedule_cron = none }

hourly-accepted : validate_schedule any_cron full_hour hourly true 0 ≡ none
unfolding validate_schedule
hourly-accepted = refl

once-too_late : validate_schedule any_cron full_hour once true 3600 ≡ some in_the_past
unfolding validate_schedule
once-too_late = refl

hourly_and_once-refused :
    validate_schedule any_cron full_hour (record hourly { schedule_at = instant 9 }) true 0
    ≡ some more_than_one
unfolding validate_schedule
hourly_and_once-refused = refl

every_minute-short :
    validate_schedule any_cron full_hour (record hourly { schedule_interval = some (pos 0) }) true 0
    ≡ some interval_too_short
unfolding validate_schedule
every_minute-short = refl

hourly-first : compute_next_run any_cron full_hour hourly 0 ≡ ok (instant 3600)
unfolding compute_next_run
hourly-first = refl

hourly-next : compute_next_run any_cron full_hour hourly 3601 ≡ ok (instant 7200)
unfolding compute_next_run
hourly-next = refl

accepted_schedule-LiesAhead_example :
    (types_set hourly ≡ 1) × LiesAhead any_cron full_hour full_hour-later 0 (instant 3600)
accepted_schedule-LiesAhead_example =
    accepted_schedule-LiesAhead any_cron full_hour full_hour-later hourly 0 (instant 3600)
      hourly-accepted (omega arith) hourly-first

hourly-not_due : due 3599 hourly ≡ none
unfolding due
hourly-not_due = refl

-- Two ticks claim the same task one after the other; the second start waits.
abbrev first : Claim
first = record { prev = 3600; next_run_at = instant 7200; one_shot = false }

abbrev second : Claim
second = record { prev = 7200; next_run_at = instant 10800; one_shot = false }

abbrev after_first : World
after_first = record {
  row = record hourly { next_run_at = instant 7200 };
  turns = set_turn 0 (some (record { claim = first; start = none })) (λ id. none);
}

abbrev after_second : World
after_second = record {
  row = record hourly { next_run_at = instant 10800 };
  turns = set_turn 1 (some (record { claim = second; start = none })) after_first.turns;
}

abbrev first_started : World
first_started = record after_second {
  turns = set_turn 0 (some (record { claim = first; start = some enqueued })) after_second.turns;
}

history :
    Steps any_cron full_hour hourly (record { row = hourly; turns = λ id. none }) first_started
unfolding claim_of compute_next_run claim_task after_enqueue due
history =
    then_step
      (then_step (then_step stay (claim 0 3605 hourly first (refl, refl, refl) refl refl refl))
        (claim 1 7205 after_first.row second (refl, refl, refl) refl refl refl))
      (finish 0 first enqueued refl)

instants_held_once_example : first.prev ≢ second.prev
instants_held_once_example =
    instants_held_once any_cron full_hour full_hour-later hourly 0 true hourly-accepted
      (omega arith) hourly first_started 0 1 (record { claim = first; start = some enqueued })
      (record { claim = second; start = none }) history (λ e. omega (arith, e)) refl refl

abbrev shot : Claim
shot = record { prev = 3600; next_run_at = unset; one_shot = true }

pause_against_failed_start_example :
    (true ≡ false → after_enqueue shot failed_published (pause_schedule once) ≡ pause_schedule once)
    × (true ≡ true
        → after_enqueue shot failed_published (pause_schedule once)
          ≡ record once { next_run_at = instant 3600; schedule_enabled = true })
pause_against_failed_start_example = pause_against_failed_start shot failed_published once refl refl
