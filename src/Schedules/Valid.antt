-- ===== src/Schedules/Valid.antt =====
-- A schedule that was accepted has a next run, and that lies ahead (cognitrix/tasks/scheduler.py).
use cognitrix.Prelude.{
  ℕ, ◌≤◌, ◌<◌, ◌+◌, ◌≡◌, refl, inl, inr, String, Bool, true, false, Option, none, some, ltb,
  Option-cases, if◌then◌else◌, ℤ, pos, negsuc, ok, arith,
}
use cognitrix.Schedules.{
  Stamp, unset, malformed, instant, Row, Rejection, more_than_one, interval_too_short, invalid_cron,
  interval_set, interval_short, cron_set, cron_refused, types_set, count, is_set, at_rejection,
  validate_schedule, compute_next_run, next_of_interval, next_of_cron,
}

checks_passed :
    (a b c : Bool) (o : Option Rejection) (x y z : Rejection)
    → (if a then some x else if b then some y else if c then some z else o) ≡ none
    → (a ≡ false) × (b ≡ false) × (o ≡ none)
checks_passed true b c o x y z e = absurd (cc e)
checks_passed false true c o x y z e = absurd (cc e)
checks_passed false false true o x y z e = absurd (cc e)
checks_passed false false false o x y z e = (refl, refl, e)

module _ (cron_is_valid : String → ℕ → Bool) (cron_next : String → ℕ → Option ℕ)
    (later : (cron : String) (now t : ℕ) → cron_next cron now ≡ some t → now < t) where
  abbrev pub LiesAhead : ℕ → Stamp → Type 0
  LiesAhead now next = (t : ℕ) × (next ≡ instant t) × (now < t)

  cron_ahead :
      (cron : Option String) (now : ℕ) (next : Stamp)
      → cron_set cron ≡ true
      → next_of_cron cron_is_valid cron_next cron now ≡ ok next
      → LiesAhead now next
  cron_ahead none now next s e = absurd (cc s)
  cron_ahead (some cron) now next s e = elim (Option-cases (cron_next cron now)) [
    | inl n ↦ absurd (cc (rw (next_of_cron, n) at e))
    | inr (t, n) ↦ (t, cc (rw (next_of_cron, n) at e), later cron now t n)
  ]

  -- A recurring schedule goes on to a later instant.
  pub recurring_ahead :
      (interval : Option ℤ) (cron : Option String) (now : ℕ) (next : Stamp)
      → interval_short interval ≡ false
      → (interval_set interval ≡ false → cron_set cron ≡ true)
      → next_of_interval cron_is_valid cron_next interval cron now ≡ ok next
      → LiesAhead now next
  recurring_ahead none cron now next short given e = cron_ahead cron now next (given refl) e
  recurring_ahead (some (negsuc n)) cron now next short given e = absurd (cc short)
  recurring_ahead (some (pos n)) cron now next short given e =
      let long : 60 ≤ n = ground arith in
      let set : ltb 0 n ≡ true = ground arith in (now + n, cc (rw set at e), omega arith)

  module _ (row : Row) (respecified : Bool) (checked : ℕ)
      (accepted : validate_schedule cron_is_valid cron_next row respecified checked ≡ none) where
    checks :
        (ltb 1 (types_set row) ≡ false)
        × (interval_short row.schedule_interval ≡ false)
        × (at_rejection row.schedule_at respecified checked ≡ none)
    unfolding validate_schedule
    checks =
        checks_passed (ltb 1 (types_set row)) (interval_short row.schedule_interval)
          (cron_refused cron_is_valid cron_next row.schedule_cron checked)
          (at_rejection row.schedule_at respecified checked) more_than_one interval_too_short
          invalid_cron accepted

    pub accepted_is_long : interval_short row.schedule_interval ≡ false
    accepted_is_long = checks.1

    accepted_has_one_type : types_set row ≤ 1
    accepted_has_one_type = let few = checks.0 in ground arith

  next_ahead :
      (at : Stamp) (interval : Option ℤ) (cron : Option String) (now : ℕ) (next : Stamp)
      → interval_short interval ≡ false
      → at_rejection at true now ≡ none
      → 1 ≤ count (is_set at) + count (interval_set interval) + count (cron_set cron)
      → elim at [ unset ↦ next_of_interval cron_is_valid cron_next interval cron now | s ↦ ok s ]
        ≡ ok next
      → LiesAhead now next
  next_ahead malformed interval cron now next short at given e = absurd (cc at)
  next_ahead (instant t) interval cron now next short at given e = (t, cc e, ground arith)
  next_ahead unset interval cron now next short at given e =
      recurring_ahead interval cron now next short (λ none_set. ground arith) e

  -- A schedule of some type that `validate_schedule` accepts at the moment at which it is set has one
  -- type only, and its next run, where the computation does not raise, is an instant after that
  -- moment, if croniter's answers come after the instant that they are asked for.
  pub accepted_schedule-LiesAhead :
      (row : Row) (now : ℕ) (next : Stamp)
      → validate_schedule cron_is_valid cron_next row true now ≡ none
      → 1 ≤ types_set row
      → compute_next_run cron_is_valid cron_next row now ≡ ok next
      → (types_set row ≡ 1) × LiesAhead now next
  unfolding compute_next_run
  accepted_schedule-LiesAhead row now next accepted given e =
      let one = accepted_has_one_type row true now accepted in
      (
        omega (arith, one, given),
        let (few, long, at) = checks row true now accepted in
            next_ahead row.schedule_at row.schedule_interval row.schedule_cron now next long at
              given e,
      )
