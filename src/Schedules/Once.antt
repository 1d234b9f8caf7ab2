-- ===== src/Schedules/Once.antt =====
-- The claims of any number of ticks on one schedule (cognitrix/tasks/scheduler.py).
use cognitrix.Prelude.{
  ◌+◌, ℤ, ℕ, ◌≤◌, ◌<◌, ◌≡◌, ◌≢◌, refl, subst, inl, inr, String, Bool, true, false, not, ◌||◌,
  Option, none, some, ltb, Option-cases, if◌then◌else◌, Result, ok, err, arith,
}
use cognitrix.Schedules.{
  Stamp, unset, malformed, instant, Row, is_set, interval_set, cron_set, interval_short, count,
  next_of_interval, CronError, compute_next_run, validate_schedule, types_set,
}
use cognitrix.Schedules.Claims.{due, Claim, claim_of, pause_schedule, delete_task, recurring_claim}
use cognitrix.Schedules.Valid.{recurring_ahead, accepted_is_long}
use cognitrix.Schedules.History.{
  Turn, World, SameSchedule, Step, claim, finish, paused, deleted_task, Steps, stay, then_step,
}
use cognitrix.Schedules.Disjoint.{Before, IsAhead, Apart, IsDisjoint}
use cognitrix.Schedules.Turns.{claim-IsDisjoint, finish-IsDisjoint, unset-IsDisjoint}

abbrev ClaimIsAhead : Claim → Type 0
ClaimIsAhead c = IsAhead c.prev c.next_run_at c.one_shot

one_shot_ahead :
    (prev : ℕ) (c : Claim)
    → some (record { prev = prev; next_run_at = unset; one_shot = true }) ≡ some c
    → ClaimIsAhead c
one_shot_ahead prev c e =
    let built : Claim = record { prev = prev; next_run_at = unset; one_shot = true } in
    let same : built ≡ c = cc e in subst ClaimIsAhead same refl

recurring_claim_ahead :
    (prev now : ℕ) (r : Result CronError Stamp) (c : Claim)
    → prev ≤ now
    → ((next : Stamp) → r ≡ ok next → (t : ℕ) × (next ≡ instant t) × (now < t))
    → recurring_claim prev r ≡ some c
    → ClaimIsAhead c
recurring_claim_ahead prev now (err x) c p ahead e = absurd (cc e)
recurring_claim_ahead prev now (ok next) c p ahead e =
    let (t, is, after) = ahead next refl in
    let built : Claim = record { prev = prev; next_run_at = instant t; one_shot = false } in
    let same : built ≡ c = cc (is, e) in subst ClaimIsAhead same (omega (arith, p, after), refl)

due_stamp :
    (now : ℕ) (next : Stamp) (prev : ℕ) (off : Bool)
    → (if off then none else elim next [
      | unset ↦ none
      | malformed ↦ none
      | instant t ↦ if ltb now t then none else some t
    ])
      ≡ some prev
    → prev ≤ now
due_stamp now next prev true e = absurd (cc e)
due_stamp now unset prev false e = absurd (cc e)
due_stamp now malformed prev false e = absurd (cc e)
due_stamp now (instant t) prev false e = ground arith

due-passed : (now : ℕ) (row : Row) (prev : ℕ) → due now row ≡ some prev → prev ≤ now
unfolding due
due-passed now row prev e =
    due_stamp now row.next_run_at prev (not row.schedule_enabled || row.deleted) e

Before-ahead :
    (prev p : ℕ) (next : Stamp) (one_shot : Bool)
    → IsAhead prev next one_shot
    → Before next p
    → prev < p
Before-ahead prev p unset one_shot a b = absurd b
Before-ahead prev p malformed one_shot a b = absurd b
Before-ahead prev p (instant u) one_shot a b = omega (arith, a.0)

Apart-distinct : (a b : Claim) → ClaimIsAhead a → ClaimIsAhead b → Apart a b → a.prev ≢ b.prev
Apart-distinct a b x y (inl before) =
    let less = Before-ahead a.prev b.prev a.next_run_at a.one_shot x before in
    λ e. omega (arith, less, e)
Apart-distinct a b x y (inr before) =
    let less = Before-ahead b.prev a.prev b.next_run_at b.one_shot y before in
    λ e. omega (arith, less, e)

module _ (cron_is_valid : String → ℕ → Bool) (cron_next : String → ℕ → Option ℕ)
    (later : (cron : String) (now t : ℕ) → cron_next cron now ≡ some t → now < t) (plan : Row)
    (checked : ℕ) (respecified : Bool)
    (accepted : validate_schedule cron_is_valid cron_next plan respecified checked ≡ none)
    (given : 1 ≤ types_set plan) where
  claimed-IsAhead :
      (now prev : ℕ) (at : Stamp) (interval : Option ℤ) (cron : Option String) (c : Claim)
      → prev ≤ now
      → interval_short interval ≡ false
      → 1 ≤ count (is_set at) + count (interval_set interval) + count (cron_set cron)
      → (if is_set at
          then some (record { prev = prev; next_run_at = unset; one_shot = true })
          else recurring_claim prev (elim at [
            | unset ↦ next_of_interval cron_is_valid cron_next interval cron now
            | s ↦ ok s
          ]))
        ≡ some c
      → IsAhead c.prev c.next_run_at c.one_shot
  claimed-IsAhead now prev malformed interval cron c p short n e = one_shot_ahead prev c e
  claimed-IsAhead now prev (instant t) interval cron c p short n e = one_shot_ahead prev c e
  claimed-IsAhead now prev unset interval cron c p short n e =
      recurring_claim_ahead prev now (next_of_interval cron_is_valid cron_next interval cron now) c
        p
        (λ next r.
          recurring_ahead cron_is_valid cron_next later interval cron now next short
            (λ f. ground arith) r)
        e

  claim_of-IsAhead :
      (now : ℕ) (observed : Row) (c : Claim)
      → SameSchedule observed plan
      → claim_of cron_is_valid cron_next now observed ≡ some c
      → ClaimIsAhead c
  unfolding claim_of compute_next_run
  claim_of-IsAhead now observed c (at, interval, cron) e = elim (Option-cases (due now observed)) [
    | inl n ↦ absurd (cc (rw (claim_of, n) at e))
    | inr (prev, d) ↦
        claimed-IsAhead now prev observed.schedule_at observed.schedule_interval
          observed.schedule_cron c (due-passed now observed prev d)
          (rw interval
            (accepted_is_long cron_is_valid cron_next later plan respecified checked accepted))
          (rw (at, interval, cron) given) (rw (claim_of, d) at e)
  ]

  Step-IsDisjoint :
      (w w' : World) → Step cron_is_valid cron_next plan w w' → IsDisjoint w → IsDisjoint w'
  unfolding pause_schedule delete_task
  Step-IsDisjoint w w' (claim id now observed c same free e won) h =
      claim-IsDisjoint w id c (claim_of-IsAhead now observed c same e) free won h
  Step-IsDisjoint w w' (finish id c end e) h = finish-IsDisjoint w id c end e h
  Step-IsDisjoint w w' paused h = unset-IsDisjoint w (pause_schedule w.row) refl h
  Step-IsDisjoint w w' deleted_task h = unset-IsDisjoint w (delete_task w.row) refl h

  Steps-IsDisjoint :
      (w w' : World) → Steps cron_is_valid cron_next plan w w' → IsDisjoint w → IsDisjoint w'
  Steps-IsDisjoint w w' stay h = h
  Steps-IsDisjoint w w' (then_step {b = mid} steps step) h =
      Step-IsDisjoint mid w' step (Steps-IsDisjoint w mid steps h)

  -- From a task without claims, with a schedule of some type that `validate_schedule` has accepted
  -- and that is neither edited nor resumed: whatever ticks run at the same time, on reads as old as
  -- they like, no two claims that are not given back took the same instant, if croniter's answers
  -- come after the instant that they are asked for. Not given back is a claim whose start is on its
  -- way or has returned, or was skipped for a conflict of a recurring task; a start that raises
  -- otherwise gives its claim back, also where it had already created or published a run.
  pub instants_held_once :
      (row : Row) (w : World) (i j : ℕ) (a b : Turn)
      → Steps cron_is_valid cron_next plan (record { row = row; turns = λ id. none }) w
      → i ≢ j
      → w.turns i ≡ some a
      → w.turns j ≡ some b
      → a.claim.prev ≢ b.claim.prev
  instants_held_once row w i j a b steps n p q =
      let h =
        Steps-IsDisjoint (record { row = row; turns = λ id. none }) w steps
          ((λ id x e. absurd (cc e)), λ i j a b n p. absurd (cc p)) in
      Apart-distinct a.claim b.claim (h.0 i a p).0 (h.0 j b q).0 (h.1 i j a b n p q)
