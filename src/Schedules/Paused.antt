-- ===== src/Schedules/Paused.antt =====
-- A pause while a claimed start is on its way (cognitrix/tasks/scheduler.py, and `toggle_schedule` of
-- cognitrix/api/routes/tasks.py).
use cognitrix.Prelude.{ℕ, ◌≡◌, refl, Bool, true, false}
use cognitrix.Schedules.{Stamp, unset, malformed, instant, Row}
use cognitrix.Schedules.Claims.{
  Claim, EnqueueEnd, gives_back, revert_update, after_enqueue, pause_schedule,
}
use cognitrix.Schedules.Disjoint.{IsAhead}

reverted_pause :
    (prev : ℕ) (next : Stamp) (one_shot : Bool) (row : Row)
    → IsAhead prev next one_shot
    → (one_shot ≡ false
        → (revert_update
            (record { prev = prev; next_run_at = next; one_shot = one_shot })
            (pause_schedule row)).0
          ≡ pause_schedule row)
      × (one_shot ≡ true
          → (revert_update
              (record { prev = prev; next_run_at = next; one_shot = one_shot })
              (pause_schedule row)).0
            ≡ record row { next_run_at = instant prev; schedule_enabled = true })
unfolding revert_update pause_schedule
reverted_pause prev unset true row a = (λ e. absurd (cc e), λ e. refl)
reverted_pause prev unset false row a = absurd (cc a)
reverted_pause prev malformed one_shot row a = absurd a
reverted_pause prev (instant u) true row a = absurd (cc a.1)
reverted_pause prev (instant u) false row a = (λ e. refl, λ e. absurd (cc e))

-- Where a start that gives its claim back ends after its task was paused, a recurring schedule stays
-- paused, but a one-shot schedule is on again and due at the instant that was claimed.
pub pause_against_failed_start :
    (c : Claim) (end : EnqueueEnd) (row : Row)
    → IsAhead c.prev c.next_run_at c.one_shot
    → gives_back c end ≡ true
    → (c.one_shot ≡ false → after_enqueue c end (pause_schedule row) ≡ pause_schedule row)
      × (c.one_shot ≡ true
          → after_enqueue c end (pause_schedule row)
            ≡ record row { next_run_at = instant c.prev; schedule_enabled = true })
unfolding after_enqueue
pause_against_failed_start c end row a back =
    rw back (reverted_pause c.prev c.next_run_at c.one_shot row a)
