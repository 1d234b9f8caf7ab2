-- ===== src/Runs/EventChange.antt =====
-- What a successful write does to the events of a run, for every method of the repository.
use Prim.Native.String.{String}
use cognitrix.Prelude.{
  ℕ, ◌+◌, ◌≡◌, ◌⊎◌, inl, inr, refl, Bool, Option, none, some, List, [], ◌∷◌, ◌++◌, arith,
}
use cognitrix.Runs.{TaskRun, TaskRunStatus, LeaseClaim, Event, envelope_after}
use cognitrix.Runs.Lease.{
  claim, claim_update, heartbeat, persist_usage, RunUpdates, mutate, mutate_patch,
}
use cognitrix.Runs.Terminal.{
  RecoveryAction, recover_update, recover_terminal, recover_by, cancel, cancel_update,
}
use cognitrix.Runs.Outbox.{
  acknowledge, attach_queue_job_id, claim_notification, finish_notification, finish_update, tail_of,
}
use cognitrix.Runs.Change.{Guarantee, try_write-Guarantee}

-- The events stay, or the first of the outbox is acknowledged, or one more is appended under the
-- sequence number that follows.
abbrev pub EventChange : TaskRun → TaskRun → Type 0
EventChange r r' =
    (r'.next_event_sequence ≡ r.next_event_sequence) × (r'.event_outbox ≡ r.event_outbox)
    ⊎ (r'.next_event_sequence ≡ r.next_event_sequence) × (r'.event_outbox ≡ tail_of r.event_outbox)
    ⊎ (event : Event) × (r'.next_event_sequence ≡ r.next_event_sequence + 1)
      × (r'.event_outbox ≡ r.event_outbox ++ envelope_after r event ∷ [])

pub claim-EventChange :
    (owner : String) (lease : ℕ) (run : TaskRun) → Guarantee EventChange run (claim owner lease run)
unfolding claim claim_update
claim-EventChange owner lease run =
    try_write-Guarantee EventChange run _ _ _ (λ g clock h. inl (refl, refl))

pub heartbeat-EventChange :
    (c : LeaseClaim) (lease : ℕ) (run : TaskRun) → Guarantee EventChange run (heartbeat c lease run)
unfolding heartbeat
heartbeat-EventChange c lease run =
    try_write-Guarantee EventChange run _ _ _ (λ g clock h. inl (refl, refl))

pub usage-EventChange :
    (merge : String → String) (c : LeaseClaim) (run : TaskRun)
    → Guarantee EventChange run (persist_usage merge c run)
unfolding persist_usage
usage-EventChange merge c run =
    try_write-Guarantee EventChange run _ _ _ (λ g clock h. inl (refl, refl))

pub acknowledge-EventChange : (run : TaskRun) → Guarantee EventChange run (acknowledge run)
unfolding acknowledge
acknowledge-EventChange run =
    try_write-Guarantee EventChange run _ _ _ (λ g clock h. inr (inl (refl, refl)))

pub attach-EventChange :
    (job_id : String) (run : TaskRun) → Guarantee EventChange run (attach_queue_job_id job_id run)
unfolding attach_queue_job_id
attach-EventChange job_id run =
    try_write-Guarantee EventChange run _ _ _ (λ g clock h. inl (refl, refl))

pub claim_notification-EventChange :
    (owner : String) (lease now : ℕ) (run : TaskRun)
    → Guarantee EventChange run (claim_notification owner lease now run)
unfolding claim_notification
claim_notification-EventChange owner lease now run =
    try_write-Guarantee EventChange run _ _ _ (λ g clock h. inl (refl, refl))

pub finish_notification-EventChange :
    (owner : String) (success : Bool) (now : ℕ) (run : TaskRun)
    → Guarantee EventChange run (finish_notification owner success now run)
unfolding finish_notification finish_update
finish_notification-EventChange owner success now run =
    try_write-Guarantee EventChange run _ _ _ (λ g clock h. ground arith)

pub mutate-EventChange :
    (c : Option LeaseClaim) (updates : RunUpdates) (expected : Option (List TaskRunStatus))
    (event : Option Event) (run : TaskRun)
    → Guarantee EventChange run (mutate c updates expected event run)
unfolding mutate mutate_patch
mutate-EventChange c updates expected none run =
    try_write-Guarantee EventChange run _ _ _ (λ g now h. inl (refl, refl))
mutate-EventChange c updates expected (some event) run =
    try_write-Guarantee EventChange run _ _ _ (λ g now h. inr (inr (event, refl, refl)))

pub recover_by-EventChange :
    (action : Option RecoveryAction) (now timeout : ℕ) (run : TaskRun)
    → Guarantee EventChange run (recover_by action now timeout run)
unfolding recover_terminal recover_update
recover_by-EventChange none now timeout run = tt
recover_by-EventChange (some action) now timeout run =
    try_write-Guarantee EventChange run _ _ _ (λ g clock h. inr (inr (_, refl, refl)))

pub cancel-EventChange :
    (force queued_only : Bool) (reason : String) (grace now : ℕ) (run : TaskRun)
    → Guarantee EventChange run (cancel force queued_only reason grace now run)
unfolding cancel cancel_update
cancel-EventChange force queued_only reason grace now run =
    try_write-Guarantee EventChange run _ _ _ (λ g clock h. inr (inr (_, refl, refl)))
