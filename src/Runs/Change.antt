-- ===== src/Runs/Change.antt =====
-- What a successful write does to the row that was read, for every method of the repository.
use Prim.Native.String.{String}
use cognitrix.Prelude.{ℕ, suc, ◌≡◌, ◌≢◌, ◌⊎◌, refl, Bool, true, Option, none, some, List, arith}
use cognitrix.Runs.{
  TaskRun, TaskRunStatus, queued, running, LeaseClaim, Event, is_terminal, is_leased,
}
use cognitrix.Runs.Cas.{Update, Attempt, return, raise, write, Outcome, returned, raised, try_write}
use cognitrix.Runs.Lease.{
  claim, claim_guard, claim_update, heartbeat, persist_usage, lease_guard, heartbeat_guard,
  RunUpdates, mutate, mutate_guard, mutate_patch,
}
use cognitrix.Runs.Terminal.{
  RecoveryAction, recover_guard, recover_update, recover_terminal, recover_by, cancel, cancel_guard,
  cancel_update,
}
use cognitrix.Runs.Outbox.{
  acknowledge, attach_queue_job_id, claim_notification, finish_notification, finish_update,
}

-- A relation between the rows before and after, that the writes of an attempt keep to.
abbrev pub Guarantee : {A : Type 0} → (TaskRun → TaskRun → Type 0) → TaskRun → Attempt A → Type 0
Guarantee G run (return a) = Unit
Guarantee G run (raise e) = Unit
Guarantee G run (write u a) = (now : ℕ) → u.where_clause now run ≡ true → G run (u.assign now run)

pub try_write-Guarantee :
    {A : Type 0} (G : TaskRun → TaskRun → Type 0) (run : TaskRun) (guard : Option (Outcome A))
    (u : Update) (a : A)
    → (guard ≡ none → Guarantee G run (write u a))
    → Guarantee G run (try_write guard u a)
try_write-Guarantee G run none u a h = h refl
try_write-Guarantee G run (some (returned b)) u a h = tt
try_write-Guarantee G run (some (raised e)) u a h = tt

-- What the end of a run settles for good.
pub record Frozen (r r' : TaskRun) : Type 0 where
  pub status : r'.status ≡ r.status
  pub outputs : r'.outputs ≡ r.outputs
  pub error_code : r'.error_code ≡ r.error_code
  pub error : r'.error ≡ r.error
  pub completed_at : r'.completed_at ≡ r.completed_at
  pub lease_owner : r'.lease_owner ≡ r.lease_owner
  pub lease_generation : r'.lease_generation ≡ r.lease_generation
  pub next_event_sequence : r'.next_event_sequence ≡ r.next_event_sequence

-- The lease stays, or a queued run is claimed, or a leased run is ended over its worker's head.
abbrev pub LeaseMove : TaskRun → TaskRun → Type 0
LeaseMove r r' =
    (r'.lease_owner ≡ r.lease_owner) × (r'.lease_generation ≡ r.lease_generation)
    ⊎ (r.status ≡ queued) × (r'.status ≡ running) × (r'.lease_generation ≡ suc r.lease_generation)
    ⊎ (is_leased r.status ≡ true)
      × (is_terminal r'.status ≡ true)
      × (r'.lease_generation ≡ suc r.lease_generation)

pub record LifeChange (r r' : TaskRun) : Type 0 where
  pub id : r'.id ≡ r.id
  pub queue : r'.status ≡ queued → r.status ≡ queued
  pub ended : is_terminal r.status ≡ true → Frozen r r'
  pub lease : LeaseMove r r'

pub claim-LifeChange :
    (owner : String) (lease : ℕ) (run : TaskRun) → Guarantee LifeChange run (claim owner lease run)
unfolding claim claim_guard claim_update
claim-LifeChange owner lease run =
    try_write-Guarantee LifeChange run _ _ _ (λ g now h. ground arith)

pub mutate-LifeChange :
    (c : Option LeaseClaim) (updates : RunUpdates) (expected : Option (List TaskRunStatus))
    (event : Option Event) (run : TaskRun)
    → updates.status ≢ some queued
    → Guarantee LifeChange run (mutate c updates expected event run)
unfolding mutate mutate_guard mutate_patch
mutate-LifeChange c updates expected event run sane =
    try_write-Guarantee LifeChange run _ _ _ (λ g now h. ground arith)

pub cancel-LifeChange :
    (force queued_only : Bool) (reason : String) (grace now : ℕ) (run : TaskRun)
    → Guarantee LifeChange run (cancel force queued_only reason grace now run)
unfolding cancel cancel_guard cancel_update
cancel-LifeChange force queued_only reason grace now run =
    try_write-Guarantee LifeChange run _ _ _ (λ g clock h. ground arith)

pub heartbeat-LifeChange :
    (c : LeaseClaim) (lease : ℕ) (run : TaskRun) → Guarantee LifeChange run (heartbeat c lease run)
unfolding heartbeat heartbeat_guard lease_guard
heartbeat-LifeChange c lease run =
    try_write-Guarantee LifeChange run _ _ _ (λ g now h. ground arith)

pub usage-LifeChange :
    (merge : String → String) (c : LeaseClaim) (run : TaskRun)
    → Guarantee LifeChange run (persist_usage merge c run)
unfolding persist_usage lease_guard
usage-LifeChange merge c run = try_write-Guarantee LifeChange run _ _ _ (λ g now h. ground arith)

pub recover_terminal-LifeChange :
    (action : RecoveryAction) (now timeout : ℕ) (run : TaskRun)
    → Guarantee LifeChange run (recover_terminal action now timeout run)
unfolding recover_terminal recover_guard recover_update
recover_terminal-LifeChange action now timeout run =
    try_write-Guarantee LifeChange run _ _ _ (λ g clock h. ground arith)

pub recover_by-LifeChange :
    (action : Option RecoveryAction) (now timeout : ℕ) (run : TaskRun)
    → Guarantee LifeChange run (recover_by action now timeout run)
recover_by-LifeChange none now timeout run = tt
recover_by-LifeChange (some action) now timeout run =
    recover_terminal-LifeChange action now timeout run

pub acknowledge-LifeChange : (run : TaskRun) → Guarantee LifeChange run (acknowledge run)
unfolding acknowledge
acknowledge-LifeChange run = try_write-Guarantee LifeChange run _ _ _ (λ g now h. ground arith)

pub attach-LifeChange :
    (job_id : String) (run : TaskRun) → Guarantee LifeChange run (attach_queue_job_id job_id run)
unfolding attach_queue_job_id
attach-LifeChange job_id run = try_write-Guarantee LifeChange run _ _ _ (λ g now h. ground arith)

pub claim_notification-LifeChange :
    (owner : String) (lease now : ℕ) (run : TaskRun)
    → Guarantee LifeChange run (claim_notification owner lease now run)
unfolding claim_notification
claim_notification-LifeChange owner lease now run =
    try_write-Guarantee LifeChange run _ _ _ (λ g clock h. ground arith)

pub finish_notification-LifeChange :
    (owner : String) (success : Bool) (now : ℕ) (run : TaskRun)
    → Guarantee LifeChange run (finish_notification owner success now run)
unfolding finish_notification finish_update
finish_notification-LifeChange owner success now run =
    try_write-Guarantee LifeChange run _ _ _ (λ g clock h. ground arith)
