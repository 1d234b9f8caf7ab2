-- ===== src/Runs/History.antt =====
-- The history of one run's row under any interleaving of the repository's methods. An actor may
-- write from any row that it has read earlier, however stale; the clock moves on between writes.
use Prim.Native.String.{String}
use mathlib.Core.List.{Memᴰ}
use cognitrix.Prelude.{
  ℕ, suc, ◌+◌, ◌≡◌, ◌⊎◌, inl, inr, refl, Bool, true, Option, none, some, List, ◌∷◌, arith,
  Bool-cases,
}
use cognitrix.Runs.{TaskRun, TaskRunStatus, LeaseClaim, Event}
use cognitrix.Runs.Cas.{
  Update, Attempt, return, raise, write, attempted, Outcome, returned, raised, try_write,
}
use cognitrix.Runs.Lease.{
  claim, heartbeat, persist_usage, RunUpdates, mutate, mutate_patch, claim_update,
}
use cognitrix.Runs.Terminal.{
  recover_run, recover_by, recover_update, cancel, cancel_update, recover_terminal, RecoveryAction,
  recovery_action,
}
use cognitrix.Runs.Outbox.{
  acknowledge, attach_queue_job_id, claim_notification, finish_notification, finish_update,
}

-- A method of the repository, with its arguments and, where it reads the caller's clock, that.
pub data Op : Type 0 where
  claim_op : String → ℕ → Op
  heartbeat_op : LeaseClaim → ℕ → Op
  usage_op : (String → String) → LeaseClaim → Op
  mutate_op : Option LeaseClaim → RunUpdates → Option (List TaskRunStatus) → Option Event → Op
  recover_op : ℕ → ℕ → Option ℕ → Op
  cancel_op : Bool → Bool → String → ℕ → ℕ → Op
  acknowledge_op : Op
  attach_op : String → Op
  claim_notification_op : String → ℕ → ℕ → Op
  finish_notification_op : String → Bool → ℕ → Op

-- The row after one attempt of a method that read `observed`, written at the database's instant `now`.
unfoldable pub perform : Op → TaskRun → ℕ → TaskRun → TaskRun
perform (claim_op owner lease) observed = attempted (claim owner lease observed)
perform (heartbeat_op c lease) observed = attempted (heartbeat c lease observed)
perform (usage_op merge c) observed = attempted (persist_usage merge c observed)
perform (mutate_op c updates expected event) observed =
    attempted (mutate c updates expected event observed)
perform (recover_op now timeout created_at) observed =
    attempted (recover_run now timeout created_at observed)
perform (cancel_op force queued_only reason grace now) observed =
    attempted (cancel force queued_only reason grace now observed)
perform acknowledge_op observed = attempted (acknowledge observed)
perform (attach_op job_id) observed = attempted (attach_queue_job_id job_id observed)
perform (claim_notification_op owner lease now) observed =
    attempted (claim_notification owner lease now observed)
perform (finish_notification_op owner success now) observed =
    attempted (finish_notification owner success now observed)

pub record History : Type 0 where
  pub row : TaskRun
  pub past : List TaskRun
  pub clock : ℕ

abbrev pub wrote : History → ℕ → TaskRun → History
wrote h wait row = record { row = row; past = h.row ∷ h.past; clock = h.clock + wait }

-- One write, by a method that the callers use in the way that `P` describes.
pub data Step (P : Op → Type 0) : History → History → Type 0 where
  act :
      (h : History) (op : Op) (observed : TaskRun) (wait : ℕ)
      → P op
      → Memᴰ observed (h.row ∷ h.past)
      → Step P h (wrote h wait (perform op observed (h.clock + wait) h.row))

pub data Reach (P : Op → Type 0) (h : History) : History → Type 0 where
  here : Reach P h h
  next : {k m : History} → Reach P h k → Step P k m → Reach P h m

-- A write of an attempt changes only a row of the version that was read, and adds one to it.
abbrev pub Fenced : {A : Type 0} → TaskRun → Attempt A → Type 0
Fenced observed (return a) = Unit
Fenced observed (raise e) = Unit
Fenced observed (write u a) =
    (now : ℕ) (row : TaskRun)
    → u.where_clause now row ≡ true
    → (row.version ≡ observed.version) × ((u.assign now row).version ≡ suc row.version)

pub try_write-Fenced :
    {A : Type 0} (observed : TaskRun) (guard : Option (Outcome A)) (u : Update) (a : A)
    → Fenced observed (write u a)
    → Fenced observed (try_write guard u a)
try_write-Fenced observed none u a h = h
try_write-Fenced observed (some (returned b)) u a h = tt
try_write-Fenced observed (some (raised e)) u a h = tt

claim-Fenced : (owner : String) (lease : ℕ) (run : TaskRun) → Fenced run (claim owner lease run)
unfolding claim claim_update
claim-Fenced owner lease run = try_write-Fenced run _ _ _ (λ now row h. ground arith)

heartbeat-Fenced : (c : LeaseClaim) (lease : ℕ) (run : TaskRun) → Fenced run (heartbeat c lease run)
unfolding heartbeat
heartbeat-Fenced c lease run = try_write-Fenced run _ _ _ (λ now row h. ground arith)

mutate-Fenced :
    (c : Option LeaseClaim) (updates : RunUpdates) (expected : Option (List TaskRunStatus))
    (event : Option Event) (run : TaskRun)
    → Fenced run (mutate c updates expected event run)
unfolding mutate mutate_patch
mutate-Fenced none updates expected event run =
    try_write-Fenced run _ _ _ (λ now row h. ground arith)
mutate-Fenced (some c) updates expected event run =
    try_write-Fenced run _ _ _ (λ now row h. ground arith)

usage-Fenced :
    (merge : String → String) (c : LeaseClaim) (run : TaskRun)
    → Fenced run (persist_usage merge c run)
unfolding persist_usage
usage-Fenced merge c run = try_write-Fenced run _ _ _ (λ now row h. ground arith)

recover_by-Fenced :
    (action : Option RecoveryAction) (now timeout : ℕ) (run : TaskRun)
    → Fenced run (recover_by action now timeout run)
unfolding recover_terminal recover_update
recover_by-Fenced none now timeout run = tt
recover_by-Fenced (some action) now timeout run =
    try_write-Fenced run _ _ _ (λ clock row h. ground arith)

cancel-Fenced :
    (force queued_only : Bool) (reason : String) (grace now : ℕ) (run : TaskRun)
    → Fenced run (cancel force queued_only reason grace now run)
unfolding cancel cancel_update
cancel-Fenced force queued_only reason grace now run =
    try_write-Fenced run _ _ _ (λ clock row h. ground arith)

acknowledge-Fenced : (run : TaskRun) → Fenced run (acknowledge run)
unfolding acknowledge
acknowledge-Fenced run = try_write-Fenced run _ _ _ (λ now row h. ground arith)

attach-Fenced : (job_id : String) (run : TaskRun) → Fenced run (attach_queue_job_id job_id run)
unfolding attach_queue_job_id
attach-Fenced job_id run = try_write-Fenced run _ _ _ (λ now row h. ground arith)

claim_notification-Fenced :
    (owner : String) (lease now : ℕ) (run : TaskRun)
    → Fenced run (claim_notification owner lease now run)
unfolding claim_notification
claim_notification-Fenced owner lease now run =
    try_write-Fenced run _ _ _ (λ clock row h. ground arith)

finish_notification-Fenced :
    (owner : String) (success : Bool) (now : ℕ) (run : TaskRun)
    → Fenced run (finish_notification owner success now run)
unfolding finish_notification finish_update
finish_notification-Fenced owner success now run =
    try_write-Fenced run _ _ _ (λ clock row h. ground arith)

-- A write that changes the row finds it at the version that was read.
abbrev Versioned : TaskRun → TaskRun → TaskRun → Type 0
Versioned observed row row' =
    (row' ≡ row) ⊎ (row.version ≡ observed.version) × (row'.version ≡ suc row.version)

attempted-Versioned :
    {A : Type 0} (observed : TaskRun) (a : Attempt A) (now : ℕ) (row : TaskRun)
    → Fenced observed a
    → Versioned observed row (attempted a now row)
unfolding attempted
attempted-Versioned observed (return a) now row f = inl refl
attempted-Versioned observed (raise e) now row f = inl refl
attempted-Versioned observed (write u a) now row f = elim (Bool-cases (u.where_clause now row)) [
  | inl e ↦ rw (e, attempted) (inr (f now row e))
  | inr e ↦ rw (e, attempted) (inl refl)
]

pub perform-Versioned :
    (op : Op) (observed : TaskRun) (now : ℕ) (row : TaskRun)
    → Versioned observed row (perform op observed now row)
unfolding perform recover_run
perform-Versioned (claim_op owner lease) observed now row =
    attempted-Versioned observed _ now row (claim-Fenced owner lease observed)
perform-Versioned (heartbeat_op c lease) observed now row =
    attempted-Versioned observed _ now row (heartbeat-Fenced c lease observed)
perform-Versioned (usage_op merge c) observed now row =
    attempted-Versioned observed _ now row (usage-Fenced merge c observed)
perform-Versioned (mutate_op c updates expected event) observed now row =
    attempted-Versioned observed _ now row (mutate-Fenced c updates expected event observed)
perform-Versioned (recover_op clock timeout created_at) observed now row =
    attempted-Versioned observed _ now row
      (recover_by-Fenced (recovery_action clock timeout created_at observed) clock timeout observed)
perform-Versioned (cancel_op force queued_only reason grace clock) observed now row =
    attempted-Versioned observed _ now row
      (cancel-Fenced force queued_only reason grace clock observed)
perform-Versioned acknowledge_op observed now row =
    attempted-Versioned observed _ now row (acknowledge-Fenced observed)
perform-Versioned (attach_op job_id) observed now row =
    attempted-Versioned observed _ now row (attach-Fenced job_id observed)
perform-Versioned (claim_notification_op owner lease clock) observed now row =
    attempted-Versioned observed _ now row (claim_notification-Fenced owner lease clock observed)
perform-Versioned (finish_notification_op owner success clock) observed now row =
    attempted-Versioned observed _ now row (finish_notification-Fenced owner success clock observed)
