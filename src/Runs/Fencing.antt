-- ===== src/Runs/Fencing.antt =====
-- The writes of a worker, of recovery and of a forced cancellation, and the lease of the run.
use mathlib.Core.List.{Memᴰ}
use cognitrix.Prelude.{
  ℕ, ◌+◌, ◌<◌, ◌≡◌, ◌⊎◌, inl, inr, refl, true, false, Option, none, some, List, ◌∷◌, arith, String,
  ◌∙◌,
}
use cognitrix.Runs.{
  TaskRun, TaskRunStatus, is_leased, LeaseClaim, Event, holds, lease_is_live, force_cancel_ready,
}
use cognitrix.Runs.Cas.{attempted, update_one}
use cognitrix.Runs.Lease.{
  heartbeat, heartbeat_guard, lease_guard, persist_usage, RunUpdates, mutate, mutate_guard,
}
use cognitrix.Runs.Terminal.{
  recover_run, recover_by, recover_terminal, recover_guard, recover_update, RecoveryAction, cancel,
  cancel_guard,
}
use cognitrix.Runs.History.{
  Op, perform, heartbeat_op, usage_op, mutate_op, recover_op, cancel_op, History, Reach,
}
use cognitrix.Runs.Linear.{IsLinear, Reach-IsLinear, perform_current}
use cognitrix.Runs.Lifecycle.{IsSane}
use cognitrix.Runs.Ending.{Reach-generation}

-- The methods that carry a worker's claim.
pub data WorkerOp (c : LeaseClaim) : Op → Type 0 where
  beats : (lease : ℕ) → WorkerOp c (heartbeat_op c lease)
  counts : (merge : String → String) → WorkerOp c (usage_op merge c)
  mutates :
      (updates : RunUpdates) (expected : Option (List TaskRunStatus)) (event : Option Event)
      → WorkerOp c (mutate_op (some c) updates expected event)

-- A worker's write changes the row that it read only while its claim holds the row.
held_to_write :
    (c : LeaseClaim) (op : Op) (row : TaskRun) (now : ℕ)
    → WorkerOp c op
    → holds c row ≡ false
    → perform op row now row ≡ row
unfolding perform attempted update_one heartbeat heartbeat_guard lease_guard persist_usage mutate
    mutate_guard
held_to_write c op row now (beats lease) h = ground arith
held_to_write c op row now (counts merge) h = ground arith
held_to_write c op row now (mutates updates expected event) h = ground arith

pub not_held :
    (c : LeaseClaim) (row : TaskRun) → c.generation < row.lease_generation → holds c row ≡ false
not_held c row h = ground arith

expired_to_write :
    (c : LeaseClaim) (op : Op) (row : TaskRun) (now : ℕ)
    → WorkerOp c op
    → is_leased row.status ≡ true
    → lease_is_live now row ≡ false
    → perform op row now row ≡ row
unfolding perform attempted update_one heartbeat heartbeat_guard lease_guard persist_usage mutate
    mutate_guard
expired_to_write c op row now (beats lease) h x = ground arith
expired_to_write c op row now (counts merge) h x = ground arith
expired_to_write c op row now (mutates updates expected event) h x = ground arith

-- In a history whose versions tell its rows apart, and in which no caller of `mutate` sends a run
-- back to the queue: once the generation of the lease has passed that of a worker's claim, no
-- heartbeat, usage or mutation that the worker sends changes the row again, however late it
-- arrives and whatever earlier row the worker had read.
pub fenced_worker :
    (h k : History) (c : LeaseClaim) (op : Op) (observed : TaskRun) (now : ℕ)
    → IsLinear h
    → c.generation < h.row.lease_generation
    → Reach IsSane h k
    → WorkerOp c op
    → Memᴰ observed (k.row ∷ k.past)
    → perform op observed now k.row ≡ k.row
fenced_worker h k c op observed now l older r w m =
    elim (perform_current k op observed now (Reach-IsLinear l r) m) [
      | inl same ↦ same
      | inr e ↦
          e
          ∙ held_to_write c op k.row now w (not_held c k.row (omega (arith, Reach-generation l r)))
    ]

-- In a history whose versions tell its rows apart, a worker's heartbeat, usage or mutation leaves
-- a leased row as it is, if the row names another owner or generation than its claim, or if the
-- lease has run out by the database's clock, whatever earlier row the worker had read.
pub worker_write_needs_lease :
    (h : History) (c : LeaseClaim) (op : Op) (observed : TaskRun) (now : ℕ)
    → IsLinear h
    → is_leased h.row.status ≡ true
    → (holds c h.row ≡ false) ⊎ (lease_is_live now h.row ≡ false)
    → WorkerOp c op
    → Memᴰ observed (h.row ∷ h.past)
    → perform op observed now h.row ≡ h.row
worker_write_needs_lease h c op observed now l leased x w m =
    elim (perform_current h op observed now l m) [
      | inl same ↦ same
      | inr e ↦ e ∙ elim x [
        | inl lost ↦ held_to_write c op h.row now w lost
        | inr expired ↦ expired_to_write c op h.row now w leased expired
      ]
    ]

pub recover_live :
    (action : Option RecoveryAction) (clock timeout : ℕ) (row : TaskRun) (now : ℕ)
    → is_leased row.status ≡ true
    → lease_is_live now row ≡ true
    → attempted (recover_by action clock timeout row) now row ≡ row
unfolding attempted update_one recover_terminal recover_guard recover_update
recover_live none clock timeout row now leased live = refl
recover_live (some action) clock timeout row now leased live = ground arith

-- In a history whose versions tell its rows apart, recovery leaves a leased run alone while its
-- lease is live by the database's clock, even if the clock of the process that recovers runs ahead
-- and it had read an earlier row.
pub recover_spares_live :
    (h : History) (clock timeout : ℕ) (created_at : Option ℕ) (observed : TaskRun) (now : ℕ)
    → IsLinear h
    → is_leased h.row.status ≡ true
    → lease_is_live now h.row ≡ true
    → Memᴰ observed (h.row ∷ h.past)
    → perform (recover_op clock timeout created_at) observed now h.row ≡ h.row
unfolding perform recover_run
recover_spares_live h clock timeout created_at observed now l leased live m =
    elim (perform_current h (recover_op clock timeout created_at) observed now l m) [
      | inl same ↦ same
      | inr e ↦ e ∙ recover_live _ clock timeout h.row now leased live
    ]

cancel_waits :
    (reason : String) (grace clock : ℕ) (row : TaskRun) (now : ℕ)
    → is_leased row.status ≡ true
    → force_cancel_ready clock grace row ≡ false
    → attempted (cancel true false reason grace clock row) now row ≡ row
unfolding attempted update_one cancel cancel_guard
cancel_waits reason grace clock row now leased early = ground arith

not_ready :
    (grace clock : ℕ) (expires requested : Option ℕ) (row : TaskRun)
    → row.lease_expires_at ≡ expires
    → row.cancel_requested_at ≡ requested
    → (e : ℕ) × (expires ≡ some e) × (clock < e)
    → ((r : ℕ) → requested ≡ some r → clock < r + grace)
    → force_cancel_ready clock grace row ≡ false
unfolding force_cancel_ready
not_ready grace clock none requested row p q (e, is, before) asked = absurd (cc is)
not_ready grace clock (some x) none row p q (e, is, before) asked =
    let same : x ≡ e = cc is in rw (p, q) (ground arith)
not_ready grace clock (some x) (some r) row p q (e, is, before) asked =
    let same : x ≡ e = cc is in let early = asked r refl in rw (p, q) (ground arith)

-- In a history whose versions tell its rows apart, a forced cancellation leaves a leased run alone
-- while, by the caller's clock, the instant at which its lease expires lies ahead and the grace period
-- has not passed since the cancellation was requested, if it was requested at all.
pub force_cancel_waits :
    (h : History) (reason : String) (grace clock expires : ℕ) (observed : TaskRun) (now : ℕ)
    → IsLinear h
    → is_leased h.row.status ≡ true
    → h.row.lease_expires_at ≡ some expires
    → clock < expires
    → ((requested : ℕ) → h.row.cancel_requested_at ≡ some requested → clock < requested + grace)
    → Memᴰ observed (h.row ∷ h.past)
    → perform (cancel_op true false reason grace clock) observed now h.row ≡ h.row
unfolding perform
force_cancel_waits h reason grace clock expires observed now l leased until before asked m =
    let early =
      not_ready grace clock h.row.lease_expires_at h.row.cancel_requested_at h.row refl refl
        (expires, until, before) asked in
    elim (perform_current h (cancel_op true false reason grace clock) observed now l m) [
      | inl same ↦ same
      | inr e ↦ e ∙ cancel_waits reason grace clock h.row now leased early
    ]
