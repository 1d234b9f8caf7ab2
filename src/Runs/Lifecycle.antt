-- ===== src/Runs/Lifecycle.antt =====
-- The life of a run over every history of its row.
use cognitrix.Prelude.{ℕ, ◌+◌, ◌≡◌, ◌≢◌, ◌⊎◌, inl, inr, refl, sym, subst, some, Bool-cases}
use cognitrix.Runs.{TaskRun, queued}
use cognitrix.Runs.Cas.{Attempt, return, raise, write, attempted}
use cognitrix.Runs.Terminal.{recovery_action, recover_run}
use cognitrix.Runs.History.{
  Op, claim_op, heartbeat_op, usage_op, mutate_op, recover_op, cancel_op, acknowledge_op, attach_op,
  claim_notification_op, finish_notification_op, perform, History, Step, act,
}
use cognitrix.Runs.Linear.{IsLinear, perform_current}
use cognitrix.Runs.Change.{
  Guarantee, LifeChange, claim-LifeChange, heartbeat-LifeChange, usage-LifeChange,
  mutate-LifeChange, recover_by-LifeChange, cancel-LifeChange, acknowledge-LifeChange,
  attach-LifeChange, claim_notification-LifeChange, finish_notification-LifeChange,
}
use cognitrix.Runs.EventChange.{
  EventChange, claim-EventChange, heartbeat-EventChange, usage-EventChange, mutate-EventChange,
  recover_by-EventChange, cancel-EventChange, acknowledge-EventChange, attach-EventChange,
  claim_notification-EventChange, finish_notification-EventChange,
}

-- No caller of `mutate` sends a run back to the queue.
abbrev pub IsSane : Op → Type 0
IsSane (mutate_op c updates expected event) = updates.status ≢ some queued
IsSane (claim_op owner lease) = Unit
IsSane _ = Unit

-- The row stays as it was, or changes as `G` says.
abbrev pub Changes : (TaskRun → TaskRun → Type 0) → TaskRun → TaskRun → Type 0
Changes G r r' = (r' ≡ r) ⊎ G r r'

attempted-Changes :
    {A : Type 0} (G : TaskRun → TaskRun → Type 0) (a : Attempt A) (now : ℕ) (row : TaskRun)
    → Guarantee G row a
    → Changes G row (attempted a now row)
unfolding attempted
attempted-Changes G (return a) now row g = inl refl
attempted-Changes G (raise e) now row g = inl refl
attempted-Changes G (write u a) now row g = elim (Bool-cases (u.where_clause now row)) [
  | inl e ↦ rw (e, attempted) (inr (g now e))
  | inr e ↦ rw (e, attempted) (inl refl)
]

perform-LifeChange :
    (op : Op) (now : ℕ) (row : TaskRun)
    → IsSane op
    → Changes LifeChange row (perform op row now row)
unfolding perform recover_run
perform-LifeChange (claim_op owner lease) now row h =
    attempted-Changes LifeChange _ now row (claim-LifeChange owner lease row)
perform-LifeChange (heartbeat_op c lease) now row h =
    attempted-Changes LifeChange _ now row (heartbeat-LifeChange c lease row)
perform-LifeChange (usage_op merge c) now row h =
    attempted-Changes LifeChange _ now row (usage-LifeChange merge c row)
perform-LifeChange acknowledge_op now row h =
    attempted-Changes LifeChange _ now row (acknowledge-LifeChange row)
perform-LifeChange (attach_op job_id) now row h =
    attempted-Changes LifeChange _ now row (attach-LifeChange job_id row)
perform-LifeChange (claim_notification_op owner lease clock) now row h =
    attempted-Changes LifeChange _ now row (claim_notification-LifeChange owner lease clock row)
perform-LifeChange (finish_notification_op owner success clock) now row h =
    attempted-Changes LifeChange _ now row (finish_notification-LifeChange owner success clock row)
perform-LifeChange (cancel_op force queued_only reason grace clock) now row h =
    attempted-Changes LifeChange _ now row
      (cancel-LifeChange force queued_only reason grace clock row)
perform-LifeChange (mutate_op c updates expected event) now row h =
    attempted-Changes LifeChange _ now row (mutate-LifeChange c updates expected event row h)
perform-LifeChange (recover_op clock timeout created_at) now row h =
    attempted-Changes LifeChange _ now row
      (recover_by-LifeChange (recovery_action clock timeout created_at row) clock timeout row)

pub perform-EventChange :
    (op : Op) (now : ℕ) (row : TaskRun) → Changes EventChange row (perform op row now row)
unfolding perform recover_run
perform-EventChange (claim_op owner lease) now row =
    attempted-Changes EventChange _ now row (claim-EventChange owner lease row)
perform-EventChange (heartbeat_op c lease) now row =
    attempted-Changes EventChange _ now row (heartbeat-EventChange c lease row)
perform-EventChange (usage_op merge c) now row =
    attempted-Changes EventChange _ now row (usage-EventChange merge c row)
perform-EventChange acknowledge_op now row =
    attempted-Changes EventChange _ now row (acknowledge-EventChange row)
perform-EventChange (attach_op job_id) now row =
    attempted-Changes EventChange _ now row (attach-EventChange job_id row)
perform-EventChange (claim_notification_op owner lease clock) now row =
    attempted-Changes EventChange _ now row (claim_notification-EventChange owner lease clock row)
perform-EventChange (finish_notification_op owner success clock) now row =
    attempted-Changes EventChange _ now row
      (finish_notification-EventChange owner success clock row)
perform-EventChange (cancel_op force queued_only reason grace clock) now row =
    attempted-Changes EventChange _ now row
      (cancel-EventChange force queued_only reason grace clock row)
perform-EventChange (mutate_op c updates expected event) now row =
    attempted-Changes EventChange _ now row (mutate-EventChange c updates expected event row)
perform-EventChange (recover_op clock timeout created_at) now row =
    attempted-Changes EventChange _ now row
      (recover_by-EventChange (recovery_action clock timeout created_at row) clock timeout row)

pub Step-LifeChange :
    {h k : History} → IsLinear h → Step IsSane h k → Changes LifeChange h.row k.row
Step-LifeChange l (act h op observed wait sane m) =
    elim (perform_current h op observed (h.clock + wait) l m) [
      | inl same ↦ inl same
      | inr e ↦
          subst (Changes LifeChange h.row) (sym e)
            (perform-LifeChange op (h.clock + wait) h.row sane)
    ]

pub Step-EventChange :
    {P : Op → Type 0} {h k : History} → IsLinear h → Step P h k → Changes EventChange h.row k.row
Step-EventChange l (act h op observed wait p m) =
    elim (perform_current h op observed (h.clock + wait) l m) [
      | inl same ↦ inl same
      | inr e ↦
          subst (Changes EventChange h.row) (sym e) (perform-EventChange op (h.clock + wait) h.row)
    ]
