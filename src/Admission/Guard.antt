-- ===== src/Admission/Guard.antt =====
-- What a task's head keeps out, over every history.
use mathlib.Core.List.{Memᴰ}
use cognitrix.Prelude.{
  ℕ, ◌≡◌, inl, inr, refl, sym, subst, ◌∙◌, true, Option, none, some, ◌∷◌, arith, String,
}
use cognitrix.Admission.{
  TaskRunHead, RunStatuses, is_set, is_blocked, reserve_head, tombstone_task, restore_head,
  reconcile_task_head, release_active, recover_reservation, write_head, names,
}
use cognitrix.Admission.History.{
  HeadOp, reserve, tombstone, restore, release, recover, repair, perform_head, HeadHistory,
  HeadReach, here, next, IsLinearHead, HeadReach-IsLinear, perform_newest,
}

-- The head of a deleted task.
pub record IsTombstone (row : Option TaskRunHead) : Type 0 where
  pub head : TaskRunHead
  pub there : row ≡ some head
  pub deleted : is_set head.deleted_at ≡ true
  pub inactive : head.active_run_id ≡ none

tombstone_stays :
    (op : HeadOp) (now : ℕ) (head : TaskRunHead)
    → is_set head.deleted_at ≡ true
    → head.active_run_id ≡ none
    → perform_head op (some head) now (some head) ≡ some head
unfolding perform_head write_head reserve_head tombstone_task restore_head release_active
    recover_reservation reconcile_task_head names
tombstone_stays (reserve runs run_id) now head d i = ground arith
tombstone_stays (tombstone runs deleted_at) now head d i = ground arith
tombstone_stays (restore run_id previous_latest) now head d i = ground arith
tombstone_stays (release run_id) now head d i = ground arith
tombstone_stays (recover runs clock timeout) now head d i = ground arith
tombstone_stays (repair runs history) now head d i = ground arith

newest_stays :
    (op : HeadOp) (now : ℕ) (row : Option TaskRunHead)
    → IsTombstone row
    → perform_head op row now row ≡ row
newest_stays op now row t =
    subst (λ r. perform_head op r now r ≡ r) (sym t.there)
      (tombstone_stays op now t.head t.deleted t.inactive)

-- A deleted task admits no run any more: from the head of a deleted task without an active run, in
-- a history whose versions tell the heads apart, whatever the methods do later and whatever they
-- have read, the head stays as it is.
pub tombstone_is_final :
    {h k : HeadHistory} → IsLinearHead h → IsTombstone h.row → HeadReach h k → k.row ≡ h.row
tombstone_is_final l t here = refl
tombstone_is_final {h} l t (next {k} op observed now r m) =
    let same : k.row ≡ h.row = tombstone_is_final l t r in
    elim (perform_newest k op observed now (HeadReach-IsLinear l r) m) [
      | inl e ↦ e ∙ same
      | inr e ↦ e ∙ newest_stays op now k.row (subst IsTombstone (sym same) t) ∙ same
    ]

-- The methods that need the task to be idle, with the statuses that they read.
pub data NeedsIdle (runs : RunStatuses) : HeadOp → Type 0 where
  reserves : (run_id : String) → NeedsIdle runs (reserve runs run_id)
  deletes : (deleted_at : String) → NeedsIdle runs (tombstone runs deleted_at)

blocked_stays :
    (runs : RunStatuses) (op : HeadOp) (now : ℕ) (head : TaskRunHead)
    → NeedsIdle runs op
    → is_blocked runs head.active_run_id ≡ true
    → perform_head op (some head) now (some head) ≡ some head
unfolding perform_head write_head reserve_head tombstone_task
blocked_stays runs op now head (reserves run_id) b = ground arith
blocked_stays runs op now head (deletes deleted_at) b = ground arith

-- In a history whose versions tell the heads apart, a new run is not admitted, and the task is not
-- deleted, over the run that the head names while that run reads as active or as not inserted,
-- even if the head was read before that run was admitted.
pub admitted_alone :
    (h : HeadHistory) (head : TaskRunHead) (runs : RunStatuses) (op : HeadOp)
    (observed : Option TaskRunHead) (now : ℕ)
    → IsLinearHead h
    → h.row ≡ some head
    → NeedsIdle runs op
    → is_blocked runs head.active_run_id ≡ true
    → Memᴰ observed (h.row ∷ h.past)
    → perform_head op observed now h.row ≡ h.row
admitted_alone h head runs op observed now l there needs b m =
    elim (perform_newest h op observed now l m) [
      | inl same ↦ same
      | inr e ↦
          e
          ∙ subst (λ r. perform_head op r now r ≡ r) (sym there)
              (blocked_stays runs op now head needs b)
    ]
