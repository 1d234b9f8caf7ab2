-- ===== src/Admission/History.antt =====
-- The history of a task's head under any interleaving of the repository's methods, from however
-- stale readings of the head and of the runs.
use mathlib.Core.List.{Memᴰ}
use cognitrix.Prelude.{
  ◌+◌, ◌==◌, ==_iff, true, ◌&&◌, Bool-cases, if◌then◌else◌, ℕ, suc, ◌<◌, ◌≡◌, ◌⊎◌, inl, inr, refl,
  sym, subst, ap, Option, none, some, List, ◌∷◌, arith, String,
}
use text.Mathlib.Text.{◌==◌ as str_eq}
use cognitrix.Runs.{TaskRunStatus, is_active}
use cognitrix.Prelude.Versions.{IsNewestOf, newest_read, newest_next}
use cognitrix.Admission.{
  TaskRunHistory, reconcile_task_head, HeadError, head_invariant_error, stop, fail, insert, project,
  project_over, project_named, same_id, is_some, is_set, TaskRunHead, HeadAttempt, RunStatuses,
  reserve_head, tombstone_task, restore_head, release_active, recover_reservation, write_head,
}

pub data HeadOp : Type 0 where
  reserve : RunStatuses → String → HeadOp
  tombstone : RunStatuses → String → HeadOp
  restore : String → Option String → HeadOp
  release : String → HeadOp
  recover : RunStatuses → ℕ → ℕ → HeadOp
  repair : RunStatuses → TaskRunHistory → HeadOp

abbrev pub attempt_of : HeadOp → Option TaskRunHead → HeadAttempt
attempt_of (reserve runs run_id) = reserve_head runs run_id
attempt_of (tombstone runs deleted_at) = tombstone_task runs deleted_at
attempt_of (restore run_id previous_latest) = restore_head run_id previous_latest
attempt_of (release run_id) = release_active run_id
attempt_of (recover runs now timeout) = recover_reservation runs now timeout
attempt_of (repair runs history) = reconcile_task_head runs history

-- The head after a method that read `observed`.
unfoldable pub perform_head :
    HeadOp → Option TaskRunHead → ℕ → Option TaskRunHead → Option TaskRunHead
perform_head op observed = write_head (attempt_of op observed)

abbrev pub version_of : Option TaskRunHead → ℕ
version_of none = 0
version_of (some head) = suc head.version

-- A head and all that came before it.
pub record HeadHistory : Type 0 where
  pub row : Option TaskRunHead
  pub past : List (Option TaskRunHead)

pub data HeadReach (h : HeadHistory) : HeadHistory → Type 0 where
  here : HeadReach h h
  next :
      {k : HeadHistory} (op : HeadOp) (observed : Option TaskRunHead) (now : ℕ)
      → HeadReach h k
      → Memᴰ observed (k.row ∷ k.past)
      → HeadReach h (record { row = perform_head op observed now k.row; past = k.row ∷ k.past })

abbrev pub IsLinearHead : HeadHistory → Type 0
IsLinearHead h = IsNewestOf version_of h.row h.past

abbrev Newer : Option TaskRunHead → Option TaskRunHead → Option TaskRunHead → Type 0
Newer observed row row' =
    (row' ≡ row) ⊎ (version_of row ≡ version_of observed) × (version_of row < version_of row')

stop-Newer :
    (observed : Option TaskRunHead) (now : ℕ) (row : Option TaskRunHead)
    → Newer observed row (write_head stop now row)
unfolding write_head
stop-Newer observed now row = inl refl

fail-Newer :
    (observed : Option TaskRunHead) (e : HeadError) (now : ℕ) (row : Option TaskRunHead)
    → Newer observed row (write_head (fail e) now row)
unfolding write_head
fail-Newer observed e now row = inl refl

insert-Newer :
    (head : TaskRunHead) (now : ℕ) (row : Option TaskRunHead)
    → Newer none row (write_head (insert head) now row)
unfolding write_head
insert-Newer head now none = inr (refl, omega arith)
insert-Newer head now (some row) = inl refl

versioned-Newer :
    (head row row' : TaskRunHead)
    → row'.version ≡ head.version + 1
    → Newer
        (some head)
        (some row)
        (if row.version == head.version && true then some row' else some row)
versioned-Newer head row row' v = elim (Bool-cases (row.version == head.version)) [
  | inl t ↦
      let same = (==_iff row.version head.version).0 t in
      rw t (inr (omega (arith, same), omega (arith, same, v)))
  | inr f ↦ rw f (inl refl)
]

project-Newer :
    (head : TaskRunHead) (latest active : Option String) (now : ℕ) (row : Option TaskRunHead)
    → Newer (some head) row (write_head (project head latest active) now row)
unfolding write_head
project-Newer head latest active now none =
    elim (Bool-cases (same_id head.latest_run_id latest && same_id head.active_run_id active)) [
      | inl t ↦ rw t (inl refl)
      | inr f ↦ rw f (inl refl)
    ]
project-Newer head latest active now (some row) =
    elim (Bool-cases (same_id head.latest_run_id latest && same_id head.active_run_id active)) [
      | inl t ↦ rw t (inl refl)
      | inr f ↦ rw f (
          versioned-Newer head row
            (record row {
              latest_run_id = latest;
              active_run_id = active;
              version = head.version + 1;
              updated_at = now;
            })
            refl)
    ]

over-Newer :
    (history : TaskRunHistory) (head : TaskRunHead) (status : Option TaskRunStatus) (now : ℕ)
    (row : Option TaskRunHead)
    → Newer (some head) row (write_head (project_over history head status) now row)
over-Newer history head none now row = stop-Newer (some head) now row
over-Newer history head (some status) now row = elim (Bool-cases (is_active status)) [
  | inr f ↦ rw f (project-Newer head history.latest_run_id history.active_run_id now row)
  | inl t ↦ elim (Bool-cases (same_id history.active_run_id head.active_run_id)) [
    | inl u ↦ rw (t, u) (project-Newer head history.latest_run_id head.active_run_id now row)
    | inr u ↦ elim (Bool-cases (is_some history.active_run_id)) [
      | inl v ↦ rw (t, u, v) (fail-Newer (some head) head_invariant_error now row)
      | inr v ↦ rw (t, u, v) (project-Newer head head.latest_run_id head.active_run_id now row)
    ]
  ]
]

named-Newer :
    (runs : RunStatuses) (history : TaskRunHistory) (head : TaskRunHead) (id : Option String)
    (now : ℕ) (row : Option TaskRunHead)
    → Newer (some head) row (write_head (project_named runs history head id) now row)
named-Newer runs history head none now row =
    project-Newer head history.latest_run_id history.active_run_id now row
named-Newer runs history head (some id) now row = elim (Bool-cases (str_eq id "")) [
  | inl t ↦ rw t (project-Newer head history.latest_run_id history.active_run_id now row)
  | inr f ↦ rw f (over-Newer history head (runs id) now row)
]

repair-Newer :
    (runs : RunStatuses) (history : TaskRunHistory) (observed : Option TaskRunHead) (now : ℕ)
    (row : Option TaskRunHead)
    → Newer observed row (write_head (reconcile_task_head runs history observed) now row)
unfolding reconcile_task_head
repair-Newer runs history none now row = elim (Bool-cases (is_some history.latest_run_id)) [
  | inl t ↦ rw t (insert-Newer _ now row)
  | inr f ↦ rw f (stop-Newer none now row)
]
repair-Newer runs history (some head) now row = elim (Bool-cases (is_set head.deleted_at)) [
  | inl t ↦ rw t (stop-Newer (some head) now row)
  | inr f ↦ rw f (named-Newer runs history head head.active_run_id now row)
]

write-Newer :
    (op : HeadOp) (observed : Option TaskRunHead) (now : ℕ) (row : Option TaskRunHead)
    → Newer observed row (perform_head op observed now row)
unfolding perform_head write_head reserve_head tombstone_task restore_head release_active
    recover_reservation reconcile_task_head
write-Newer (reserve runs run_id) observed now row = ground arith
write-Newer (tombstone runs deleted_at) observed now row = ground arith
write-Newer (restore run_id previous_latest) observed now row = ground arith
write-Newer (release run_id) observed now row = ground arith
write-Newer (recover runs clock timeout) observed now row = ground arith
write-Newer (repair runs history) observed now row = repair-Newer runs history observed now row

-- A write either changes nothing, or acts as if it had read the head just before it.
pub perform_newest :
    (h : HeadHistory) (op : HeadOp) (observed : Option TaskRunHead) (now : ℕ)
    → IsLinearHead h
    → Memᴰ observed (h.row ∷ h.past)
    → (perform_head op observed now h.row ≡ h.row)
      ⊎ (perform_head op observed now h.row ≡ perform_head op h.row now h.row)
perform_newest h op observed now l m = elim (write-Newer op observed now h.row) [
  | inl same ↦ inl same
  | inr (read, newer) ↦ inr (
      ap (λ o. perform_head op o now h.row)
        (sym (newest_read version_of h.row observed h.past l m read)))
]

next-IsLinear :
    (h : HeadHistory) (op : HeadOp) (observed : Option TaskRunHead) (now : ℕ)
    → IsLinearHead h
    → IsLinearHead (record { row = perform_head op observed now h.row; past = h.row ∷ h.past })
next-IsLinear h op observed now l = elim (write-Newer op observed now h.row) [
  | inl same ↦
      subst (λ r. IsNewestOf version_of r (h.row ∷ h.past)) (sym same) ((omega arith, λ _. refl), l)
  | inr (read, newer) ↦ (
    (omega (arith, newer), λ e. absurd (omega (arith, newer, e))),
    newest_next version_of h.row (perform_head op observed now h.row) h.past newer l,
  )
]

pub HeadReach-IsLinear : {h k : HeadHistory} → IsLinearHead h → HeadReach h k → IsLinearHead k
HeadReach-IsLinear l here = l
HeadReach-IsLinear l (next {k} op observed now r m) =
    next-IsLinear k op observed now (HeadReach-IsLinear l r)
