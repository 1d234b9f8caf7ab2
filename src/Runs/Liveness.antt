-- ===== src/Runs/Liveness.antt =====
-- What a method achieves when nobody else writes to the row between its read and its write.
use text.Mathlib.Text.{◌==◌ as str_eq}
use text.Mathlib.TextPositions.{eq_refl}
use cognitrix.Prelude.{
  ℕ, ◌+◌, ◌<◌, ◌≡◌, ◌≢◌, refl, String, true, false, Option, none, some, List, ◌∷◌, arith,
  Option-cases, inl, inr, ap,
}
use cognitrix.Runs.{
  TaskRun, TaskRunStatus, queued, failed, cancelled, LeaseClaim, Failure, is_leased, owned_by,
  lease_is_live,
}
use cognitrix.Runs.Fencing.{recover_live}
use cognitrix.Runs.Cas.{
  attempted, Update, Attempt, write, update_one, Outcome, returned, Round, cas_loop,
}
use cognitrix.Runs.Lease.{
  claim, claim_guard, claim_update, holds_lease, heartbeat, heartbeat_guard, lease_guard,
  heartbeat_update,
}
use cognitrix.Runs.Terminal.{
  recover_run, recover_terminal, recover_guard, recover_update, recovery_action,
}

abbrev pub quiet : ℕ → Round
quiet now = record { others = λ row. row; now = now }

abbrev never : ℕ → TaskRun → Option Failure
never now row = none

-- The methods' loops, on a row that only this method writes to.
abbrev pub alone :
    {A : Type 0} → (TaskRun → Attempt A) → ℕ → List Round → TaskRun → Outcome A × TaskRun
alone attempt now later row = cas_loop attempt never (quiet now ∷ later) row

update_one_writes :
    (u : Update) (now : ℕ) (row : TaskRun)
    → u.where_clause now row ≡ true
    → update_one u now row ≡ (u.assign now row, 1)
unfolding update_one
update_one_writes u now row w = rw w refl

alone_writes :
    {A : Type 0} (attempt : TaskRun → Attempt A) (u : Update) (a : A) (now : ℕ) (later : List Round)
    (row : TaskRun)
    → attempt row ≡ write u a
    → u.where_clause now row ≡ true
    → alone attempt now later row ≡ (returned a, u.assign now row)
unfolding cas_loop
alone_writes attempt u a now later row e w =
    rw (cas_loop, e, update_one_writes u now row w)
      (ap (λ p. (returned a, p.0)) (update_one_writes u now row w))

heartbeat_writes :
    (c : LeaseClaim) (lease_seconds now : ℕ) (later : List Round) (row : TaskRun)
    → lease_seconds ≢ 0
    → holds_lease c row ≡ true
    → lease_is_live now row ≡ true
    → alone (heartbeat c lease_seconds) now later row
      ≡ (returned tt, (heartbeat_update c lease_seconds row).assign now row)
unfolding heartbeat heartbeat_guard lease_guard
heartbeat_writes c lease_seconds now later row positive held live =
    alone_writes (heartbeat c lease_seconds) (heartbeat_update c lease_seconds row) tt now later row
      (ground arith) (ground arith)

-- A run that a worker keeps until an instant: before it, recovery leaves the run alone, whatever the
-- clock of the process that recovers reads, and a further heartbeat of the worker succeeds.
abbrev pub IsKept : LeaseClaim → ℕ → TaskRun → Type 0
IsKept c until row =
    (t : ℕ)
    → t < until
    → ((clock timeout : ℕ) (created_at : Option ℕ)
        → attempted (recover_run clock timeout created_at row) t row ≡ row)
      × ((seconds : ℕ) (rounds : List Round)
          → seconds ≢ 0
          → (alone (heartbeat c seconds) t rounds row).0 ≡ returned tt)

held-IsKept :
    (c : LeaseClaim) (until : ℕ) (row : TaskRun)
    → holds_lease c row ≡ true
    → row.lease_expires_at ≡ some until
    → IsKept c until row
unfolding recover_run
held-IsKept c until row held expires t before =
    let live : lease_is_live t row ≡ true = rw expires (ground arith) in
    (
      λ clock timeout created_at. recover_live _ clock timeout row t (ground arith) live,
      λ seconds rounds positive.
          ap (λ p. p.0) (heartbeat_writes c seconds t rounds row positive held live),
    )

-- A heartbeat for a positive time, of the worker whose claim holds the run, at an instant at which
-- its lease is live, and with no other write in between, succeeds, and keeps the run for the worker
-- for the whole time from that instant on: before that time is over, recovery leaves the run alone,
-- and the worker's next heartbeat succeeds too if no other write comes first.
pub heartbeat_keeps :
    (c : LeaseClaim) (lease_seconds now : ℕ) (later : List Round) (row : TaskRun)
    → lease_seconds ≢ 0
    → holds_lease c row ≡ true
    → lease_is_live now row ≡ true
    → let (result, row') = alone (heartbeat c lease_seconds) now later row in
      (result ≡ returned tt) × IsKept c (now + lease_seconds) row'
heartbeat_keeps c lease_seconds now later row positive held live =
    rw (heartbeat_writes c lease_seconds now later row positive held live)
      (refl, held-IsKept c (now + lease_seconds) _ held refl)

-- A claim of a queued run, under a name that is not empty, for a positive time, and with no other
-- write in between, succeeds: the run is then leased, and the claim that is returned holds it,
-- under a lease that is live.
pub claim_wins :
    (owner : String) (lease_seconds now : ℕ) (later : List Round) (row : TaskRun)
    → str_eq owner "" ≡ false
    → lease_seconds ≢ 0
    → row.status ≡ queued
    → let (result, row') = alone (claim owner lease_seconds) now later row in
      (c : LeaseClaim) × (result ≡ returned (some c))
      × (holds_lease c row' ≡ true)
      × (lease_is_live now row' ≡ true)
unfolding claim claim_guard claim_update owned_by
claim_wins owner lease_seconds now later row named positive q =
    rw
      (alone_writes (claim owner lease_seconds) (claim_update owner lease_seconds row)
        (some (record { run_id = row.id; owner = owner; generation = row.lease_generation + 1 }))
        now later row (ground arith) (ground arith))
      (
        record { run_id = row.id; owner = owner; generation = row.lease_generation + 1 },
        refl,
        ground (arith, eq_refl owner, eq_refl row.id),
        ground arith,
      )

abbrev ending : Option ℕ → TaskRunStatus
ending none = failed
ending (some requested) = cancelled

-- Recovery of a leased run whose lease is over, by its own clock and by the database's, with no
-- other write in between, ends the run at that time, as cancelled if that was asked for and as
-- failed if not, and advances the generation of its lease by one.
pub recover_ends :
    (clock timeout : ℕ) (created_at : Option ℕ) (now : ℕ) (later : List Round) (row : TaskRun)
    → is_leased row.status ≡ true
    → lease_is_live clock row ≡ false
    → lease_is_live now row ≡ false
    → let (result, row') = alone (recover_run clock timeout created_at) now later row in
      (result ≡ returned true)
      × (row'.status ≡ ending row.cancel_requested_at)
      × (row'.completed_at ≡ some clock)
      × (row'.lease_generation ≡ row.lease_generation + 1)
unfolding recover_run recover_terminal recover_guard recover_update recovery_action cas_loop
    update_one owned_by
recover_ends clock timeout created_at now later row leased over expired =
    elim (Option-cases row.lease_owner) [
      | inl e ↦ ground arith
      | inr (owner, e) ↦ ground (arith, eq_refl owner)
    ]
