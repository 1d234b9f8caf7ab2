-- ===== src/Slots.antt =====
-- cognitrix/providers/limits.py: `LimitSlot`, which holds a provider's and an actor's concurrency
-- lease for the time of one call, on a shared backend or, outside production, on local semaphores.
-- The backend is what it answers to each request; the polls before the deadline are a list, and the
-- poll that finds the deadline over comes after it.
pub mod Balance
pub mod Entry
mod Tests
use cognitrix.Prelude.{
  ℕ, suc, ◌+◌, ◌-◌, String, Bool, true, false, Option, none, some, List, [], ◌∷◌, length,
  if◌then◌else◌, Result, ok, err, Exec, pure, raise, modify, raise_if, and_then, ◌>>=◌, ◌>>◌,
}

pub data LeaseKey : Type 0 where
  provider_key actor_key : LeaseKey

pub record Lease : Type 0 where
  pub key : LeaseKey
  pub token : String

-- `backend.acquire`: a token, no capacity, an error, or the caller is cancelled. A request that ends
-- in an error, as by the timeout of `_eval`, or is cancelled, may have been granted a lease on the
-- backend all the same: whether it was is the argument.
pub data Reply : Type 0 where
  granted : String → Reply
  full : Reply
  broken interrupted : Bool → Reply

-- `backend.release`: it returns, it raises, or the caller is cancelled.
pub data ReleaseEnd : Type 0 where
  given_back release_failed release_cancelled : ReleaseEnd

pub data SlotError : Type 0 where
  limit_exceeded cancelled_error backend_error backend_unavailable : SlotError

-- `backend_leases` is `_backend_leases`, the last one first. `on_backend` counts the leases of this
-- slot that the backend has not taken back, and `left_behind` those of them that the slot no longer
-- knows: their release did not return, or their request was granted without an answer. The backend
-- drops them when their time is up. The last two count semaphore units.
pub record Slot : Type 0 where
  pub backend_leases : List Lease
  pub on_backend : ℕ
  pub left_behind : ℕ
  pub renewing : Bool
  pub local_slots : Bool
  pub actor_units : ℕ
  pub provider_units : ℕ

abbrev pub new_slot : Slot
new_slot = record {
  backend_leases = [];
  on_backend = 0;
  left_behind = 0;
  renewing = false;
  local_slots = false;
  actor_units = 0;
  provider_units = 0;
}

abbrev pub push : LeaseKey → String → Slot → Slot
push key token s = record s {
  backend_leases = record { key = key; token = token } ∷ s.backend_leases;
  on_backend = s.on_backend + 1;
}

-- A lease that the backend grants without an answer.
abbrev pub unanswered : Bool → Slot → Slot
unanswered false s = s
unanswered true s = record s { on_backend = s.on_backend + 1; left_behind = s.left_behind + 1 }

abbrev pub pop_given_back : List Lease → Slot → Slot
pop_given_back rest s = record s { backend_leases = rest; on_backend = s.on_backend - 1 }

abbrev pub pop_left : List Lease → Slot → Slot
pop_left rest s = record s { backend_leases = rest; left_behind = s.left_behind + 1 }

abbrev pub release_next :
    ReleaseEnd → List Lease → Exec SlotError Slot Unit → Exec SlotError Slot Unit
release_next given_back rest later s = later (pop_given_back rest s)
release_next release_failed rest later s = later (pop_left rest s)
release_next release_cancelled rest later s = (err cancelled_error, pop_left rest s)

unfoldable pub release_all : (Lease → ReleaseEnd) → List Lease → Exec SlotError Slot Unit
release_all released [] s = (ok tt, s)
release_all released (lease ∷ rest) s =
    release_next (released lease) rest (release_all released rest) s

-- `_release_backend`; `released` tells how the calls of the backend end. An exception is dropped, a
-- cancellation is not.
unfoldable pub release_backend : (Lease → ReleaseEnd) → Exec SlotError Slot Unit
unfolding release_all
release_backend released s = release_all released s.backend_leases s

pub record Poll : Type 0 where
  pub provider : Reply
  pub actor : Reply
  pub sleep_cancelled : Bool

-- The second request of a poll.
abbrev pub acquire_actor : (Lease → ReleaseEnd) → Reply → Exec SlotError Slot Bool
acquire_actor released (granted token) = modify (push actor_key token) >> pure true
acquire_actor released full = release_backend released >> pure false
acquire_actor released (broken took) = modify (unanswered took) >> raise backend_error
acquire_actor released (interrupted took) = modify (unanswered took) >> raise cancelled_error

unfoldable pub poll : (Lease → ReleaseEnd) → Poll → Exec SlotError Slot Bool
poll released p = elim p.provider [
  | granted token ↦ modify (push provider_key token) >> acquire_actor released p.actor
  | full ↦ pure false
  | broken took ↦ modify (unanswered took) >> raise backend_error
  | interrupted took ↦ modify (unanswered took) >> raise cancelled_error
]

-- The `while True` of `__aenter__`.
unfoldable pub poll_loop : (Lease → ReleaseEnd) → List Poll → Poll → Exec SlotError Slot Unit
poll_loop released [] last =
    poll released last >>= λ got. raise_if (if got then false else true) limit_exceeded
poll_loop released (p ∷ later) last = poll released p >>= λ got. elim got [
  | true ↦ pure tt
  | false ↦ raise_if p.sleep_cancelled cancelled_error >> poll_loop released later last
]

-- How the waits for the two semaphores end: both acquired, or cancelled at one of them.
pub data LocalWait : Type 0 where
  both_acquired cancelled_at_actor cancelled_at_provider : LocalWait

-- `_acquire_local`; the actor's unit is given back if the wait for the provider's is cancelled.
unfoldable pub acquire_local : LocalWait → Exec SlotError Slot Unit
acquire_local both_acquired s = (
  ok tt,
  record s {
    actor_units = s.actor_units + 1;
    provider_units = s.provider_units + 1;
    local_slots = true;
  },
)
acquire_local cancelled_at_actor s = (err cancelled_error, s)
acquire_local cancelled_at_provider s =
    (err cancelled_error, record s { actor_units = s.actor_units + 1 - 1 })

-- The `except` clauses.
abbrev pub recover_entry :
    Bool
    → (Lease → ReleaseEnd)
    → LocalWait
    → Result SlotError (Unit {0}) × Slot
    → Result SlotError (Unit {0}) × Slot
recover_entry production released wait (ok u, s) = (ok u, record s { renewing = true })
recover_entry production released wait (err backend_error, s) =
    (release_backend released
        >> (if production then raise backend_unavailable else acquire_local wait))
      s
recover_entry production released wait (err e, s) = (release_backend released >> raise e) s

-- `__aenter__`, with and without a backend.
unfoldable pub enter_slot :
    Bool → Bool → (Lease → ReleaseEnd) → List Poll → Poll → LocalWait → Exec SlotError Slot Unit
enter_slot true production released polls last wait s =
    recover_entry production released wait (poll_loop released polls last s)
enter_slot false production released polls last wait s =
    if production then (err backend_unavailable, s) else acquire_local wait s

abbrev pub release_local : Slot → Slot
release_local s =
    if s.local_slots
    then record s {
      actor_units = s.actor_units - 1;
      provider_units = s.provider_units - 1;
      local_slots = false;
    }
    else s

-- `__aexit__`; `renew_failed` is `_renew_error`.
unfoldable pub exit_slot : Bool → (Lease → ReleaseEnd) → Exec SlotError Slot Unit
exit_slot renew_failed released s =
    (release_backend released
        >> (modify release_local >> raise_if renew_failed backend_unavailable))
      (record s { renewing = false })
