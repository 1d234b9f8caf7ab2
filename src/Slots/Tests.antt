-- ===== src/Slots/Tests.antt =====
-- A slot that waits for capacity, and the theorem at it.
use cognitrix.Prelude.{◌≡◌, refl, true, false, [], ◌∷◌, err}
use cognitrix.Slots.{
  Lease, ReleaseEnd, given_back, granted, full, broken, Poll, release_all, both_acquired, new_slot,
  release_backend, poll, poll_loop, acquire_local, enter_slot, exit_slot, backend_unavailable,
}

abbrev all_released : Lease → ReleaseEnd
all_released lease = given_back

abbrev no_actor : Poll
no_actor = record { provider = granted "p1"; actor = full; sleep_cancelled = false }

abbrev both : Poll
both = record { provider = granted "p2"; actor = granted "a2"; sleep_cancelled = false }

abbrev down : Poll
down = record { provider = granted "p3"; actor = broken true; sleep_cancelled = false }

program : Unit {0}
unfolding release_all release_backend poll poll_loop acquire_local enter_slot exit_slot
program = tt

-- The provider's lease of the first poll is given back before the second.
second_poll :
    (enter_slot true true all_released (no_actor ∷ []) both both_acquired new_slot).1.on_backend ≡ 2
unfolding program
second_poll = refl

-- Outside production an error of the backend falls back on the semaphores.
falls_back :
    ((enter_slot true false all_released [] down both_acquired new_slot).1.local_slots ≡ true)
    × ((enter_slot true true all_released [] down both_acquired new_slot).0
        ≡ err backend_unavailable)
unfolding program
falls_back = (refl, refl)

-- The backend granted the actor's lease, but the answer timed out: nobody gives that lease back.
left_without_answer :
    let s = (enter_slot true true all_released [] down both_acquired new_slot).1 in
    (s.on_backend ≡ 1) × (s.left_behind ≡ 1)
unfolding program
left_without_answer = (refl, refl)
