-- ===== src/Slots/Entry.antt =====
-- What a slot holds after it was entered.
use cognitrix.Prelude.{
  ◌+◌, ◌≡◌, ◌≢◌, ◌⊎◌, inl, inr, refl, Bool, true, false, List, [], ◌∷◌, length, Result, ok, err,
  arith, Exec, pure, raise, raise_if, ap, and_then, ◌>>◌, if◌then◌else◌,
}
use cognitrix.Slots.{
  Lease, provider_key, Reply, granted, full, broken, interrupted, ReleaseEnd, given_back,
  release_failed, release_cancelled, SlotError, limit_exceeded, cancelled_error, backend_error,
  backend_unavailable, Slot, new_slot, push, unanswered, pop_given_back, pop_left, release_all,
  release_backend, Poll, acquire_actor, poll, poll_loop, LocalWait, both_acquired,
  cancelled_at_actor, cancelled_at_provider, acquire_local, recover_entry, enter_slot,
}

-- No semaphore unit is held, and no lease is renewed.
abbrev pub IsRemote : Slot → Type 0
IsRemote s =
    (s.local_slots ≡ false) × (s.actor_units ≡ 0) × (s.provider_units ≡ 0) × (s.renewing ≡ false)

pub record IsFree (s : Slot) : Type 0 where
  pub no_leases : s.backend_leases ≡ []
  pub only_left_behind : s.on_backend ≡ s.left_behind
  pub remote : IsRemote s

-- Every lease that the backend holds is known to the slot or left behind.
abbrev pub IsCounted : Slot → Type 0
IsCounted s = s.on_backend ≡ length s.backend_leases + s.left_behind

-- Giving the leases back leaves the semaphores alone.
pub record Settled (s s' : Slot) : Type 0 where
  pub no_leases : s'.backend_leases ≡ []
  pub only_left_behind : s'.on_backend ≡ s'.left_behind
  pub local : s'.local_slots ≡ s.local_slots
  pub actor : s'.actor_units ≡ s.actor_units
  pub provider : s'.provider_units ≡ s.provider_units
  pub renewing : s'.renewing ≡ s.renewing

Settled-IsFree : (s s' : Slot) → IsRemote s → Settled s s' → IsFree s'
Settled-IsFree s s' r h = record {
  no_leases = h.no_leases;
  only_left_behind = h.only_left_behind;
  remote = ground (arith, r, h.local, h.actor, h.provider, h.renewing);
}

abbrev pub ReleasePost : Slot → Result SlotError (Unit {0}) × Slot → Type 0
ReleasePost s (ok u, s') = Settled s s'
ReleasePost s (err e, s') = ⊥

Settled-given_back :
    (rest : List Lease) (s s' : Slot) → Settled (pop_given_back rest s) s' → Settled s s'
Settled-given_back rest s s' h = record {
  no_leases = h.no_leases;
  only_left_behind = h.only_left_behind;
  local = h.local;
  actor = h.actor;
  provider = h.provider;
  renewing = h.renewing;
}

Settled-left : (rest : List Lease) (s s' : Slot) → Settled (pop_left rest s) s' → Settled s s'
Settled-left rest s s' h = record {
  no_leases = h.no_leases;
  only_left_behind = h.only_left_behind;
  local = h.local;
  actor = h.actor;
  provider = h.provider;
  renewing = h.renewing;
}

ReleasePost-map :
    (s t : Slot) (r : Result SlotError (Unit {0}) × Slot)
    → ((s' : Slot) → Settled t s' → Settled s s')
    → ReleasePost t r
    → ReleasePost s r
ReleasePost-map s t (ok u, s') f h = f s' h
ReleasePost-map s t (err e, s') f h = h

ReleaseEnd-cases :
    (e : ReleaseEnd) → e ≢ release_cancelled → (e ≡ given_back) ⊎ (e ≡ release_failed)
ReleaseEnd-cases given_back n = inl refl
ReleaseEnd-cases release_failed n = inr refl
ReleaseEnd-cases release_cancelled n = absurd (n refl)

-- What follows a release that is not cancelled.
pub after_release :
    {B : Type 0} (P : Result SlotError B × Slot → Type 0) (s : Slot)
    (r : Result SlotError (Unit {0}) × Slot) (next : Exec SlotError Slot B)
    → ReleasePost s r
    → ((s' : Slot) → Settled s s' → P (next s'))
    → P (and_then r.0 (λ u. next) r.1)
after_release P s (ok u, s') next h k = k s' h
after_release P s (err e, s') next h k = absurd h

module _ (released : Lease → ReleaseEnd)
    (calm : (lease : Lease) → released lease ≢ release_cancelled) where
  release_all-ReleasePost :
      (leases : List Lease) (s : Slot)
      → s.backend_leases ≡ leases
      → s.on_backend ≡ length leases + s.left_behind
      → ReleasePost s (release_all released leases s)
  unfolding release_all
  release_all-ReleasePost [] s e n = record {
    no_leases = e;
    only_left_behind = omega arith;
    local = refl;
    actor = refl;
    provider = refl;
    renewing = refl;
  }
  release_all-ReleasePost (lease ∷ rest) s e n =
      elim (ReleaseEnd-cases (released lease) (calm lease)) [
        | inl x ↦
            rw (release_all, x)
              (ReleasePost-map s (pop_given_back rest s) _ (Settled-given_back rest s)
                (release_all-ReleasePost rest (pop_given_back rest s) refl (omega arith)))
        | inr x ↦
            rw (release_all, x)
              (ReleasePost-map s (pop_left rest s) _ (Settled-left rest s)
                (release_all-ReleasePost rest (pop_left rest s) refl (omega arith)))
      ]

  pub release_backend-ReleasePost :
      (s : Slot) → IsCounted s → ReleasePost s (release_backend released s)
  unfolding release_backend
  release_backend-ReleasePost s n = release_all-ReleasePost s.backend_leases s refl n

-- After the loop: two leases, or a raise with leases that are all accounted for.
abbrev pub Polled : Result SlotError (Unit {0}) × Slot → Type 0
Polled (ok u, s) = (length s.backend_leases ≡ 2) × (s.on_backend ≡ 2 + s.left_behind) × IsRemote s
Polled (err e, s) = IsCounted s × IsRemote s

abbrev pub PolledOnce : Result SlotError Bool × Slot → Type 0
PolledOnce (ok true, s) = Polled (ok tt, s)
PolledOnce (ok false, s) = IsFree s
PolledOnce (err e, s) = Polled (err e, s)

-- A request without an answer is counted, whether or not a lease was granted.
unanswered-Polled :
    (took : Bool) (e : SlotError) (s : Slot)
    → IsCounted s
    → IsRemote s
    → Polled (err e, unanswered took s)
unanswered-Polled true e s n r = (omega (arith, n), r)
unanswered-Polled false e s n r = (n, r)

free-leases : (s : Slot) → IsFree s → length s.backend_leases ≡ 0
free-leases s h = ap length h.no_leases

free-IsCounted : (s : Slot) → IsFree s → IsCounted s
free-IsCounted s h = omega (arith, free-leases s h, h.only_left_behind)

module _ (released : Lease → ReleaseEnd)
    (calm : (lease : Lease) → released lease ≢ release_cancelled) where
  actor-PolledOnce :
      (reply : Reply) (s : Slot)
      → length s.backend_leases ≡ 1
      → s.on_backend ≡ 1 + s.left_behind
      → IsRemote s
      → PolledOnce (acquire_actor released reply s)
  actor-PolledOnce (granted token) s n l r = (omega arith, omega arith, r)
  actor-PolledOnce full s n l r =
      after_release PolledOnce s (release_backend released s) (pure false)
        (release_backend-ReleasePost released calm s (omega (arith, n, l)))
        (λ s' h. Settled-IsFree s s' r h)
  actor-PolledOnce (broken took) s n l r =
      unanswered-Polled took backend_error s (omega (arith, n, l)) r
  actor-PolledOnce (interrupted took) s n l r =
      unanswered-Polled took cancelled_error s (omega (arith, n, l)) r

  poll-PolledOnce : (p : Poll) (s : Slot) → IsFree s → PolledOnce (poll released p s)
  unfolding poll
  poll-PolledOnce p s h = at p.provider
    where
      at : (provider : Reply) → PolledOnce (poll released (record p { provider = provider }) s)
      at (granted token) =
          actor-PolledOnce p.actor (push provider_key token s) (omega (arith, free-leases s h))
            (omega (arith, h.only_left_behind)) h.remote
      at full = h
      at (broken took) = unanswered-Polled took backend_error s (free-IsCounted s h) h.remote
      at (interrupted took) = unanswered-Polled took cancelled_error s (free-IsCounted s h) h.remote

-- The end of the loop, from what its poll found.
last-Polled :
    (r : Result SlotError Bool × Slot)
    → PolledOnce r
    → Polled (and_then r.0 (λ got. raise_if (if got then false else true) limit_exceeded) r.1)
last-Polled (ok true, s) h = h
last-Polled (ok false, s) h = (omega (arith, free-leases s h, h.only_left_behind), h.remote)
last-Polled (err e, s) h = h

later-Polled :
    (cancelled : Bool) (rest : Exec SlotError Slot Unit) (r : Result SlotError Bool × Slot)
    → PolledOnce r
    → ((s : Slot) → IsFree s → Polled (rest s))
    → Polled (
        and_then r.0
          (λ got. elim got [ true ↦ pure tt | false ↦ raise_if cancelled cancelled_error >> rest ])
          r.1)
later-Polled cancelled rest (ok true, s) h k = h
later-Polled true rest (ok false, s) h k =
    (omega (arith, free-leases s h, h.only_left_behind), h.remote)
later-Polled false rest (ok false, s) h k = k s h
later-Polled cancelled rest (err e, s) h k = h

loop-Polled :
    (released : Lease → ReleaseEnd) (calm : (lease : Lease) → released lease ≢ release_cancelled)
    (polls : List Poll) (last : Poll) (s : Slot)
    → IsFree s
    → Polled (poll_loop released polls last s)
unfolding poll_loop
loop-Polled released calm [] last s h =
    last-Polled (poll released last s) (poll-PolledOnce released calm last s h)
loop-Polled released calm (p ∷ later) last s h =
    later-Polled p.sleep_cancelled (poll_loop released later last) (poll released p s)
      (poll-PolledOnce released calm p s h) (λ s' h'. loop-Polled released calm later last s' h')

-- What an entered slot holds: a lease for the provider and one for the actor, or a unit of each of
-- the two semaphores.
abbrev pub Holds : Slot → Type 0
Holds s =
    (length s.backend_leases ≡ 2)
      × (s.on_backend ≡ 2 + s.left_behind)
      × (s.local_slots ≡ false)
      × (s.actor_units ≡ 0)
      × (s.provider_units ≡ 0)
      × (s.renewing ≡ true)
    ⊎ (s.backend_leases ≡ [])
      × (s.on_backend ≡ s.left_behind)
      × (s.local_slots ≡ true)
      × (s.actor_units ≡ 1)
      × (s.provider_units ≡ 1)
      × (s.renewing ≡ false)

abbrev pub EnterPost : Result SlotError (Unit {0}) × Slot → Type 0
EnterPost (ok u, s) = Holds s
EnterPost (err e, s) = IsFree s

local-EnterPost : (wait : LocalWait) (s : Slot) → IsFree s → EnterPost (acquire_local wait s)
unfolding acquire_local
local-EnterPost both_acquired s h = inr (
  h.no_leases,
  h.only_left_behind,
  refl,
  ground (arith, h.remote),
  ground (arith, h.remote),
  ground (arith, h.remote),
)
local-EnterPost cancelled_at_actor s h = h
local-EnterPost cancelled_at_provider s h = record {
  no_leases = h.no_leases;
  only_left_behind = h.only_left_behind;
  remote = ground (arith, h.remote);
}

new-IsFree : IsFree new_slot
new-IsFree = record { no_leases = refl; only_left_behind = refl; remote = (refl, refl, refl, refl) }

module _ (released : Lease → ReleaseEnd)
    (calm : (lease : Lease) → released lease ≢ release_cancelled) (wait : LocalWait) where
  -- After a release that is not cancelled nothing is held.
  released-EnterPost :
      (s : Slot) (next : Exec SlotError Slot Unit)
      → IsCounted s × IsRemote s
      → ((s' : Slot) → IsFree s' → EnterPost (next s'))
      → EnterPost ((release_backend released >> next) s)
  released-EnterPost s next h k =
      after_release EnterPost s (release_backend released s) next
        (release_backend-ReleasePost released calm s h.0) (λ s' x. k s' (Settled-IsFree s s' h.1 x))

  recover-EnterPost :
      (production : Bool) (r : Result SlotError (Unit {0}) × Slot)
      → Polled r
      → EnterPost (recover_entry production released wait r)
  recover-EnterPost production (ok u, s) h = inl (ground (arith, h))
  recover-EnterPost true (err backend_error, s) h =
      released-EnterPost s (raise backend_unavailable) h (λ s' free. free)
  recover-EnterPost false (err backend_error, s) h =
      released-EnterPost s (acquire_local wait) h (λ s' free. local-EnterPost wait s' free)
  recover-EnterPost production (err limit_exceeded, s) h =
      released-EnterPost s (raise limit_exceeded) h (λ s' free. free)
  recover-EnterPost production (err cancelled_error, s) h =
      released-EnterPost s (raise cancelled_error) h (λ s' free. free)
  recover-EnterPost production (err backend_unavailable, s) h =
      released-EnterPost s (raise backend_unavailable) h (λ s' free. free)

  pub enter-EnterPost :
      (has_backend production : Bool) (polls : List Poll) (last : Poll)
      → EnterPost (enter_slot has_backend production released polls last wait new_slot)
  unfolding enter_slot
  enter-EnterPost true production polls last =
      recover-EnterPost production (poll_loop released polls last new_slot)
        (loop-Polled released calm polls last new_slot new-IsFree)
  enter-EnterPost false true polls last = new-IsFree
  enter-EnterPost false false polls last = local-EnterPost wait new_slot new-IsFree
