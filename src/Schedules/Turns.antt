-- ===== src/Schedules/Turns.antt =====
-- The writes of ticks and users keep the claims apart (cognitrix/tasks/scheduler.py).
use cognitrix.Prelude.{
  ℕ, ◌≡◌, refl, sym, ap, subst, inl, inr, Bool, true, false, not, ◌&&◌, ◌||◌, none, some,
  Bool-cases, ==_iff, arith,
}
use cognitrix.Schedules.{Stamp, unset, malformed, instant, Row, is_set}
use cognitrix.Schedules.Claims.{
  Claim, same_stamp, claim_task, EnqueueEnd, gives_back, claim_cond, revert_update, after_enqueue,
}
use cognitrix.Schedules.History.{Turn, World, set_turn, ended}
use cognitrix.Schedules.Disjoint.{
  Before, Upto, IsAhead, Apart, IsDisjoint, add-IsDisjoint, drop-IsDisjoint,
}

same_stamp-instant : (s : Stamp) (p : ℕ) → same_stamp s (instant p) ≡ true → s ≡ instant p
same_stamp-instant unset p e = absurd (cc e)
same_stamp-instant malformed p e = absurd (cc e)
same_stamp-instant (instant t) p e = ap instant ((==_iff t p).0 e)

Upto-later :
    (s next : Stamp) (p : ℕ) (one_shot : Bool) → Before s p → IsAhead p next one_shot → Upto s next
Upto-later s unset p one_shot b a = tt
Upto-later s malformed p one_shot b a = tt
Upto-later (instant m) (instant u) p one_shot b a = omega (arith, a.0)
Upto-later unset (instant u) p one_shot b a = absurd b
Upto-later malformed (instant u) p one_shot b a = absurd b

Upto-self : (next : Stamp) (p : ℕ) (one_shot : Bool) → IsAhead p next one_shot → Upto next next
Upto-self unset p one_shot a = tt
Upto-self malformed p one_shot a = tt
Upto-self (instant u) p one_shot a = omega arith

-- What a won claim read and left in the row.
claim_task-won :
    (c : Claim) (row : Row)
    → (claim_task c row).1 ≡ 1
    → (row.next_run_at ≡ instant c.prev) × ((claim_task c row).0.next_run_at ≡ c.next_run_at)
unfolding claim_task
claim_task-won c row e = elim (Bool-cases (same_stamp row.next_run_at (instant c.prev))) [
  | inl t ↦ (same_stamp-instant row.next_run_at c.prev t, rw t refl)
  | inr f ↦ absurd (let z : 0 ≡ 1 = rw (claim_task, f) at e in omega (arith, z))
]

pub claim-IsDisjoint :
    (w : World) (id : ℕ) (c : Claim)
    → IsAhead c.prev c.next_run_at c.one_shot
    → w.turns id ≡ none
    → (claim_task c w.row).1 ≡ 1
    → IsDisjoint w
    → IsDisjoint (record {
      row = (claim_task c w.row).0;
      turns = set_turn id (some (record { claim = c; start = none })) w.turns;
    })
claim-IsDisjoint w id c ahead free won h =
    let (was, now_is) = claim_task-won c w.row won in
    let before : (other : ℕ) (x : Turn)
        → w.turns other ≡ some x
        → Before x.claim.next_run_at c.prev =
      λ other x e. subst (Upto x.claim.next_run_at) was ((h.0 other x e).1) in
    add-IsDisjoint w ((claim_task c w.row).0) id (record { claim = c; start = none })
      (λ other x e n. (
        (h.0 other x e).0,
        subst (Upto x.claim.next_run_at) (sym now_is) (
            Upto-later x.claim.next_run_at c.next_run_at c.prev c.one_shot (before other x e)
              ahead),
      ))
      (
        ahead,
        subst (Upto c.next_run_at) (sym now_is) (Upto-self c.next_run_at c.prev c.one_shot ahead),
      )
      (λ other x e n. inl (before other x e)) h.1

held_over :
    (c x next : Stamp) (p q : ℕ) (one_shot one_shot' rest : Bool)
    → ((not (is_set c) || same_stamp next c) && rest) ≡ true
    → IsAhead p c one_shot
    → IsAhead q x one_shot'
    → Upto x next
    → Before c q
    → ⊥
held_over unset x next p q o o' rest cond a a' up b = b
held_over malformed x next p q o o' rest cond a a' up b = b
held_over (instant u) x unset p q o o' rest cond a a' up b = absurd (cc cond)
held_over (instant u) x malformed p q o o' rest cond a a' up b = absurd (cc cond)
held_over (instant u) unset (instant n) p q o o' rest cond a a' up b = up
held_over (instant u) malformed (instant n) p q o o' rest cond a a' up b = up
held_over (instant u) (instant m) (instant n) p q o o' rest cond a a' up b =
    let equal : n ≡ u = ground arith in omega (arith, equal, up, b, a'.0)

-- Before the claim that is given back, nobody else holds what it held.
Before-other :
    (c x : Claim) (row : Row)
    → claim_cond c row ≡ true
    → IsAhead c.prev c.next_run_at c.one_shot
    → IsAhead x.prev x.next_run_at x.one_shot
    → Upto x.next_run_at row.next_run_at
    → Apart x c
    → Before x.next_run_at c.prev
Before-other c x row cond a a' up (inl b) = b
Before-other c x row cond a a' up (inr b) = absurd (
    held_over c.next_run_at x.next_run_at row.next_run_at c.prev x.prev c.one_shot x.one_shot
      (not c.one_shot || not row.schedule_enabled) cond a a' up b)

revert_update-kept :
    (c : Claim) (row : Row) → claim_cond c row ≡ false → (revert_update c row).0 ≡ row
unfolding revert_update
revert_update-kept c row f = rw f refl

revert_update-done :
    (c : Claim) (row : Row)
    → claim_cond c row ≡ true
    → (revert_update c row).0.next_run_at ≡ instant c.prev
unfolding revert_update
revert_update-done c row t = rw t refl

revert-IsDisjoint :
    (w : World) (id : ℕ) (c : Claim)
    → w.turns id ≡ some (record { claim = c; start = none })
    → IsDisjoint w
    → IsDisjoint (record { row = (revert_update c w.row).0; turns = set_turn id none w.turns })
revert-IsDisjoint w id c e h = elim (Bool-cases (claim_cond c w.row)) [
  | inr f ↦
      subst (λ row. IsDisjoint (record { row = row; turns = set_turn id none w.turns }))
        (sym (revert_update-kept c w.row f))
        (drop-IsDisjoint w w.row id (λ other x p n. h.0 other x p) h.1)
  | inl t ↦
      drop-IsDisjoint w ((revert_update c w.row).0) id
        (λ other x p n. (
          (h.0 other x p).0,
          subst (Upto x.claim.next_run_at) (sym (revert_update-done c w.row t)) (
              Before-other c x.claim w.row t ((h.0 id _ e).0) ((h.0 other x p).0)
                ((h.0 other x p).1) (h.1 other id x _ n p e)),
        ))
        h.1
]

keep-IsDisjoint :
    (w : World) (id : ℕ) (c : Claim) (end : EnqueueEnd)
    → w.turns id ≡ some (record { claim = c; start = none })
    → IsDisjoint w
    → IsDisjoint (record {
      row = w.row;
      turns = set_turn id (some (record { claim = c; start = some end })) w.turns;
    })
keep-IsDisjoint w id c end e h =
    add-IsDisjoint w w.row id (record { claim = c; start = some end })
      (λ other x p n. h.0 other x p) (h.0 id _ e) (λ other x p n. h.1 other id x _ n p e) h.1

pub finish-IsDisjoint :
    (w : World) (id : ℕ) (c : Claim) (end : EnqueueEnd)
    → w.turns id ≡ some (record { claim = c; start = none })
    → IsDisjoint w
    → IsDisjoint
        (record { row = after_enqueue c end w.row; turns = set_turn id (ended c end) w.turns })
unfolding after_enqueue
finish-IsDisjoint w id c end e h = elim (Bool-cases (gives_back c end)) [
  | inl t ↦ rw t (revert-IsDisjoint w id c e h)
  | inr f ↦ rw f (keep-IsDisjoint w id c end e h)
]

-- A write that leaves no next run takes nothing from any claim.
pub unset-IsDisjoint :
    (w : World) (row : Row)
    → row.next_run_at ≡ unset
    → IsDisjoint w
    → IsDisjoint (record w { row = row })
unset-IsDisjoint w row e h =
    (λ id t p. ((h.0 id t p).0, subst (Upto t.claim.next_run_at) (sym e) tt), h.1)
