-- ===== src/Schedules/Disjoint.antt =====
-- The claims that ticks hold on a task's schedule, and what keeps them apart
-- (cognitrix/tasks/scheduler.py).
use cognitrix.Prelude.{
  ℕ, ◌≤◌, ◌<◌, ◌⊎◌, ◌≡◌, ◌≢◌, refl, sym, ◌∙◌, subst, inl, inr, Bool, true, false, Option, none,
  some, ◌==◌, Bool-cases, ==_iff, arith,
}
use cognitrix.Schedules.{Stamp, unset, malformed, instant, Row}
use cognitrix.Schedules.Claims.{Claim}
use cognitrix.Schedules.History.{Turn, World, set_turn}

-- A claim holds the instants from the one it took to the one it wrote, to no end where it is one-shot.
abbrev pub Before : Stamp → ℕ → Type 0
Before (instant m) p = m ≤ p
Before unset p = ⊥
Before malformed p = ⊥

abbrev pub Upto : Stamp → Stamp → Type 0
Upto s (instant n) = Before s n
Upto s unset = Unit
Upto s malformed = Unit

abbrev pub IsAhead : ℕ → Stamp → Bool → Type 0
IsAhead prev (instant u) one_shot = (prev < u) × (one_shot ≡ false)
IsAhead prev unset one_shot = one_shot ≡ true
IsAhead prev malformed one_shot = ⊥

abbrev pub Apart : Claim → Claim → Type 0
Apart a b = Before a.next_run_at b.prev ⊎ Before b.next_run_at a.prev

abbrev pub IsHeld : Row → Turn → Type 0
IsHeld row t =
    IsAhead t.claim.prev t.claim.next_run_at t.claim.one_shot
    × Upto t.claim.next_run_at row.next_run_at

abbrev pub IsDisjoint : World → Type 0
IsDisjoint w =
    ((id : ℕ) (t : Turn) → w.turns id ≡ some t → IsHeld w.row t)
    × ((i j : ℕ) (a b : Turn)
        → i ≢ j
        → w.turns i ≡ some a
        → w.turns j ≡ some b
        → Apart a.claim b.claim)

module _ (turns : ℕ → Option Turn) where
  set_turn-cases :
      (id : ℕ) (t : Option Turn) (other : ℕ)
      → ((other ≡ id) × (set_turn id t turns other ≡ t))
        ⊎ ((other ≢ id) × (set_turn id t turns other ≡ turns other))
  set_turn-cases id t other = elim (Bool-cases (other == id)) [
    | inl e ↦ inl ((==_iff other id).0 e, rw e refl)
    | inr f ↦ inr (λ e. absurd (ground arith), rw f refl)
  ]

Apart-sym : (a b : Claim) → Apart a b → Apart b a
Apart-sym a b (inl x) = inr x
Apart-sym a b (inr x) = inl x

-- A turn is added, under a number that is free, or takes another's place with the same claim.
pub add-IsDisjoint :
    (w : World) (row : Row) (id : ℕ) (t : Turn)
    → ((other : ℕ) (x : Turn) → w.turns other ≡ some x → other ≢ id → IsHeld row x)
    → IsHeld row t
    → ((other : ℕ) (x : Turn) → w.turns other ≡ some x → other ≢ id → Apart x.claim t.claim)
    → ((i j : ℕ) (a b : Turn)
        → i ≢ j
        → w.turns i ≡ some a
        → w.turns j ≡ some b
        → Apart a.claim b.claim)
    → IsDisjoint (record { row = row; turns = set_turn id (some t) w.turns })
add-IsDisjoint w row id t held here apart old = (
  λ other x e. elim (set_turn-cases w.turns id (some t) other) [
    | inl (s, u) ↦ let same : t ≡ x = cc in subst (IsHeld row) same here
    | inr (n, u) ↦ held other x (sym u ∙ e) n
  ],
  λ i j a b n p q. elim (set_turn-cases w.turns id (some t) i) [
    | inl (s, u) ↦ elim (set_turn-cases w.turns id (some t) j) [
      | inl (s', u') ↦ absurd (n (s ∙ sym s'))
      | inr (n', u') ↦
          let same : t ≡ a = cc (u, p) in
          subst (λ x. Apart x.claim b.claim) same
            (Apart-sym b.claim t.claim (apart j b (sym u' ∙ q) n'))
    ]
    | inr (m, u) ↦ elim (set_turn-cases w.turns id (some t) j) [
      | inl (s', u') ↦
          let same : t ≡ b = cc (u', q) in
          subst (λ x. Apart a.claim x.claim) same (apart i a (sym u ∙ p) m)
      | inr (n', u') ↦ old i j a b n (sym u ∙ p) (sym u' ∙ q)
    ]
  ],
)

pub drop-IsDisjoint :
    (w : World) (row : Row) (id : ℕ)
    → ((other : ℕ) (x : Turn) → w.turns other ≡ some x → other ≢ id → IsHeld row x)
    → ((i j : ℕ) (a b : Turn)
        → i ≢ j
        → w.turns i ≡ some a
        → w.turns j ≡ some b
        → Apart a.claim b.claim)
    → IsDisjoint (record { row = row; turns = set_turn id none w.turns })
drop-IsDisjoint w row id held old = (
  λ other x e. elim (set_turn-cases w.turns id none other) [
    | inl (s, u) ↦ absurd (cc (u, e))
    | inr (n, u) ↦ held other x (sym u ∙ e) n
  ],
  λ i j a b n p q. elim (set_turn-cases w.turns id none i) [
    | inl (s, u) ↦ absurd (cc (u, p))
    | inr (m, u) ↦ elim (set_turn-cases w.turns id none j) [
      | inl (s', u') ↦ absurd (cc (u', q))
      | inr (n', u') ↦ old i j a b n (sym u ∙ p) (sym u' ∙ q)
    ]
  ],
)
