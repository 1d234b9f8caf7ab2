-- ===== src/Budget/Parallel.antt =====
-- cognitrix/tasks/budget.py: the parallel slots of a run, `acquire_parallel` and
-- `release_parallel`. A call that finds no slot waits on the condition, which gives the lock up; a
-- call that is woken makes the test of the wall time and that of the slots again, as `enter` does.
use cognitrix.Prelude.{
  ℕ, ◌+◌, ◌-◌, ◌≤◌, ◌≡◌, ◌||◌, ◌==◌, inl, inr, Bool, true, false, Option, none, some, List, [], ◌∷◌,
  length, leb, exceeds, Within, if◌then◌else◌, Bool-cases, arith,
}
use cognitrix.Budget.{Limit, wall_seconds, parallel, BudgetLedger, elapsed}

pub data Outcome : Type 0 where
  acquired waiting : Outcome
  refused : Limit → Outcome

abbrev take_slot : BudgetLedger → BudgetLedger
take_slot l = record l { active_parallel = l.active_parallel + 1 }

-- The slots under a limit.
enter_limited : Option ℕ → Bool → BudgetLedger → Outcome × BudgetLedger
enter_limited none wait l = (acquired, take_slot l)
enter_limited (some limit) wait l =
    if leb limit l.active_parallel
    then (if wait then waiting else refused parallel, l)
    else (acquired, take_slot l)

-- `acquire_parallel` up to the next time that it waits.
unfoldable pub enter : ℕ → Bool → BudgetLedger → Outcome × BudgetLedger
unfolding enter_limited
enter now wait l =
    if exceeds l.budget.wall_seconds (elapsed now l)
    then (refused wall_seconds, l)
    else enter_limited l.budget.max_parallel wait l

-- `max(0, active - 1)` is the truncated difference; `notify(1)` lets one waiting call run `enter`.
unfoldable pub leave : BudgetLedger → BudgetLedger
leave l = record l { active_parallel = l.active_parallel - 1 }

-- The ledger, and the calls that are inside a `parallel_slot`.
pub record Slots : Type 0 where
  pub ledger : BudgetLedger
  pub holders : List ℕ

pub data Turn : Type 0 where
  arrive : ℕ → ℕ → Bool → Turn
  depart : ℕ → Turn

abbrev pub is_among : ℕ → List ℕ → Bool
is_among id [] = false
is_among id (other ∷ rest) = id == other || is_among id rest

unfoldable pub without : ℕ → List ℕ → List ℕ
without id [] = []
without id (other ∷ rest) =
    let later = without id rest in if id == other then rest else other ∷ later

-- A call that acquired goes on into its body.
abbrev pub enter_body : ℕ → List ℕ → Outcome × BudgetLedger → Slots
enter_body id holders (acquired, l) = record { ledger = l; holders = id ∷ holders }
enter_body id holders (waiting, l) = record { ledger = l; holders = holders }
enter_body id holders (refused limit, l) = record { ledger = l; holders = holders }

-- `parallel_slot`: a call arrives, or wakes up, at the clock's reading; and a call whose body has
-- ended, however it ended, releases. Only a call that is inside its body comes to the release.
unfoldable pub turn : Slots → Turn → Slots
unfolding enter leave
turn s (arrive id now wait) = enter_body id s.holders (enter now wait s.ledger)
turn s (depart id) =
    if is_among id s.holders
    then record { ledger = leave s.ledger; holders = without id s.holders }
    else s

unfoldable pub turns : Slots → List Turn → Slots
turns s [] = s
turns s (t ∷ ts) = turns (turn s t) ts

-- The counter is the number of the calls that hold a slot, and that fits the limit.
pub record FitsSlots (limit : Option ℕ) (s : Slots) : Type 0 where
  pub same_limit : s.ledger.budget.max_parallel ≡ limit
  pub counted : s.ledger.active_parallel ≡ length s.holders
  pub fits : Within limit (length s.holders)

length-without :
    (id : ℕ) (holders : List ℕ)
    → is_among id holders ≡ true
    → length (without id holders) + 1 ≡ length holders
unfolding without
length-without id [] e = absurd (cc e)
length-without id (other ∷ rest) e = elim (Bool-cases (id == other)) [
  | inl t ↦ rw t (omega arith)
  | inr f ↦ rw f (omega (arith, length-without id rest (rw f at e)))
]

fewer-fit : (limit : Option ℕ) (n m : ℕ) → n ≤ m → Within limit m → Within limit n
fewer-fit none n m le h = tt
fewer-fit (some limit) n m le h = omega (arith, le, h)

enter-FitsSlots :
    (limit : Option ℕ) (id now : ℕ) (wait : Bool) (s : Slots)
    → FitsSlots limit s
    → FitsSlots limit (enter_body id s.holders (enter now wait s.ledger))
unfolding enter
enter-FitsSlots limit id now wait s h = ground (arith, h.same_limit, h.counted, h.fits)

turn-FitsSlots :
    (limit : Option ℕ) (s : Slots) (t : Turn) → FitsSlots limit s → FitsSlots limit (turn s t)
unfolding turn
turn-FitsSlots limit s (arrive id now wait) h = enter-FitsSlots limit id now wait s h
turn-FitsSlots limit s (depart id) h = elim (Bool-cases (is_among id s.holders)) [
  | inr f ↦ rw f h
  | inl t ↦
      let fewer = length-without id s.holders t in
      rw t (record {
        same_limit = h.same_limit;
        counted = omega (arith, h.counted, fewer);
        fits = fewer-fit limit _ _ (omega (arith, fewer)) h.fits;
      })
]

-- If the counter is the number of the calls that hold a slot, and that number fits the limit, then
-- both stay so whatever the order in which calls arrive, wake up, and leave: never more calls hold a
-- slot than the limit allows, and a slot that is given back is free again.
pub turns-FitsSlots :
    (limit : Option ℕ) (s : Slots) (ts : List Turn)
    → FitsSlots limit s
    → FitsSlots limit (turns s ts)
unfolding turns
turns-FitsSlots limit s [] h = h
turns-FitsSlots limit s (t ∷ ts) h =
    turns-FitsSlots limit (turn s t) ts (turn-FitsSlots limit s t h)
