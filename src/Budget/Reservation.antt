-- ===== src/Budget/Reservation.antt =====
-- cognitrix/tasks/budget.py: what happens to a `TokenReservation` once its call has ended.
use cognitrix.Prelude.{
  ℕ, ◌+◌, ◌-◌, ◌≡◌, true, Option, none, some, ◌==◌, if◌then◌else◌, ℤ, pos, negsuc, Result, err,
  raise, List, [], ◌∷◌, arith,
}
use cognitrix.Budget.{
  tokens, cost_usd, Error, value_error, already_reconciled, ModelPrice, estimated_cost,
  BudgetLedger, Action, IsWithin,
}
use cognitrix.Budget.Ledger.{Check, TokenReservation, guarded, spend}

-- `max(0, reserved - estimate)` is the truncated difference.
abbrev pub unreserve : ℕ → ℕ → BudgetLedger → BudgetLedger
unreserve estimate cost l = record l {
  reserved_tokens = l.reserved_tokens - estimate;
  reserved_cost = l.reserved_cost - cost;
}

-- The prompt and completion counts are taken to be natural: the code tests only the sign of `actual`.
abbrev pub prompt_part : ℕ → Option ℕ → Option ℕ → ℕ
prompt_part actual none none = actual
prompt_part actual none (some completion) = 0
prompt_part actual (some prompt) completion = prompt

abbrev pub completion_part : Option ℕ → Option ℕ → ℕ
completion_part prompt none = 0
completion_part prompt (some completion) = completion

unfoldable pub charge : ℕ → ℕ → Option ModelPrice → BudgetLedger → BudgetLedger
unfolding estimated_cost
charge prompt completion price = spend λ u. record u {
  prompt_tokens = u.prompt_tokens + prompt;
  completion_tokens = u.completion_tokens + completion;
  total_tokens = u.total_tokens + (prompt + completion);
  cost_usd = u.cost_usd + estimated_cost price prompt completion 0;
}

abbrev pub spent_checks : BudgetLedger → List Check
spent_checks l =
    (tokens, l.budget.max_tokens, l.usage.total_tokens)
    ∷ (cost_usd, l.budget.max_cost_usd, l.usage.cost_usd)
    ∷ []

abbrev pub settle_tokens : ℕ → ℕ → ℕ → Option ModelPrice → ℕ → Action Unit
settle_tokens estimate prompt completion price cost l =
    let l' = charge prompt completion price (unreserve estimate cost l) in
    guarded (spent_checks l') (λ x. x) tt l'

-- `_reconcile_tokens`. The new totals stay when the limits are then found to be passed.
unfoldable pub reconcile_tokens : ℕ → ℤ → Option ℕ → Option ℕ → Option ModelPrice → ℕ → Action Unit
unfolding charge
reconcile_tokens estimate (negsuc _) prompt completion price cost l = raise value_error l
reconcile_tokens estimate (pos actual) prompt completion price cost l =
    let p = prompt_part actual prompt completion in
    let c = completion_part prompt completion in
    if p + c == actual then settle_tokens estimate p c price cost l else raise value_error l

-- `TokenReservation.reconcile`: the flag is set before the ledger is called, so it stays set when
-- the ledger raises.
unfoldable pub reconcile :
    TokenReservation
    → ℤ
    → Option ℕ
    → Option ℕ
    → BudgetLedger
    → Result Error (Unit {0}) × BudgetLedger × TokenReservation
unfolding reconcile_tokens
reconcile r actual prompt completion l =
    if r.reconciled
    then (err already_reconciled, l, r)
    else let (result, l') =
        reconcile_tokens r.estimate actual prompt completion r.price r.reserved_cost l in
      (result, l', record r { reconciled = true })

-- `TokenReservation.release`
unfoldable pub release : TokenReservation → BudgetLedger → BudgetLedger × TokenReservation
release r l =
    if r.reconciled
    then (l, r)
    else (unreserve r.estimate r.reserved_cost l, record r { reconciled = true })

-- What is left to settle of a reservation that was settled: nothing, with the ledger alone.
abbrev pub LeavesAlone : TokenReservation → Type 0
LeavesAlone r =
    (actual : ℤ) (prompt completion : Option ℕ) (l : BudgetLedger)
    → (reconcile r actual prompt completion l ≡ (err already_reconciled, l, r))
      × (release r l ≡ (l, r))

-- A reservation can be settled once. After a reconciliation, whether it returned or raised, and after
-- a release, every later reconciliation, with whatever counts, raises and every later release
-- returns, and neither changes the ledger, however that has changed meanwhile, or the reservation.
pub settled_once :
    (r : TokenReservation) (actual : ℤ) (prompt completion : Option ℕ) (l : BudgetLedger)
    → LeavesAlone (reconcile r actual prompt completion l).2 × LeavesAlone (release r l).1
unfolding reconcile release
settled_once r actual prompt completion l =
    (λ actual' prompt' completion' l'. ground arith, λ actual' prompt' completion' l'. ground arith)

-- Settling changes no counter but those of tokens and money, and no limit.
pub reconcile-IsWithin :
    (r : TokenReservation) (actual : ℤ) (prompt completion : Option ℕ) (l : BudgetLedger)
    → IsWithin l
    → IsWithin (reconcile r actual prompt completion l).1
unfolding reconcile
reconcile-IsWithin r (negsuc _) prompt completion l h = ground arith
reconcile-IsWithin r (pos actual) prompt completion l h = ground arith

pub release-IsWithin :
    (r : TokenReservation) (l : BudgetLedger) → IsWithin l → IsWithin (release r l).0
unfolding release
release-IsWithin r l h = ground arith
