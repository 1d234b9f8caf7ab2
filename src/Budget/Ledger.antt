-- ===== src/Budget/Ledger.antt =====
-- cognitrix/tasks/budget.py: the methods of `BudgetLedger`. `now` is the clock's reading.
-- A method first makes all its tests, `if bound is not None and used > bound: raise`, in the
-- source's order, and then all its assignments: `guarded` takes the one and the other.
use cognitrix.Prelude.{
  ℕ, zero, suc, ◌+◌, ◌-◌, String, ◌≡◌, inl, inr, Bool, true, false, Option, none, some, List, [],
  ◌∷◌, min, leb, if◌then◌else◌, ℤ, pos, negsuc, exceeds, Within, Result, ok, err, raise, and_then,
  arith, Option-cases,
}
use cognitrix.Budget.{
  Limit, wall_seconds, tokens, llm_calls, tool_calls, tool_attempts, retries, steps, cost_usd,
  Error, budget_exceeded, value_error, ModelPrice, estimated_cost, Usage, BudgetLedger, Action,
  price_for, elapsed,
}

abbrev pub Check : Type 0
Check = Limit × Option ℕ × ℕ

unfoldable pub first_exceeded : List Check → Option Limit
first_exceeded [] = none
first_exceeded ((limit, bound, used) ∷ rest) =
    if exceeds bound used then some limit else first_exceeded rest

module _ {A : Type 0} where
  abbrev pub commit : Option Limit → (BudgetLedger → BudgetLedger) → A → Action A
  commit none update result l = (ok result, update l)
  commit (some limit) update result l = (err (budget_exceeded limit), l)

  abbrev pub guarded : List Check → (BudgetLedger → BudgetLedger) → A → Action A
  guarded checks update result l = commit (first_exceeded checks) update result l

-- `_raise_if_wall_expired`
abbrev pub wall_check : ℕ → BudgetLedger → Check
wall_check now l = (wall_seconds, l.budget.wall_seconds, elapsed now l)

unfoldable pub checkpoint : ℕ → Action Unit
unfolding first_exceeded
checkpoint now l = guarded (wall_check now l ∷ []) (λ l'. l') tt l

abbrev remaining : Option ℕ → ℕ → Result Error (Option ℕ)
remaining none used = ok none
remaining (some limit) used =
    if leb limit used then err (budget_exceeded wall_seconds) else ok (some (limit - used))

unfoldable pub remaining_wall_seconds : ℕ → BudgetLedger → Result Error (Option ℕ)
unfolding elapsed
remaining_wall_seconds now l = remaining l.budget.wall_seconds (elapsed now l)

-- What a reservation remembers of the call that made it.
pub record TokenReservation : Type 0 where
  pub estimate : ℕ
  pub price : Option ModelPrice
  pub reserved_cost : ℕ
  pub reconciled : Bool

abbrev pub reservation : ℕ → Option ModelPrice → ℕ → TokenReservation
reservation estimate price cost = record {
  estimate = estimate;
  price = price;
  reserved_cost = cost;
  reconciled = false;
}

abbrev pub reserve : ℕ → ℕ → BudgetLedger → BudgetLedger
reserve estimate cost l = record l {
  reserved_tokens = l.reserved_tokens + estimate;
  reserved_cost = l.reserved_cost + cost;
}

abbrev pub spend : (Usage → Usage) → BudgetLedger → BudgetLedger
spend f l = record l { usage = f l.usage }

abbrev llm_call_check : BudgetLedger → Check
llm_call_check l = (llm_calls, l.budget.max_llm_calls, l.usage.llm_calls + 1)

abbrev token_check : ℕ → BudgetLedger → Check
token_check estimate l =
    (tokens, l.budget.max_tokens, l.usage.total_tokens + l.reserved_tokens + estimate)

abbrev cost_check : ℕ → BudgetLedger → Check
cost_check cost l = (cost_usd, l.budget.max_cost_usd, l.usage.cost_usd + l.reserved_cost + cost)

abbrev add_llm_call : BudgetLedger → BudgetLedger
add_llm_call = spend (λ u. record u { llm_calls = u.llm_calls + 1 })

-- The bodies of the two methods behind the test of the estimate and the price.
unfoldable pub reserve_priced : ℕ → ℕ → Option ModelPrice → Action TokenReservation
reserve_priced now estimate price l =
    let cost = estimated_cost price 0 0 estimate in
    guarded (wall_check now l ∷ token_check estimate l ∷ cost_check cost l ∷ [])
      (reserve estimate cost) (reservation estimate price cost) l

unfoldable pub call_priced : ℕ → ℕ → Option ModelPrice → Action TokenReservation
call_priced now estimate price l =
    let cost = estimated_cost price 0 0 estimate in
    guarded (wall_check now l ∷ llm_call_check l ∷ token_check estimate l ∷ cost_check cost l ∷ [])
      (λ l'. reserve estimate cost (add_llm_call l')) (reservation estimate price cost) l

unfoldable pub reserve_tokens : ℕ → ℤ → Option String → Option String → Action TokenReservation
reserve_tokens now (negsuc _) provider model l = raise value_error l
reserve_tokens now (pos estimate) provider model l =
    and_then (price_for provider model l) (reserve_priced now estimate) l

unfoldable pub begin_llm_call : ℕ → ℤ → Option String → Option String → Action TokenReservation
begin_llm_call now (negsuc _) provider model l = raise value_error l
begin_llm_call now (pos estimate) provider model l =
    and_then (price_for provider model l) (call_priced now estimate) l

-- `output_tokens = min(output_tokens, remaining)`, under a limit.
unfoldable pub clamp_output : Option ℕ → ℕ → ℕ → ℕ
clamp_output none used requested = requested
clamp_output (some limit) used requested = min requested (limit - used)

-- `is_retry and …` skips the test of a first attempt.
abbrev retry_check : Bool → BudgetLedger → Check
retry_check false l = (retries, none, 0)
retry_check true l = (retries, l.budget.max_retries, l.usage.retries + 1)

abbrev add_retry : Bool → BudgetLedger → BudgetLedger
add_retry false = λ l. l
add_retry true = spend (λ u. record u { retries = u.retries + 1 })

-- The body of `_begin_bounded_llm_attempt` behind its tests of the arguments; `remaining < 1` is
-- that one more token passes the limit.
unfoldable pub bounded_attempt :
    Bool → ℕ → (prompt requested : ℕ) → Option ModelPrice → Action (TokenReservation × ℕ)
bounded_attempt is_retry now prompt requested price l =
    let output =
      clamp_output l.budget.max_tokens (l.usage.total_tokens + l.reserved_tokens + prompt)
        requested in
    let cost = estimated_cost price prompt output 0 in
    guarded
      (wall_check now l
        ∷ retry_check is_retry l
        ∷ llm_call_check l
        ∷ token_check (prompt + 1) l
        ∷ cost_check cost l
        ∷ [])
      (λ l'. reserve (prompt + output) cost (add_retry is_retry (add_llm_call l')))
      (reservation (prompt + output) price cost, output) l

unfoldable pub begin_bounded_llm_attempt :
    Bool → ℕ → ℤ → ℤ → Option String → Option String → Action (TokenReservation × ℕ)
begin_bounded_llm_attempt is_retry now (negsuc _) requested provider model l = raise value_error l
begin_bounded_llm_attempt is_retry now (pos _) (negsuc _) provider model l = raise value_error l
begin_bounded_llm_attempt is_retry now (pos _) (pos zero) provider model l = raise value_error l
begin_bounded_llm_attempt is_retry now (pos prompt) (pos (suc more)) provider model l =
    and_then (price_for provider model l) (bounded_attempt is_retry now prompt (suc more)) l

abbrev pub begin_bounded_llm_call :
    ℕ → ℤ → ℤ → Option String → Option String → Action (TokenReservation × ℕ)
begin_bounded_llm_call = begin_bounded_llm_attempt false

abbrev pub begin_bounded_llm_retry :
    ℕ → ℤ → ℤ → Option String → Option String → Action (TokenReservation × ℕ)
begin_bounded_llm_retry = begin_bounded_llm_attempt true

unfoldable pub consume_llm_call : ℕ → Action Unit
consume_llm_call now l = guarded (wall_check now l ∷ llm_call_check l ∷ []) add_llm_call tt l

unfoldable pub consume_step : ℕ → Action Unit
consume_step now l =
    guarded (wall_check now l ∷ (steps, l.budget.max_steps, l.usage.steps + 1) ∷ [])
      (spend (λ u. record u { steps = u.steps + 1 })) tt l

unfoldable pub consume_retry : ℕ → Action Unit
consume_retry now l = guarded (wall_check now l ∷ retry_check true l ∷ []) (add_retry true) tt l

unfoldable pub consume_provider_retry : ℕ → Action Unit
consume_provider_retry now l =
    guarded (wall_check now l ∷ retry_check true l ∷ llm_call_check l ∷ [])
      (λ l'. add_llm_call (add_retry true l')) tt l

unfoldable pub consume_tool_call : ℕ → ℕ → Action Unit
consume_tool_call now attempts l =
    guarded
      (wall_check now l
        ∷ (tool_calls, l.budget.max_tool_calls, l.usage.tool_calls + 1)
        ∷ (tool_attempts, l.budget.max_tool_attempts, l.usage.tool_attempts + attempts)
        ∷ [])
      (spend (λ u. record u {
        tool_calls = u.tool_calls + 1;
        tool_attempts = u.tool_attempts + attempts;
      }))
      tt l

abbrev first_attempt : Bool → ℕ
first_attempt first_for_call = if first_for_call then 1 else 0

abbrev later_attempt : Bool → ℕ
later_attempt first_for_call = if first_for_call then 0 else 1

unfoldable pub consume_tool_attempt : ℕ → Bool → Action Unit
consume_tool_attempt now first_for_call l =
    guarded
      (wall_check now l
        ∷ (tool_calls, l.budget.max_tool_calls, l.usage.tool_calls + first_attempt first_for_call)
        ∷ (tool_attempts, l.budget.max_tool_attempts, l.usage.tool_attempts + 1)
        ∷ (retries, l.budget.max_retries, l.usage.retries + later_attempt first_for_call)
        ∷ [])
      (spend (λ u. record u {
        tool_calls = u.tool_calls + first_attempt first_for_call;
        tool_attempts = u.tool_attempts + 1;
        retries = u.retries + later_attempt first_for_call;
      }))
      tt l

-- What a list of tests demands when none of them raises.
abbrev pub AllWithin : List Check → Type 0
AllWithin [] = Unit
AllWithin ((limit, bound, used) ∷ rest) = Within bound used × AllWithin rest

pub Within-of_passed :
    (limit : Option ℕ) (used : ℕ) → exceeds limit used ≡ false → Within limit used
Within-of_passed none used h = tt
Within-of_passed (some limit) used h = ground arith

pub first_exceeded-none : (checks : List Check) → first_exceeded checks ≡ none → AllWithin checks
unfolding first_exceeded
first_exceeded-none [] h = tt
first_exceeded-none ((limit, bound, used) ∷ rest) h =
    (Within-of_passed bound used (ground arith), first_exceeded-none rest (ground arith))

-- To prove something of a guarded method: of its update where every test passes, and of each raise.
pub guarded_ind :
    {A : Type 0} (Q : Result Error A × BudgetLedger → Type 0) (checks : List Check)
    (update : BudgetLedger → BudgetLedger) (result : A) (l : BudgetLedger)
    → (AllWithin checks → Q (ok result, update l))
    → ((limit : Limit) → Q (err (budget_exceeded limit), l))
    → Q (guarded checks update result l)
guarded_ind Q checks update result l passed stopped = elim (Option-cases (first_exceeded checks)) [
  | inl e ↦ rw e (passed (first_exceeded-none checks e))
  | inr (limit, e) ↦ rw e (stopped limit)
]

-- The same behind a price that may be missing.
pub priced_ind :
    {A : Type 0} (Q : Result Error A × BudgetLedger → Type 0) (r : Result Error (Option ModelPrice))
    (f : Option ModelPrice → Action A) (l : BudgetLedger)
    → ((price : Option ModelPrice) → Q (f price l))
    → ((e : Error) → Q (err e, l))
    → Q (and_then r f l)
priced_ind Q (ok price) f l found missing = found price
priced_ind Q (err e) f l found missing = missing e
