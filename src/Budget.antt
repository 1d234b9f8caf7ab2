-- ===== src/Budget.antt =====
-- cognitrix/tasks/budget.py: the limits of a run, the prices of models, and the ledger's state.
-- The ledger's methods are in Budget/Ledger, the reservations in Budget/Reservation.
-- Money is counted in the unit that makes it whole: a rate is a number of units for a million
-- tokens, and a cost is a number of millionths of a unit, so `/ Decimal(1_000_000)` is exact.
pub mod Ledger
pub mod Reservation
pub mod Parallel
pub mod Limits
pub mod Session
pub mod Counters
pub mod Counted
pub mod Attempt
pub mod Trace
pub mod Tests
use Prim.Native.String.{◌++◌ as str_append}
use text.Mathlib.Text.{◌==◌ as str_eq}
use cognitrix.Prelude.{
  ℕ, ◌+◌, ◌-◌, ◌*◌, ◌≤◌, String, Bool, false, ◌&&◌, Option, none, some, List, [], ◌∷◌, max, ltb,
  leb, ◌==◌, if◌then◌else◌, Exec, Result, ok, err, Within,
}

-- What a `BudgetExceeded` message names.
pub data Limit : Type 0 where
  wall_seconds tokens llm_calls tool_calls tool_attempts retries steps cost_usd parallel : Limit

pub data Error : Type 0 where
  budget_exceeded : Limit → Error
  unknown_model_pricing value_error already_reconciled : Error

pub record ModelPrice : Type 0 where
  pub prompt_per_million : ℕ
  pub completion_per_million : ℕ

unfoldable pub estimated_cost : Option ModelPrice → (prompt completion conservative : ℕ) → ℕ
estimated_cost none prompt completion conservative = 0
estimated_cost (some price) prompt completion conservative =
    if conservative == 0
    then prompt * price.prompt_per_million + completion * price.completion_per_million
    else conservative * max price.prompt_per_million price.completion_per_million

pub record TaskBudget : Type 0 where
  pub wall_seconds : Option ℕ
  pub max_tokens : Option ℕ
  pub max_llm_calls : Option ℕ
  pub max_tool_calls : Option ℕ
  pub max_tool_attempts : Option ℕ
  pub max_retries : Option ℕ
  pub max_steps : Option ℕ
  pub max_parallel : Option ℕ
  pub max_cost_usd : Option ℕ

-- `Field(default=None, ge=n)`
at_least : ℕ → Option ℕ → Bool
at_least n none = leb 0 0
at_least n (some value) = leb n value

clamp_parallel : Option ℕ → Option ℕ → Option ℕ
clamp_parallel (some step_limit) (some slot_limit) =
    if ltb step_limit slot_limit then some step_limit else some slot_limit
clamp_parallel max_steps max_parallel = max_parallel

bounded_parallel : TaskBudget → TaskBudget
unfolding clamp_parallel
bounded_parallel b = record b { max_parallel = clamp_parallel b.max_steps b.max_parallel }

-- `TaskBudget.model_validate`: the field bounds, then the validator that runs after them.
unfoldable pub validate : TaskBudget → Option TaskBudget
unfolding at_least bounded_parallel
validate b =
    if at_least 1 b.wall_seconds
      && at_least 1 b.max_tokens
      && at_least 1 b.max_llm_calls
      && at_least 1 b.max_tool_calls
      && at_least 1 b.max_tool_attempts
      && at_least 0 b.max_retries
      && at_least 1 b.max_steps
      && at_least 1 b.max_parallel
      && at_least 1 b.max_cost_usd
    then some (bounded_parallel b)
    else none

pub record Usage : Type 0 where
  pub prompt_tokens : ℕ
  pub completion_tokens : ℕ
  pub total_tokens : ℕ
  pub llm_calls : ℕ
  pub tool_calls : ℕ
  pub tool_attempts : ℕ
  pub retries : ℕ
  pub steps : ℕ
  pub cost_usd : ℕ

-- `_started` is the clock's reading at construction less the wall time already used, which is
-- kept beside it, since the difference may fall below the clock's zero.
pub record BudgetLedger : Type 0 where
  pub budget : TaskBudget
  pub provider : String
  pub model : String
  pub pricing : List (String × ModelPrice)
  pub created : ℕ
  pub initial_wall_seconds : ℕ
  pub reserved_tokens : ℕ
  pub reserved_cost : ℕ
  pub active_parallel : ℕ
  pub usage : Usage

abbrev pub Action : Type 0 → Type 0
Action A = Exec Error BudgetLedger A

unfoldable pub price_of : String → List (String × ModelPrice) → Option ModelPrice
price_of key [] = none
price_of key ((name, price) ∷ rest) = if str_eq name key then some price else price_of key rest

pub model_key : String → String → String
model_key provider_name model_name = str_append provider_name (str_append "/" model_name)

-- `provider if provider is not None else self.provider`
abbrev or_default : Option String → String → String
or_default none own = own
or_default (some given) own = given

require_price : Option ℕ → Option ModelPrice → Result Error (Option ModelPrice)
require_price (some limit) none = err unknown_model_pricing
require_price limit price = ok price

unfoldable pub price_for :
    Option String → Option String → BudgetLedger → Result Error (Option ModelPrice)
unfolding require_price price_of
price_for provider model l =
    require_price l.budget.max_cost_usd
      (price_of (model_key (or_default provider l.provider) (or_default model l.model)) l.pricing)

-- The wall time used up at the clock's reading `now`.
unfoldable pub elapsed : ℕ → BudgetLedger → ℕ
elapsed now l = now + l.initial_wall_seconds - l.created

-- The counters that no reservation covers, each against its limit.
pub record IsWithin (l : BudgetLedger) : Type 0 where
  pub llm_calls : Within l.budget.max_llm_calls l.usage.llm_calls
  pub tool_calls : Within l.budget.max_tool_calls l.usage.tool_calls
  pub tool_attempts : Within l.budget.max_tool_attempts l.usage.tool_attempts
  pub retries : Within l.budget.max_retries l.usage.retries
  pub steps : Within l.budget.max_steps l.usage.steps

-- Tokens and money, spent and reserved together, against their limits.
pub record IsCovered (l : BudgetLedger) : Type 0 where
  pub tokens : Within l.budget.max_tokens (l.usage.total_tokens + l.reserved_tokens)
  pub cost : Within l.budget.max_cost_usd (l.usage.cost_usd + l.reserved_cost)
