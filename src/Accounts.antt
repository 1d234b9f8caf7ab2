-- ===== src/Accounts.antt =====
-- cognitrix/tasks/repository.py and cognitrix/tasks/budget.py: the usage column of a run, where a
-- worker's ledger meets the row. `snapshot` is what a ledger reports, `_normalise_usage_snapshot`
-- and `_merge_usage` bring it into the stored dictionary, and the constructor of the ledger of the
-- next worker reads that dictionary. Money is in the ledger's unit, so its text form loses nothing.
pub mod Merge
pub mod Resume
mod Tests
use cognitrix.Prelude.{
  ℕ, String, Bool, true, false, not, ◌||◌, Option, none, some, List, [], ◌∷◌, max, ℤ, pos, negsuc,
  Result, ok, err, if◌then◌else◌,
}
use cognitrix.Budget.{TaskBudget, ModelPrice, Usage, BudgetLedger}

-- `_USAGE_COUNTER_FIELDS`
pub data UsageField : Type 0 where
  prompt_tokens completion_tokens total_tokens llm_calls tool_calls tool_attempts retries steps :
      UsageField

abbrev pub usage_counter_fields : List UsageField
usage_counter_fields =
    prompt_tokens ∷ completion_tokens ∷ total_tokens ∷ llm_calls ∷ tool_calls ∷ tool_attempts
    ∷ retries ∷ steps ∷ []

-- The value at a key of a dictionary: there is none, or a null or empty one, or a whole number of
-- tokens, calls or units of money, or anything else.
pub data Entry : Type 0 where
  absent : Entry
  falsy : Entry
  whole : ℤ → Entry
  malformed : Entry

pub record UsageDict : Type 0 where
  pub counter : UsageField → Entry
  pub cost_usd : Entry
  pub reserved_tokens : Entry
  pub reserved_cost_usd : Entry

-- A snapshot behind `_normalise_usage_snapshot`: its fields, where it has them.
pub record Snapshot : Type 0 where
  pub counter : UsageField → Option ℕ
  pub cost_usd : Option ℕ
  pub reserved_tokens : Option ℕ
  pub reserved_cost_usd : Option ℕ

pub data UsageError : Type 0 where
  value_error run_state_conflict : UsageError

abbrev pub is_refused : Entry → Bool
is_refused absent = false
is_refused (whole (pos n)) = false
is_refused _ = true

abbrev pub any_field : (UsageField → Bool) → List UsageField → Bool
any_field p [] = false
any_field p (f ∷ rest) = p f || any_field p rest

abbrev pub number_of : Entry → Option ℕ
number_of (whole (pos n)) = some n
number_of _ = none

-- `_normalise_usage_snapshot`; `has_unknown` tells of a key that is none of the fields.
unfoldable pub normalise_usage_snapshot : Bool → UsageDict → Result UsageError Snapshot
normalise_usage_snapshot has_unknown d =
    if has_unknown
      || any_field (λ f. is_refused (d.counter f)) usage_counter_fields
      || is_refused d.reserved_tokens
      || is_refused d.cost_usd
      || is_refused d.reserved_cost_usd
    then err value_error
    else ok (record {
      counter = λ f. number_of (d.counter f);
      cost_usd = number_of d.cost_usd;
      reserved_tokens = number_of d.reserved_tokens;
      reserved_cost_usd = number_of d.reserved_cost_usd;
    })

-- `max(0, current, snapshot)` on a stored entry, where the snapshot has the field.
unfoldable pub merged_counter : Entry → Option ℕ → Entry
merged_counter stored none = stored
merged_counter (whole (pos current)) (some n) = whole (pos (max current n))
merged_counter _ (some n) = whole (pos n)

-- A stored counter may be negative, but not a fraction or a text.
abbrev pub bad_counter : Entry → Option ℕ → Bool
bad_counter malformed (some n) = true
bad_counter stored snapshot = false

-- A stored cost may not be negative either.
abbrev pub bad_cost : Entry → Option ℕ → Bool
bad_cost malformed (some n) = true
bad_cost (whole (negsuc m)) (some n) = true
bad_cost stored snapshot = false

-- A gauge is the snapshot's, where it has the field.
abbrev pub gauge : Entry → Option ℕ → Entry
gauge stored none = stored
gauge stored (some n) = whole (pos n)

abbrev pub conflicts : UsageDict → Snapshot → Bool
conflicts stored s =
    any_field (λ f. bad_counter (stored.counter f) (s.counter f)) usage_counter_fields
    || bad_cost stored.cost_usd s.cost_usd

pub merged_dict : UsageDict → Snapshot → UsageDict
merged_dict stored s = record {
  counter = λ f. merged_counter (stored.counter f) (s.counter f);
  cost_usd = merged_counter stored.cost_usd s.cost_usd;
  reserved_tokens = gauge stored.reserved_tokens s.reserved_tokens;
  reserved_cost_usd = gauge stored.reserved_cost_usd s.reserved_cost_usd;
}

-- `_merge_usage`
unfoldable pub merge_usage : UsageDict → Snapshot → Result UsageError UsageDict
merge_usage stored s =
    if conflicts stored s then err run_state_conflict else ok (merged_dict stored s)

abbrev pub counter_of : Usage → UsageField → ℕ
counter_of u prompt_tokens = u.prompt_tokens
counter_of u completion_tokens = u.completion_tokens
counter_of u total_tokens = u.total_tokens
counter_of u llm_calls = u.llm_calls
counter_of u tool_calls = u.tool_calls
counter_of u tool_attempts = u.tool_attempts
counter_of u retries = u.retries
counter_of u steps = u.steps

-- `BudgetLedger.snapshot`
unfoldable pub snapshot : BudgetLedger → UsageDict
snapshot l = record {
  counter = λ f. whole (pos (counter_of l.usage f));
  cost_usd = whole (pos l.usage.cost_usd);
  reserved_tokens = whole (pos l.reserved_tokens);
  reserved_cost_usd = whole (pos l.reserved_cost);
}

-- `max(0, int(stored.get(key, 0) or 0))`, which raises on what is no number.
abbrev pub stored_number : Entry → ℕ
stored_number (whole (pos n)) = n
stored_number _ = 0

abbrev pub is_malformed : Entry → Bool
is_malformed malformed = true
is_malformed _ = false

-- What the constructor of `BudgetLedger` is given beside the stored usage.
pub record LedgerSetup : Type 0 where
  pub budget : TaskBudget
  pub provider : String
  pub model : String
  pub pricing : List (String × ModelPrice)
  pub created : ℕ
  pub initial_wall_seconds : ℕ

-- `BudgetLedger.__init__`, on a dictionary whose counters are no fractions: `int` truncates a float with
-- one, and here it is malformed. A snapshot has none, and `_merge_usage` keeps none.
unfoldable pub new_ledger : LedgerSetup → UsageDict → Result UsageError BudgetLedger
new_ledger setup stored =
    if any_field (λ f. is_malformed (stored.counter f)) usage_counter_fields
      || is_malformed stored.cost_usd
      || is_malformed stored.reserved_tokens
      || is_malformed stored.reserved_cost_usd
    then err value_error
    else ok (record {
      budget = setup.budget;
      provider = setup.provider;
      model = setup.model;
      pricing = setup.pricing;
      created = setup.created;
      initial_wall_seconds = setup.initial_wall_seconds;
      reserved_tokens = stored_number stored.reserved_tokens;
      reserved_cost = stored_number stored.reserved_cost_usd;
      active_parallel = 0;
      usage = record {
        prompt_tokens = stored_number (stored.counter prompt_tokens);
        completion_tokens = stored_number (stored.counter completion_tokens);
        total_tokens = stored_number (stored.counter total_tokens);
        llm_calls = stored_number (stored.counter llm_calls);
        tool_calls = stored_number (stored.counter tool_calls);
        tool_attempts = stored_number (stored.counter tool_attempts);
        retries = stored_number (stored.counter retries);
        steps = stored_number (stored.counter steps);
        cost_usd = stored_number stored.cost_usd;
      };
    })
