-- ===== src/Budget/Counters.antt =====
-- The calls of the ledger that make no reservation leave tokens and money alone.
use cognitrix.Prelude.{ℕ, ◌≡◌, Bool, Result, arith}
use cognitrix.Budget.{Error, BudgetLedger}
use cognitrix.Budget.Ledger.{
  guarded_ind, consume_llm_call, consume_step, consume_retry, consume_provider_retry,
  consume_tool_call, consume_tool_attempt,
}

pub record SameTokens (l l' : BudgetLedger) : Type 0 where
  pub budget : l'.budget ≡ l.budget
  pub reserved_tokens : l'.reserved_tokens ≡ l.reserved_tokens
  pub reserved_cost : l'.reserved_cost ≡ l.reserved_cost
  pub total_tokens : l'.usage.total_tokens ≡ l.usage.total_tokens
  pub cost_usd : l'.usage.cost_usd ≡ l.usage.cost_usd

abbrev Same : BudgetLedger → Result Error (Unit {0}) × BudgetLedger → Type 0
Same l r = SameTokens l r.1

unchanged : (l : BudgetLedger) → SameTokens l l
unchanged l = ground arith

module _ (now : ℕ) (l : BudgetLedger) where
  pub consume_llm_call-SameTokens : SameTokens l (consume_llm_call now l).1
  unfolding consume_llm_call
  consume_llm_call-SameTokens = guarded_ind (Same l) _ _ _ _ (λ w. ground arith) (λ _. unchanged l)

  pub consume_step-SameTokens : SameTokens l (consume_step now l).1
  unfolding consume_step
  consume_step-SameTokens = guarded_ind (Same l) _ _ _ _ (λ w. ground arith) (λ _. unchanged l)

  pub consume_retry-SameTokens : SameTokens l (consume_retry now l).1
  unfolding consume_retry
  consume_retry-SameTokens = guarded_ind (Same l) _ _ _ _ (λ w. ground arith) (λ _. unchanged l)

  pub consume_provider_retry-SameTokens : SameTokens l (consume_provider_retry now l).1
  unfolding consume_provider_retry
  consume_provider_retry-SameTokens =
      guarded_ind (Same l) _ _ _ _ (λ w. ground arith) (λ _. unchanged l)

  pub consume_tool_call-SameTokens :
      (attempts : ℕ) → SameTokens l (consume_tool_call now attempts l).1
  unfolding consume_tool_call
  consume_tool_call-SameTokens attempts =
      guarded_ind (Same l) _ _ _ _ (λ w. ground arith) (λ _. unchanged l)

  pub consume_tool_attempt-SameTokens :
      (first : Bool) → SameTokens l (consume_tool_attempt now first l).1
  unfolding consume_tool_attempt
  consume_tool_attempt-SameTokens first =
      guarded_ind (Same l) _ _ _ _ (λ w. ground arith) (λ _. unchanged l)
