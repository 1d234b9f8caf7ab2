-- ===== src/Budget/Limits.antt =====
-- The limits on calls, attempts, retries and steps, whatever is called.
use cognitrix.Prelude.{
  ℕ, String, Bool, true, false, Option, ℤ, pos, negsuc, zero, suc, Result, arith,
}
use cognitrix.Budget.{Error, ModelPrice, BudgetLedger, IsWithin}
use cognitrix.Budget.Ledger.{
  reserve_tokens, begin_llm_call, begin_bounded_llm_attempt, consume_llm_call, consume_step,
  consume_retry, consume_provider_retry, consume_tool_call, consume_tool_attempt, reserve_priced,
  call_priced, bounded_attempt, guarded_ind, priced_ind,
}

-- A method keeps a property if it does where its tests pass.
abbrev pub Kept : {A : Type 0} → Result Error A × BudgetLedger → Type 0
Kept r = IsWithin r.1

module _ (now : ℕ) (l : BudgetLedger) (h : IsWithin l) where
  reserve_priced-IsWithin :
      (estimate : ℕ) (price : Option ModelPrice) → Kept (reserve_priced now estimate price l)
  unfolding reserve_priced
  reserve_priced-IsWithin estimate price = guarded_ind Kept _ _ _ _ (λ w. ground arith) (λ _. h)

  call_priced-IsWithin :
      (estimate : ℕ) (price : Option ModelPrice) → Kept (call_priced now estimate price l)
  unfolding call_priced
  call_priced-IsWithin estimate price = guarded_ind Kept _ _ _ _ (λ w. ground arith) (λ _. h)

  bounded_attempt-IsWithin :
      (is_retry : Bool) (prompt requested : ℕ) (price : Option ModelPrice)
      → Kept (bounded_attempt is_retry now prompt requested price l)
  unfolding bounded_attempt
  bounded_attempt-IsWithin true prompt requested price =
      guarded_ind Kept _ _ _ _ (λ w. ground arith) (λ _. h)
  bounded_attempt-IsWithin false prompt requested price =
      guarded_ind Kept _ _ _ _ (λ w. ground arith) (λ _. h)

  pub consume_llm_call-IsWithin : Kept (consume_llm_call now l)
  unfolding consume_llm_call
  consume_llm_call-IsWithin = guarded_ind Kept _ _ _ _ (λ w. ground arith) (λ _. h)

  pub consume_step-IsWithin : Kept (consume_step now l)
  unfolding consume_step
  consume_step-IsWithin = guarded_ind Kept _ _ _ _ (λ w. ground arith) (λ _. h)

  pub consume_retry-IsWithin : Kept (consume_retry now l)
  unfolding consume_retry
  consume_retry-IsWithin = guarded_ind Kept _ _ _ _ (λ w. ground arith) (λ _. h)

  pub consume_provider_retry-IsWithin : Kept (consume_provider_retry now l)
  unfolding consume_provider_retry
  consume_provider_retry-IsWithin = guarded_ind Kept _ _ _ _ (λ w. ground arith) (λ _. h)

  pub consume_tool_call-IsWithin : (attempts : ℕ) → Kept (consume_tool_call now attempts l)
  unfolding consume_tool_call
  consume_tool_call-IsWithin attempts = guarded_ind Kept _ _ _ _ (λ w. ground arith) (λ _. h)

  pub consume_tool_attempt-IsWithin : (first : Bool) → Kept (consume_tool_attempt now first l)
  unfolding consume_tool_attempt
  consume_tool_attempt-IsWithin first = guarded_ind Kept _ _ _ _ (λ w. ground arith) (λ _. h)

module _ (now : ℕ) (provider model : Option String) (l : BudgetLedger) (h : IsWithin l) where
  pub reserve_tokens-IsWithin : (estimate : ℤ) → Kept (reserve_tokens now estimate provider model l)
  unfolding reserve_tokens
  reserve_tokens-IsWithin (negsuc _) = h
  reserve_tokens-IsWithin (pos estimate) =
      priced_ind Kept _ (reserve_priced now estimate) l (reserve_priced-IsWithin now l h estimate)
        (λ _. h)

  pub begin_llm_call-IsWithin : (estimate : ℤ) → Kept (begin_llm_call now estimate provider model l)
  unfolding begin_llm_call
  begin_llm_call-IsWithin (negsuc _) = h
  begin_llm_call-IsWithin (pos estimate) =
      priced_ind Kept _ (call_priced now estimate) l (call_priced-IsWithin now l h estimate)
        (λ _. h)

  pub begin_bounded_llm_attempt-IsWithin :
      (is_retry : Bool) (prompt requested : ℤ)
      → Kept (begin_bounded_llm_attempt is_retry now prompt requested provider model l)
  unfolding begin_bounded_llm_attempt
  begin_bounded_llm_attempt-IsWithin is_retry (negsuc _) requested = h
  begin_bounded_llm_attempt-IsWithin is_retry (pos _) (negsuc _) = h
  begin_bounded_llm_attempt-IsWithin is_retry (pos _) (pos zero) = h
  begin_bounded_llm_attempt-IsWithin is_retry (pos prompt) (pos (suc more)) =
      priced_ind Kept _ (bounded_attempt is_retry now prompt (suc more)) l
        (bounded_attempt-IsWithin now l h is_retry prompt (suc more)) (λ _. h)
