-- ===== src/Budget/Attempt.antt =====
-- What a reservation promises: it is covered by the limits when it is made, and a bounded attempt
-- gets as many output tokens as the limit leaves.
use cognitrix.Prelude.{
  ℕ, zero, suc, ◌+◌, ◌-◌, ◌≤◌, ◌<◌, String, ◌≡◌, refl, Bool, true, false, Option, none, some, ℤ,
  pos, negsuc, Within, Result, ok, err, arith, inl, inr, ◌⊎◌, ap, ◌∙◌, if◌then◌else◌,
}
use native.Mathlib.Decide.{dec_le}
use cognitrix.Budget.{Error, ModelPrice, BudgetLedger, IsCovered}
use cognitrix.Budget.Ledger.{
  TokenReservation, reserve_priced, call_priced, bounded_attempt, clamp_output, reserve_tokens,
  begin_llm_call, begin_bounded_llm_attempt, guarded_ind, priced_ind,
}

-- A new reservation is added to the reserved sums, and all is still covered; a raise leaves the
-- ledger as it was.
abbrev pub Issued : BudgetLedger → Result Error TokenReservation × BudgetLedger → Type 0
Issued l (ok r, l') =
    (r.reconciled ≡ false)
    × (l'.reserved_tokens ≡ l.reserved_tokens + r.estimate)
    × (l'.reserved_cost ≡ l.reserved_cost + r.reserved_cost)
    × IsCovered l'
Issued l (err e, l') = l' ≡ l

abbrev pub IssuedBounded :
    BudgetLedger → Result Error (TokenReservation × ℕ) × BudgetLedger → Type 0
IssuedBounded l (ok (r, output), l') = Issued l (ok r, l')
IssuedBounded l (err e, l') = l' ≡ l

module _ (now : ℕ) (l : BudgetLedger) where
  reserve_priced-Issued :
      (estimate : ℕ) (price : Option ModelPrice) → Issued l (reserve_priced now estimate price l)
  unfolding reserve_priced
  reserve_priced-Issued estimate price =
      guarded_ind (Issued l) _ _ _ _ (λ w. (refl, refl, refl, ground arith)) (λ _. refl)

  call_priced-Issued :
      (estimate : ℕ) (price : Option ModelPrice) → Issued l (call_priced now estimate price l)
  unfolding call_priced
  call_priced-Issued estimate price =
      guarded_ind (Issued l) _ _ _ _ (λ w. (refl, refl, refl, ground arith)) (λ _. refl)

  bounded_attempt-Issued :
      (is_retry : Bool) (prompt requested : ℕ) (price : Option ModelPrice)
      → IssuedBounded l (bounded_attempt is_retry now prompt requested price l)
  unfolding bounded_attempt clamp_output
  bounded_attempt-Issued true prompt requested price =
      guarded_ind (IssuedBounded l) _ _ _ _ (λ w. (refl, refl, refl, ground arith)) (λ _. refl)
  bounded_attempt-Issued false prompt requested price =
      guarded_ind (IssuedBounded l) _ _ _ _ (λ w. (refl, refl, refl, ground arith)) (λ _. refl)

module _ (now : ℕ) (provider model : Option String) (l : BudgetLedger) where
  pub reserve_tokens-Issued :
      (estimate : ℤ) → Issued l (reserve_tokens now estimate provider model l)
  unfolding reserve_tokens
  reserve_tokens-Issued (negsuc _) = refl
  reserve_tokens-Issued (pos estimate) =
      priced_ind (Issued l) _ (reserve_priced now estimate) l (reserve_priced-Issued now l estimate)
        (λ _. refl)

  pub begin_llm_call-Issued :
      (estimate : ℤ) → Issued l (begin_llm_call now estimate provider model l)
  unfolding begin_llm_call
  begin_llm_call-Issued (negsuc _) = refl
  begin_llm_call-Issued (pos estimate) =
      priced_ind (Issued l) _ (call_priced now estimate) l (call_priced-Issued now l estimate)
        (λ _. refl)

  pub begin_bounded_llm_attempt-Issued :
      (is_retry : Bool) (prompt requested : ℤ)
      → IssuedBounded l (begin_bounded_llm_attempt is_retry now prompt requested provider model l)
  unfolding begin_bounded_llm_attempt
  begin_bounded_llm_attempt-Issued is_retry (negsuc _) requested = refl
  begin_bounded_llm_attempt-Issued is_retry (pos _) (negsuc _) = refl
  begin_bounded_llm_attempt-Issued is_retry (pos _) (pos zero) = refl
  begin_bounded_llm_attempt-Issued is_retry (pos prompt) (pos (suc more)) =
      priced_ind (IssuedBounded l) _ (bounded_attempt is_retry now prompt (suc more)) l
        (bounded_attempt-Issued now l is_retry prompt (suc more)) (λ _. refl)

-- The contract of a bounded attempt for `prompt` and `requested` tokens.
abbrev pub BoundedPost :
    Bool → ℕ → ℕ → BudgetLedger → Result Error (TokenReservation × ℕ) × BudgetLedger → Type 0
BoundedPost is_retry prompt requested l (ok (r, output), l') =
    (0 < output)
    × (output ≤ requested)
    × (r.estimate ≡ prompt + output)
    × (l'.usage.llm_calls ≡ l.usage.llm_calls + 1)
    × (l'.usage.retries ≡ l.usage.retries + (if is_retry then 1 else 0))
    × ((output ≡ requested)
        ⊎ (l.budget.max_tokens ≡ some (l'.usage.total_tokens + l'.reserved_tokens)))
BoundedPost is_retry prompt requested l (err e, l') = l' ≡ l

clamped_cases :
    (limit : Option ℕ) (used requested : ℕ)
    → Within limit (used + 1)
    → 0 < requested
    → (0 < clamp_output limit used requested)
      × (clamp_output limit used requested ≤ requested)
      × ((clamp_output limit used requested ≡ requested)
          ⊎ (limit ≡ some (used + clamp_output limit used requested)))
unfolding clamp_output
clamped_cases none used requested w h = (h, omega arith, inl refl)
clamped_cases (some limit) used requested w h = (
  omega arith,
  omega arith,
  elim (dec_le requested (limit - used)) [
    | yes p ↦ inl (omega arith)
    | no p ↦ inr (ap some (omega arith))
  ],
)

regroup :
    (l : BudgetLedger) (prompt output requested : ℕ)
    → (output ≡ requested)
      ⊎ (l.budget.max_tokens ≡ some (l.usage.total_tokens + l.reserved_tokens + prompt + output))
    → (output ≡ requested)
      ⊎ (l.budget.max_tokens
          ≡ some (l.usage.total_tokens + (l.reserved_tokens + (prompt + output))))
regroup l prompt output requested (inl e) = inl e
regroup l prompt output requested (inr e) = inr (e ∙ ap some (omega arith))

bounded_attempt-BoundedPost :
    (now : ℕ) (l : BudgetLedger) (is_retry : Bool) (prompt more : ℕ) (price : Option ModelPrice)
    → BoundedPost is_retry prompt
        (suc more)
        l
        (bounded_attempt is_retry now prompt (suc more) price l)
unfolding bounded_attempt
bounded_attempt-BoundedPost now l true prompt more price =
    guarded_ind (BoundedPost true prompt (suc more) l) _ _ _ _
      (λ w.
        let (positive, capped, exact) =
          clamped_cases l.budget.max_tokens (l.usage.total_tokens + l.reserved_tokens + prompt)
            (suc more) (ground arith) (omega arith) in
        (positive, capped, refl, refl, refl, regroup l prompt _ _ exact))
      (λ _. refl)
bounded_attempt-BoundedPost now l false prompt more price =
    guarded_ind (BoundedPost false prompt (suc more) l) _ _ _ _
      (λ w.
        let (positive, capped, exact) =
          clamped_cases l.budget.max_tokens (l.usage.total_tokens + l.reserved_tokens + prompt)
            (suc more) (ground arith) (omega arith) in
        (positive, capped, refl, refl, omega arith, regroup l prompt _ _ exact))
      (λ _. refl)

-- A bounded attempt that is let through reserves its prompt and between one and all of the output
-- tokens asked for, fewer only where the reservations then use up the token limit exactly; it
-- counts one call, and one retry if it is a retry. One that is refused changes nothing.
pub begin_bounded_llm_attempt-BoundedPost :
    (now : ℕ) (provider model : Option String) (l : BudgetLedger) (is_retry : Bool)
    (prompt requested : ℕ)
    → BoundedPost is_retry prompt requested l
        (begin_bounded_llm_attempt is_retry now (pos prompt) (pos requested) provider model l)
unfolding begin_bounded_llm_attempt
begin_bounded_llm_attempt-BoundedPost now provider model l is_retry prompt zero = refl
begin_bounded_llm_attempt-BoundedPost now provider model l is_retry prompt (suc more) =
    priced_ind (BoundedPost is_retry prompt (suc more) l) _
      (bounded_attempt is_retry now prompt (suc more)) l
      (bounded_attempt-BoundedPost now l is_retry prompt more) (λ _. refl)
