-- ===== src/Budget/Counted.antt =====
-- The limits on counters over a whole run, and what settling a reservation reports.
use cognitrix.Prelude.{
  ℕ, ◌+◌, ◌*◌, ◌≡◌, ◌≢◌, refl, true, Option, none, some, List, [], ◌∷◌, ℤ, pos, negsuc, Within,
  exceeds, Result, ok, err, get_elem?, ◌==◌, ==_iff, Bool-cases, inl, inr, ◌-◌, if◌then◌else◌,
  arith,
}
use cognitrix.Budget.{Error, BudgetLedger, IsWithin, value_error, ModelPrice, estimated_cost}
use cognitrix.Budget.Ledger.{TokenReservation, guarded, first_exceeded, Within-of_passed}
use cognitrix.Budget.Reservation.{
  settle_tokens, charge, spent_checks, reconcile_tokens, reconcile-IsWithin, release-IsWithin,
}
use cognitrix.Budget.Limits.{
  reserve_tokens-IsWithin, begin_llm_call-IsWithin, begin_bounded_llm_attempt-IsWithin,
  consume_llm_call-IsWithin, consume_step-IsWithin, consume_retry-IsWithin,
  consume_provider_retry-IsWithin, consume_tool_call-IsWithin, consume_tool_attempt-IsWithin,
}
use cognitrix.Budget.Session.{
  Call, reserve, llm_call, bounded, bare_llm_call, step, retry, provider_retry, tool_call,
  tool_attempt, settle, drop, Session, issue, issue_bounded, settle_found, drop_found, perform,
  perform_all,
}

issue-IsWithin :
    (r : Result Error TokenReservation × BudgetLedger) (made : List TokenReservation)
    → IsWithin r.1
    → IsWithin (issue r made).ledger
issue-IsWithin (ok r, l) made h = h
issue-IsWithin (err e, l) made h = h

issue_bounded-IsWithin :
    (r : Result Error (TokenReservation × ℕ) × BudgetLedger) (made : List TokenReservation)
    → IsWithin r.1
    → IsWithin (issue_bounded r made).ledger
issue_bounded-IsWithin (ok (r, output), l) made h = h
issue_bounded-IsWithin (err e, l) made h = h

settle_found-IsWithin :
    (o : Option TokenReservation) (i : ℕ) (actual : ℤ) (prompt completion : Option ℕ) (s : Session)
    → IsWithin s.ledger
    → IsWithin (settle_found o i actual prompt completion s).ledger
settle_found-IsWithin none i actual prompt completion s h = h
settle_found-IsWithin (some r) i actual prompt completion s h =
    reconcile-IsWithin r actual prompt completion s.ledger h

drop_found-IsWithin :
    (o : Option TokenReservation) (i : ℕ) (s : Session)
    → IsWithin s.ledger
    → IsWithin (drop_found o i s).ledger
drop_found-IsWithin none i s h = h
drop_found-IsWithin (some r) i s h = release-IsWithin r s.ledger h

perform-IsWithin : (s : Session) (c : Call) → IsWithin s.ledger → IsWithin (perform s c).ledger
unfolding perform
perform-IsWithin s (reserve now e p m) h =
    issue-IsWithin _ s.made (reserve_tokens-IsWithin now p m s.ledger h e)
perform-IsWithin s (llm_call now e p m) h =
    issue-IsWithin _ s.made (begin_llm_call-IsWithin now p m s.ledger h e)
perform-IsWithin s (bounded is_retry now prompt requested p m) h =
    issue_bounded-IsWithin _ s.made
      (begin_bounded_llm_attempt-IsWithin now p m s.ledger h is_retry prompt requested)
perform-IsWithin s (bare_llm_call now) h = consume_llm_call-IsWithin now s.ledger h
perform-IsWithin s (step now) h = consume_step-IsWithin now s.ledger h
perform-IsWithin s (retry now) h = consume_retry-IsWithin now s.ledger h
perform-IsWithin s (provider_retry now) h = consume_provider_retry-IsWithin now s.ledger h
perform-IsWithin s (tool_call now attempts) h = consume_tool_call-IsWithin now s.ledger h attempts
perform-IsWithin s (tool_attempt now first) h = consume_tool_attempt-IsWithin now s.ledger h first
perform-IsWithin s (settle i actual prompt completion) h =
    settle_found-IsWithin (get_elem? s.made i) i actual prompt completion s h
perform-IsWithin s (drop i) h = drop_found-IsWithin (get_elem? s.made i) i s h

-- From a ledger whose counters are within their limits, whatever the order of a run's calls and
-- whatever providers report, no counter of calls, attempts, retries or steps passes its limit.
pub perform_all-IsWithin :
    (s : Session) (calls : List Call) → IsWithin s.ledger → IsWithin (perform_all s calls).ledger
unfolding perform_all
perform_all-IsWithin s [] h = h
perform_all-IsWithin s (c ∷ calls) h =
    perform_all-IsWithin (perform s c) calls (perform-IsWithin s c h)

-- The counts that a provider's report comes to: all of the total is prompt where neither is given,
-- and one that is missing beside the other is 0.
abbrev pub prompt_count : ℕ → Option ℕ → Option ℕ → ℕ
prompt_count actual none none = actual
prompt_count actual none (some completion) = 0
prompt_count actual (some prompt) completion = prompt

abbrev pub completion_count : Option ℕ → ℕ
completion_count none = 0
completion_count (some completion) = completion

abbrev pub cost_of : Option ModelPrice → ℕ → ℕ → ℕ
cost_of none prompt completion = 0
cost_of (some price) prompt completion =
    prompt * price.prompt_per_million + completion * price.completion_per_million

-- The ledger after `prompt` and `completion` tokens were charged and a reservation was given back.
abbrev pub charged : ℕ → ℕ → ℕ → ℕ → Option ModelPrice → BudgetLedger → BudgetLedger
charged estimate reserved_cost prompt completion price l = record l {
  reserved_tokens = l.reserved_tokens - estimate;
  reserved_cost = l.reserved_cost - reserved_cost;
  usage = record (l.usage) {
    prompt_tokens = l.usage.prompt_tokens + prompt;
    completion_tokens = l.usage.completion_tokens + completion;
    total_tokens = l.usage.total_tokens + (prompt + completion);
    cost_usd = l.usage.cost_usd + cost_of price prompt completion;
  };
}

abbrev pub FitsTotals : BudgetLedger → Type 0
FitsTotals l =
    Within l.budget.max_tokens l.usage.total_tokens × Within l.budget.max_cost_usd l.usage.cost_usd

-- What a reconciliation of a report whose counts sum to its total does.
abbrev pub ChargedPost : BudgetLedger → Result Error (Unit {0}) × BudgetLedger → Type 0
ChargedPost after (ok _, l') = (l' ≡ after) × FitsTotals l'
ChargedPost after (err e, l') = (l' ≡ after) × ¬ FitsTotals l'

-- What a reconciliation of any report does.
abbrev pub SettlePost :
    ℕ
    → ℕ
    → ℤ
    → Option ℕ
    → Option ℕ
    → Option ModelPrice
    → BudgetLedger
    → Result Error (Unit {0}) × BudgetLedger
    → Type 0
SettlePost estimate reserved_cost (negsuc _) prompt completion price l r = r ≡ (err value_error, l)
SettlePost estimate reserved_cost (pos actual) prompt completion price l r =
    (prompt_count actual prompt completion + completion_count completion ≢ actual
      → r ≡ (err value_error, l))
    × (prompt_count actual prompt completion + completion_count completion ≡ actual
        → ChargedPost
            (charged estimate reserved_cost (prompt_count actual prompt completion)
              (completion_count completion) price l)
            r)

not-Within : (limit : Option ℕ) (used : ℕ) → exceeds limit used ≡ true → ¬ Within limit used
not-Within none used e = absurd (cc e)
not-Within (some limit) used e = λ w. absurd (ground arith)

spent_checks-decide : (l : BudgetLedger) → ChargedPost l (guarded (spent_checks l) (λ x. x) tt l)
unfolding first_exceeded
spent_checks-decide l = elim (Bool-cases (exceeds l.budget.max_tokens l.usage.total_tokens)) [
  | inl t ↦ rw (first_exceeded, t) (refl, λ w. not-Within _ _ t w.0)
  | inr f ↦ elim (Bool-cases (exceeds l.budget.max_cost_usd l.usage.cost_usd)) [
    | inl t ↦ rw (first_exceeded, f, t) (refl, λ w. not-Within _ _ t w.1)
    | inr g ↦ rw (first_exceeded, f, g) (refl, (Within-of_passed _ _ f, Within-of_passed _ _ g))
  ]
]

settle_tokens-ChargedPost :
    (estimate prompt completion cost : ℕ) (price : Option ModelPrice) (l : BudgetLedger)
    → ChargedPost
        (charged estimate cost prompt completion price l)
        (settle_tokens estimate prompt completion price cost l)
unfolding charge estimated_cost
settle_tokens-ChargedPost estimate prompt completion cost none l =
    spent_checks-decide (charged estimate cost prompt completion none l)
settle_tokens-ChargedPost estimate prompt completion cost (some price) l =
    spent_checks-decide (charged estimate cost prompt completion (some price) l)

settled_or_refused :
    (estimate p c actual cost : ℕ) (price : Option ModelPrice) (l : BudgetLedger)
    → let r : Result Error (Unit {0}) × BudgetLedger =
        if p + c == actual then settle_tokens estimate p c price cost l else (err value_error, l) in
      (p + c ≢ actual → r ≡ (err value_error, l))
      × (p + c ≡ actual → ChargedPost (charged estimate cost p c price l) r)
settled_or_refused estimate p c actual cost price l = elim (Bool-cases (p + c == actual)) [
  | inl t ↦ (
    λ n. absurd (n ((==_iff _ actual).0 t)),
    λ e. rw t (settle_tokens-ChargedPost estimate p c cost price l),
  )
  | inr f ↦ (λ n. rw f refl, λ e. absurd (ground arith))
]

-- For a report with natural counts of prompt and completion tokens, or without them: where its total
-- is negative or is not their sum, the reconciliation raises and changes nothing. Otherwise it charges
-- the tokens and their cost and gives back what was reserved, and then returns if the totals are
-- within both limits, and raises if they are not.
pub reconcile_tokens-SettlePost :
    (estimate reserved_cost : ℕ) (actual : ℤ) (prompt completion : Option ℕ)
    (price : Option ModelPrice) (l : BudgetLedger)
    → SettlePost estimate reserved_cost actual prompt completion price l
        (reconcile_tokens estimate actual prompt completion price reserved_cost l)
unfolding reconcile_tokens
reconcile_tokens-SettlePost estimate reserved_cost (negsuc n) prompt completion price l = refl
reconcile_tokens-SettlePost estimate reserved_cost (pos actual) none none price l =
    settled_or_refused estimate actual 0 actual reserved_cost price l
reconcile_tokens-SettlePost estimate reserved_cost (pos actual) none (some c) price l =
    settled_or_refused estimate 0 c actual reserved_cost price l
reconcile_tokens-SettlePost estimate reserved_cost (pos actual) (some p) none price l =
    settled_or_refused estimate p 0 actual reserved_cost price l
reconcile_tokens-SettlePost estimate reserved_cost (pos actual) (some p) (some c) price l =
    settled_or_refused estimate p c actual reserved_cost price l
