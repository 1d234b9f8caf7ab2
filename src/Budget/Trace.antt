-- ===== src/Budget/Trace.antt =====
-- What holds of a run's ledger whatever the order of its calls.
use cognitrix.Prelude.{
  ℕ, ◌+◌, ◌≤◌, ◌≡◌, refl, true, false, Option, none, some, List, [], ◌∷◌, ℤ, pos, negsuc, Result,
  ok, err, arith, sum_by, sum_by-snoc, sum_by-set, get_elem?, set, if◌then◌else◌, subst, sym,
}
use cognitrix.Budget.{Error, BudgetLedger, IsCovered, estimated_cost}
use cognitrix.Budget.Ledger.{TokenReservation}
use cognitrix.Budget.Reservation.{reconcile, release, prompt_part, completion_part}
use cognitrix.Budget.Counters.{
  SameTokens, consume_llm_call-SameTokens, consume_step-SameTokens, consume_retry-SameTokens,
  consume_provider_retry-SameTokens, consume_tool_call-SameTokens, consume_tool_attempt-SameTokens,
}
use cognitrix.Budget.Attempt.{
  Issued, IssuedBounded, reserve_tokens-Issued, begin_llm_call-Issued,
  begin_bounded_llm_attempt-Issued,
}
use cognitrix.Budget.Session.{
  Call, reserve, llm_call, bounded, bare_llm_call, step, retry, provider_retry, tool_call,
  tool_attempt, settle, drop, Session, issue, issue_bounded, settle_found, drop_found, perform,
  perform_all,
}

-- What a reservation still holds back.
abbrev pub held_tokens : TokenReservation → ℕ
held_tokens r = if r.reconciled then 0 else r.estimate

abbrev pub held_cost : TokenReservation → ℕ
held_cost r = if r.reconciled then 0 else r.reserved_cost

-- The ledger covers what is spent and reserved, and its reserved sums back every open reservation.
pub record IsBacked (s : Session) : Type 0 where
  pub covered : IsCovered s.ledger
  pub tokens : sum_by held_tokens s.made ≤ s.ledger.reserved_tokens
  pub cost : sum_by held_cost s.made ≤ s.ledger.reserved_cost

-- The provider reports no more than was reserved for its call, in tokens and in money.
abbrev pub Honest : Option TokenReservation → ℤ → Option ℕ → Option ℕ → Type 0
Honest (some r) (pos actual) prompt completion =
    (actual ≤ r.estimate)
    × (estimated_cost r.price (prompt_part actual prompt completion)
          (completion_part prompt completion) 0
        ≤ r.reserved_cost)
Honest _ _ _ _ = Unit

abbrev pub HonestCall : Session → Call → Type 0
HonestCall s (settle i actual prompt completion) =
    Honest (get_elem? s.made i) actual prompt completion
HonestCall s (reserve _ _ _ _) = Unit
HonestCall s _ = Unit

abbrev pub AllHonest : Session → List Call → Type 0
AllHonest s [] = Unit
AllHonest s (c ∷ calls) = HonestCall s c × AllHonest (perform s c) calls

same-IsCovered : (l l' : BudgetLedger) → SameTokens l l' → IsCovered l → IsCovered l'
same-IsCovered l l' e c = ground (arith, e.budget)

issue-IsBacked :
    (s : Session) (r : Result Error TokenReservation × BudgetLedger)
    → Issued s.ledger r
    → IsBacked s
    → IsBacked (issue r s.made)
issue-IsBacked s (ok r, l) i b =
    ground (arith, sum_by-snoc held_tokens s.made r, sum_by-snoc held_cost s.made r)
issue-IsBacked s (err e, l) i b =
    subst (λ k. IsBacked (record { ledger = k; made = s.made })) (sym i) b

issue_bounded-IsBacked :
    (s : Session) (r : Result Error (TokenReservation × ℕ) × BudgetLedger)
    → IssuedBounded s.ledger r
    → IsBacked s
    → IsBacked (issue_bounded r s.made)
issue_bounded-IsBacked s (ok (r, output), l) i b = issue-IsBacked s (ok r, l) i b
issue_bounded-IsBacked s (err e, l) i b = issue-IsBacked s (err e, l) i b

-- Settling a reservation, or dropping it, gives back what it held and no more.
settled-IsBacked :
    (s : Session) (i : ℕ) (r r' : TokenReservation) (l : BudgetLedger)
    → get_elem? s.made i ≡ some r
    → r.reconciled ≡ false
    → r'.reconciled ≡ true
    → IsBacked s
    → l.reserved_tokens + r.estimate ≡ s.ledger.reserved_tokens
    → l.reserved_cost + r.reserved_cost ≡ s.ledger.reserved_cost
    → IsCovered l
    → IsBacked (record { ledger = l; made = set s.made i r' })
settled-IsBacked s i r r' l found fresh done b tokens cost covered =
    ground (arith, sum_by-set held_tokens s.made i r' found, sum_by-set held_cost s.made i r' found)

held-le :
    (s : Session) (i : ℕ) (r : TokenReservation)
    → get_elem? s.made i ≡ some r
    → r.reconciled ≡ false
    → IsBacked s
    → (r.estimate ≤ s.ledger.reserved_tokens) × (r.reserved_cost ≤ s.ledger.reserved_cost)
held-le s i r found fresh b = ground (
  arith,
  sum_by-set held_tokens s.made i (record r { reconciled = true }) found,
  sum_by-set held_cost s.made i (record r { reconciled = true }) found,
)

drop_found-IsBacked :
    (s : Session) (i : ℕ) (o : Option TokenReservation)
    → get_elem? s.made i ≡ o
    → IsBacked s
    → IsBacked (drop_found o i s)
unfolding release
drop_found-IsBacked s i none found b = b
drop_found-IsBacked s i (some r) found b = ground (
  arith,
  sum_by-set held_tokens s.made i (release r s.ledger).1 found,
  sum_by-set held_cost s.made i (release r s.ledger).1 found,
)

settle_found-IsBacked :
    (s : Session) (i : ℕ) (o : Option TokenReservation) (actual : ℤ) (prompt completion : Option ℕ)
    → get_elem? s.made i ≡ o
    → Honest o actual prompt completion
    → IsBacked s
    → IsBacked (settle_found o i actual prompt completion s)
unfolding reconcile
settle_found-IsBacked s i none actual prompt completion found honest b = b
settle_found-IsBacked s i (some r) (negsuc n) prompt completion found honest b = ground (
  arith,
  sum_by-set held_tokens s.made i (reconcile r (negsuc n) prompt completion s.ledger).2 found,
  sum_by-set held_cost s.made i (reconcile r (negsuc n) prompt completion s.ledger).2 found,
)
settle_found-IsBacked s i (some r) (pos actual) prompt completion found honest b = ground (
  arith,
  sum_by-set held_tokens s.made i (reconcile r (pos actual) prompt completion s.ledger).2 found,
  sum_by-set held_cost s.made i (reconcile r (pos actual) prompt completion s.ledger).2 found,
)

same-IsBacked :
    (s : Session) (l : BudgetLedger)
    → SameTokens s.ledger l
    → IsBacked s
    → IsBacked (record { ledger = l; made = s.made })
same-IsBacked s l e b = record {
  covered = same-IsCovered s.ledger l e b.covered;
  tokens = omega (arith, e.reserved_tokens, b.tokens);
  cost = omega (arith, e.reserved_cost, b.cost);
}

perform-IsBacked : (s : Session) (c : Call) → HonestCall s c → IsBacked s → IsBacked (perform s c)
unfolding perform
perform-IsBacked s (reserve now e p m) h b =
    issue-IsBacked s _ (reserve_tokens-Issued now p m s.ledger e) b
perform-IsBacked s (llm_call now e p m) h b =
    issue-IsBacked s _ (begin_llm_call-Issued now p m s.ledger e) b
perform-IsBacked s (bounded is_retry now prompt requested p m) h b =
    issue_bounded-IsBacked s _
      (begin_bounded_llm_attempt-Issued now p m s.ledger is_retry prompt requested) b
perform-IsBacked s (bare_llm_call now) h b =
    same-IsBacked s _ (consume_llm_call-SameTokens now s.ledger) b
perform-IsBacked s (step now) h b = same-IsBacked s _ (consume_step-SameTokens now s.ledger) b
perform-IsBacked s (retry now) h b = same-IsBacked s _ (consume_retry-SameTokens now s.ledger) b
perform-IsBacked s (provider_retry now) h b =
    same-IsBacked s _ (consume_provider_retry-SameTokens now s.ledger) b
perform-IsBacked s (tool_call now attempts) h b =
    same-IsBacked s _ (consume_tool_call-SameTokens now s.ledger attempts) b
perform-IsBacked s (tool_attempt now first) h b =
    same-IsBacked s _ (consume_tool_attempt-SameTokens now s.ledger first) b
perform-IsBacked s (settle i actual prompt completion) h b =
    settle_found-IsBacked s i _ actual prompt completion refl h b
perform-IsBacked s (drop i) h b = drop_found-IsBacked s i _ refl b

-- From a ledger that is covered and backs its reservations, whatever the order of a run's calls,
-- while providers report no more than was reserved, the tokens spent and reserved together stay
-- within the token limit, and so does the money within the cost limit; and the reserved sums never
-- fall below what the open reservations hold.
pub perform_all-IsBacked :
    (s : Session) (calls : List Call)
    → AllHonest s calls
    → IsBacked s
    → IsBacked (perform_all s calls)
unfolding perform_all
perform_all-IsBacked s [] h b = b
perform_all-IsBacked s (c ∷ calls) h b =
    perform_all-IsBacked (perform s c) calls h.1 (perform-IsBacked s c h.0 b)
