-- ===== src/Budget/Session.antt =====
-- A run's calls of its ledger as one sequence: each takes the ledger's lock, and together they
-- make and settle the reservations, in any order that the run's tasks happen to choose.
use cognitrix.Prelude.{
  ℕ, String, Bool, Option, none, some, List, [], ◌∷◌, ◌++◌, ℤ, ok, err, Result, get_elem?, set,
}
use cognitrix.Budget.{Error, BudgetLedger}
use cognitrix.Budget.Ledger.{
  TokenReservation, reserve_tokens, begin_llm_call, begin_bounded_llm_attempt, consume_llm_call,
  consume_step, consume_retry, consume_provider_retry, consume_tool_call, consume_tool_attempt,
}
use cognitrix.Budget.Reservation.{reconcile, release}

-- A call, at the clock's reading that its first number is. A reservation is named by its place
-- among those made.
pub data Call : Type 0 where
  reserve : ℕ → ℤ → Option String → Option String → Call
  llm_call : ℕ → ℤ → Option String → Option String → Call
  bounded : Bool → ℕ → ℤ → ℤ → Option String → Option String → Call
  bare_llm_call step retry provider_retry : ℕ → Call
  tool_call : ℕ → ℕ → Call
  tool_attempt : ℕ → Bool → Call
  settle : ℕ → ℤ → Option ℕ → Option ℕ → Call
  drop : ℕ → Call

pub record Session : Type 0 where
  pub ledger : BudgetLedger
  pub made : List TokenReservation

abbrev pub issue : Result Error TokenReservation × BudgetLedger → List TokenReservation → Session
issue (ok r, l) made = record { ledger = l; made = made ++ r ∷ [] }
issue (err e, l) made = record { ledger = l; made = made }

abbrev pub issue_bounded :
    Result Error (TokenReservation × ℕ) × BudgetLedger → List TokenReservation → Session
issue_bounded (ok (r, output), l) made = record { ledger = l; made = made ++ r ∷ [] }
issue_bounded (err e, l) made = record { ledger = l; made = made }

abbrev pub settle_found : Option TokenReservation → ℕ → ℤ → Option ℕ → Option ℕ → Session → Session
settle_found none i actual prompt completion s = s
settle_found (some r) i actual prompt completion s =
    let (result, l, r') = reconcile r actual prompt completion s.ledger in
    record { ledger = l; made = set s.made i r' }

abbrev pub drop_found : Option TokenReservation → ℕ → Session → Session
drop_found none i s = s
drop_found (some r) i s =
    let (l, r') = release r s.ledger in record { ledger = l; made = set s.made i r' }

unfoldable pub perform : Session → Call → Session
perform s (reserve now estimate provider model) =
    issue (reserve_tokens now estimate provider model s.ledger) s.made
perform s (llm_call now estimate provider model) =
    issue (begin_llm_call now estimate provider model s.ledger) s.made
perform s (bounded is_retry now prompt requested provider model) =
    issue_bounded (begin_bounded_llm_attempt is_retry now prompt requested provider model s.ledger)
      s.made
perform s (bare_llm_call now) = record s { ledger = (consume_llm_call now s.ledger).1 }
perform s (step now) = record s { ledger = (consume_step now s.ledger).1 }
perform s (retry now) = record s { ledger = (consume_retry now s.ledger).1 }
perform s (provider_retry now) = record s { ledger = (consume_provider_retry now s.ledger).1 }
perform s (tool_call now attempts) = record s {
  ledger = (consume_tool_call now attempts s.ledger).1;
}
perform s (tool_attempt now first) = record s {
  ledger = (consume_tool_attempt now first s.ledger).1;
}
perform s (settle i actual prompt completion) =
    settle_found (get_elem? s.made i) i actual prompt completion s
perform s (drop i) = drop_found (get_elem? s.made i) i s

unfoldable pub perform_all : Session → List Call → Session
perform_all s [] = s
perform_all s (c ∷ calls) = perform_all (perform s c) calls
