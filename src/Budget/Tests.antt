-- ===== src/Budget/Tests.antt =====
-- A small run of the ledger, and the theorems at it.
use cognitrix.Prelude.{◌≡◌, refl, true, false, none, some, List, [], ◌∷◌, pos, arith}
use cognitrix.Budget.{
  ModelPrice, estimated_cost, TaskBudget, validate, Usage, BudgetLedger, price_of, price_for,
  elapsed, IsWithin, model_key,
}
use cognitrix.Budget.Ledger.{
  TokenReservation, first_exceeded, reserve_priced, call_priced, reserve_tokens, begin_llm_call,
  clamp_output, bounded_attempt, begin_bounded_llm_attempt, consume_llm_call, consume_step,
  consume_retry, consume_provider_retry, consume_tool_call, consume_tool_attempt,
}
use cognitrix.Budget.Reservation.{reconcile_tokens, reconcile, release, LeavesAlone, settled_once}
use cognitrix.Budget.Attempt.{BoundedPost, begin_bounded_llm_attempt-BoundedPost}
use cognitrix.Budget.Session.{
  Call, bounded, step, tool_attempt, settle, drop, Session, perform, perform_all,
}
use cognitrix.Budget.Trace.{IsBacked, AllHonest, perform_all-IsBacked}
use cognitrix.Budget.Counted.{perform_all-IsWithin, SettlePost, reconcile_tokens-SettlePost}
use cognitrix.Budget.Parallel.{
  enter, turn, turns, without, Slots, Turn, arrive, depart, FitsSlots, turns-FitsSlots,
}

abbrev pub limits : TaskBudget
limits = record {
  wall_seconds = some 60;
  max_tokens = some 100;
  max_llm_calls = some 3;
  max_tool_calls = some 2;
  max_tool_attempts = some 4;
  max_retries = some 1;
  max_steps = some 2;
  max_parallel = some 4;
  max_cost_usd = some 1000;
}

abbrev unused : Usage
unused = record {
  prompt_tokens = 0;
  completion_tokens = 0;
  total_tokens = 0;
  llm_calls = 0;
  tool_calls = 0;
  tool_attempts = 0;
  retries = 0;
  steps = 0;
  cost_usd = 0;
}

abbrev price : ModelPrice
price = record { prompt_per_million = 2; completion_per_million = 5 }

abbrev pub ledger : BudgetLedger
ledger = record {
  budget = limits;
  provider = "p";
  model = "m";
  pricing = ("p/m", price) ∷ [];
  created = 1000;
  initial_wall_seconds = 5;
  reserved_tokens = 0;
  reserved_cost = 0;
  active_parallel = 0;
  usage = unused;
}

abbrev start : Session
start = record { ledger = ledger; made = [] }

program : Unit {0}
unfolding validate estimated_cost price_of price_for elapsed first_exceeded reserve_priced
    call_priced reserve_tokens begin_llm_call clamp_output bounded_attempt begin_bounded_llm_attempt
    consume_llm_call consume_step consume_retry consume_provider_retry consume_tool_call
    consume_tool_attempt reconcile release perform perform_all enter turn turns without model_key
program = tt

-- The validator lowers the parallel limit to the step limit.
validate_clamps : validate limits ≡ some (record limits { max_parallel = some 2 })
unfolding program
validate_clamps = refl

abbrev calls : List Call
calls =
    bounded false 1010 (pos 30) (pos 40) none none
    ∷ step 1011
    ∷ bounded true 1012 (pos 10) (pos 50) none none
    ∷ settle 0 (pos 55) (some 30) (some 25)
    ∷ tool_attempt 1013 true
    ∷ drop 1
    ∷ []

-- The second attempt is given the 20 tokens that are left of the 50 asked for.
calls_run :
    ((perform_all start calls).ledger.usage.total_tokens ≡ 55)
    × ((perform_all start calls).ledger.reserved_tokens ≡ 0)
    × ((perform_all start calls).ledger.usage.cost_usd ≡ 185)
    × ((begin_bounded_llm_attempt true 1012
          (pos 10)
          (pos 50)
          none
          none
          (record ledger { reserved_tokens = 70 })).1.reserved_tokens
        ≡ 100)
unfolding program
calls_run = (refl, refl, refl, refl)

start-IsBacked : IsBacked start
start-IsBacked = ground arith

calls_honest : AllHonest start calls
unfolding program
calls_honest = ground arith

perform_all-IsBacked_example : IsBacked (perform_all start calls)
perform_all-IsBacked_example = perform_all-IsBacked start calls calls_honest start-IsBacked

start-IsWithin : IsWithin ledger
start-IsWithin = ground arith

perform_all-IsWithin_example : IsWithin (perform_all start calls).ledger
perform_all-IsWithin_example = perform_all-IsWithin start calls start-IsWithin

begin_bounded_llm_attempt-BoundedPost_example :
    BoundedPost false 30 40 ledger
      (begin_bounded_llm_attempt false 1010 (pos 30) (pos 40) none none ledger)
begin_bounded_llm_attempt-BoundedPost_example =
    begin_bounded_llm_attempt-BoundedPost 1010 none none ledger false 30 40

reconcile_tokens-SettlePost_example :
    SettlePost 70 260
      (pos 155)
      (some 30)
      (some 125)
      (some price)
      ledger
      (reconcile_tokens 70 (pos 155) (some 30) (some 125) (some price) 260 ledger)
reconcile_tokens-SettlePost_example =
    reconcile_tokens-SettlePost 70 260 (pos 155) (some 30) (some 125) (some price) ledger

abbrev arrivals : List Turn
arrivals =
    arrive 1 1001 true
    ∷ arrive 2 1002 false
    ∷ depart 1
    ∷ arrive 3 1003 true
    ∷ arrive 4 1004 true
    ∷ depart 2
    ∷ []

abbrev no_slots : Slots
no_slots = record {
  ledger = record ledger { budget = record limits { max_parallel = some 2 } };
  holders = [];
}

slots_run : (turns no_slots arrivals).holders ≡ 3 ∷ []
unfolding program
slots_run = refl

turns-FitsSlots_example : FitsSlots (some 2) (turns no_slots arrivals)
turns-FitsSlots_example =
    turns-FitsSlots (some 2) no_slots arrivals
      (record { same_limit = refl; counted = refl; fits = omega arith })

abbrev one_reservation : TokenReservation
one_reservation = record {
  estimate = 70;
  reserved_cost = 260;
  price = some price;
  reconciled = false;
}

settled_once_example :
    LeavesAlone (reconcile one_reservation (pos 55) (some 30) (some 25) ledger).2
    × LeavesAlone (release one_reservation ledger).1
settled_once_example = settled_once one_reservation (pos 55) (some 30) (some 25) ledger
