-- ===== src/Accounts/Resume.antt =====
-- A ledger that is stored in the usage column of its run and made anew by the next worker.
use cognitrix.Prelude.{ℕ, ◌≤◌, ◌≡◌, refl, ◌∙◌, false, some, max, pos, Result, ok, err, arith}
use cognitrix.Budget.{BudgetLedger}
use cognitrix.Accounts.{
  UsageField, prompt_tokens, completion_tokens, total_tokens, llm_calls, tool_calls, tool_attempts,
  retries, steps, whole, UsageDict, Snapshot, UsageError, is_malformed, usage_counter_fields,
  merged_dict, merge_usage, normalise_usage_snapshot, snapshot, counter_of, stored_number,
  LedgerSetup, new_ledger,
}
use cognitrix.Accounts.Merge.{
  IsClean, merge_clean, merged-stored_number, merged_dict-IsClean, any_field-false,
}

abbrev then_with : {E A B : Type 0} → Result E A → (A → Result E B) → Result E B
then_with (ok a) f = f a
then_with (err e) f = err e

-- What `persist_usage` writes of a ledger over the stored usage, and the next worker's ledger.
unfoldable pub persist_and_resume :
    UsageDict → BudgetLedger → LedgerSetup → Result UsageError BudgetLedger
persist_and_resume stored l setup =
    then_with (normalise_usage_snapshot false (snapshot l))
      (λ s. then_with (merge_usage stored s) (new_ledger setup))

reported_by : BudgetLedger → Snapshot
reported_by l = record {
  counter = λ f. some (counter_of l.usage f);
  cost_usd = some l.usage.cost_usd;
  reserved_tokens = some l.reserved_tokens;
  reserved_cost_usd = some l.reserved_cost;
}

snapshot_is_accepted :
    (l : BudgetLedger) → normalise_usage_snapshot false (snapshot l) ≡ ok (reported_by l)
unfolding normalise_usage_snapshot snapshot reported_by
snapshot_is_accepted l = refl

-- The stored usage is not ahead of the ledger.
pub record IsBehind (stored : UsageDict) (l : BudgetLedger) : Type 0 where
  pub clean : IsClean stored
  pub counters : (f : UsageField) → stored_number (stored.counter f) ≤ counter_of l.usage f
  pub cost : stored_number stored.cost_usd ≤ l.usage.cost_usd

-- The ledger with the setup of its new worker, in which no call runs.
abbrev pub resumed : LedgerSetup → BudgetLedger → BudgetLedger
resumed setup l = record {
  budget = setup.budget;
  provider = setup.provider;
  model = setup.model;
  pricing = setup.pricing;
  created = setup.created;
  initial_wall_seconds = setup.initial_wall_seconds;
  reserved_tokens = l.reserved_tokens;
  reserved_cost = l.reserved_cost;
  active_parallel = 0;
  usage = l.usage;
}

max_behind : (a b : ℕ) → a ≤ b → max a b ≡ b
max_behind a b h = omega arith

clean-new_ledger :
    (setup : LedgerSetup) (d : UsageDict) (l : BudgetLedger)
    → IsClean d
    → ((f : UsageField) → stored_number (d.counter f) ≡ counter_of l.usage f)
    → stored_number d.cost_usd ≡ l.usage.cost_usd
    → d.reserved_tokens ≡ whole (pos l.reserved_tokens)
    → d.reserved_cost_usd ≡ whole (pos l.reserved_cost)
    → new_ledger setup d ≡ ok (resumed setup l)
unfolding new_ledger
clean-new_ledger setup d l c n m t u =
    rw (any_field-false (λ f. is_malformed (d.counter f)) usage_counter_fields c.counters) (
      ground (
        arith,
        n prompt_tokens,
        n completion_tokens,
        n total_tokens,
        n llm_calls,
        n tool_calls,
        n tool_attempts,
        n retries,
        n steps,
        m,
        c.cost,
        t,
        u,
      ))

-- A ledger that is persisted over usage that it is not behind of, and resumed from there, comes back
-- whole: its counters, its cost and what it has reserved, under the setup of the new worker.
pub persist_and_resume_lem :
    (stored : UsageDict) (l : BudgetLedger) (setup : LedgerSetup)
    → IsBehind stored l
    → persist_and_resume stored l setup ≡ ok (resumed setup l)
unfolding persist_and_resume merged_dict reported_by
persist_and_resume_lem stored l setup b =
    rw (snapshot_is_accepted l, merge_clean stored (reported_by l) b.clean)
      (clean-new_ledger setup (merged_dict stored (reported_by l)) l
        (merged_dict-IsClean stored (reported_by l) b.clean)
        (λ f.
          merged-stored_number (stored.counter f) (some (counter_of l.usage f))
          ∙ max_behind _ _ (b.counters f))
        (merged-stored_number stored.cost_usd (some l.usage.cost_usd) ∙ max_behind _ _ b.cost) refl
        refl)
