-- ===== src/Accounts/Tests.antt =====
-- Two workers' snapshots of one run, and the theorems at them.
use cognitrix.Prelude.{
  ℕ, ◌≡◌, refl, Option, none, some, [], ◌∷◌, pos, negsuc, ok, err, arith, false,
}
use cognitrix.Budget.Tests.{limits, ledger}
use cognitrix.Accounts.{
  absent, falsy, whole, malformed, UsageDict, Snapshot, run_state_conflict, value_error,
  merged_counter, merged_dict, merge_usage, normalise_usage_snapshot, snapshot, new_ledger,
  LedgerSetup,
}
use cognitrix.Accounts.Merge.{IsClean, merge_all, MergedAll, merge_all_lem}
use cognitrix.Accounts.Resume.{IsBehind, persist_and_resume, resumed, persist_and_resume_lem}

abbrev no_usage : UsageDict
no_usage = record {
  counter = λ f. absent;
  cost_usd = absent;
  reserved_tokens = falsy;
  reserved_cost_usd = absent;
}

abbrev sees : ℕ → Option ℕ → Snapshot
sees n gauge = record {
  counter = λ f. some n;
  cost_usd = none;
  reserved_tokens = gauge;
  reserved_cost_usd = none;
}

program : Unit {0}
unfolding merged_counter merged_dict merge_usage normalise_usage_snapshot snapshot new_ledger
    merge_all
program = tt

no_usage-IsClean : IsClean no_usage
no_usage-IsClean = record { counters = λ f. refl; cost = refl; tokens = refl; money = refl }

-- The late snapshot does not lower the counter, and its gauge replaces the earlier one.
late_snapshot :
    merge_usage (merged_dict no_usage (sees 5 (some 70))) (sees 3 (some 0))
    ≡ ok (record no_usage { counter = λ f. whole (pos 5); reserved_tokens = whole (pos 0) })
unfolding program
late_snapshot = refl

negative_refused :
    normalise_usage_snapshot false
      (record no_usage { counter = λ f. whole (negsuc 0); reserved_tokens = absent })
    ≡ err value_error
unfolding program
negative_refused = refl

malformed_stored :
    merge_usage (record no_usage { counter = λ f. malformed }) (sees 1 none)
    ≡ err run_state_conflict
unfolding program
malformed_stored = refl

merge_all_lem_example :
    (merged : UsageDict) × (merge_all (ok no_usage) (sees 5 (some 70) ∷ sees 3 (some 0) ∷ [])
      ≡ ok merged)
    × MergedAll no_usage (sees 5 (some 70) ∷ sees 3 (some 0) ∷ []) merged
merge_all_lem_example =
    merge_all_lem no_usage (sees 5 (some 70) ∷ sees 3 (some 0) ∷ []) no_usage-IsClean

abbrev setup : LedgerSetup
setup = record {
  budget = limits;
  provider = "p";
  model = "m";
  pricing = [];
  created = 2000;
  initial_wall_seconds = 20;
}

no_usage-IsBehind : IsBehind no_usage ledger
no_usage-IsBehind = record {
  clean = no_usage-IsClean;
  counters = λ f. omega arith;
  cost = omega arith;
}

persist_and_resume_lem_example :
    persist_and_resume no_usage ledger setup ≡ ok (resumed setup ledger)
persist_and_resume_lem_example = persist_and_resume_lem no_usage ledger setup no_usage-IsBehind
