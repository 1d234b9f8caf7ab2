-- ===== src/Accounts/Merge.antt =====
-- What happens to the stored usage as snapshots come in, in any order.
use cognitrix.Prelude.{
  ℕ, ◌≡◌, refl, Bool, false, Option, none, some, List, [], ◌∷◌, max, Result, ok, err, arith, map,
  ap, ◌∙◌,
}
use cognitrix.Accounts.{
  UsageField, Entry, UsageDict, Snapshot, UsageError, bad_counter, bad_cost, any_field,
  is_malformed, conflicts, merged_dict, usage_counter_fields, merged_counter, gauge, merge_usage,
  stored_number,
}

-- The number in a field of a snapshot, 0 where it has none.
abbrev pub reported : Option ℕ → ℕ
reported none = 0
reported (some n) = n

pub merged-stored_number :
    (stored : Entry) (n : Option ℕ)
    → stored_number (merged_counter stored n) ≡ max (stored_number stored) (reported n)
unfolding merged_counter
merged-stored_number stored n = ground arith

pub any_field-false :
    (p : UsageField → Bool) (fields : List UsageField)
    → ((f : UsageField) → p f ≡ false)
    → any_field p fields ≡ false
any_field-false p [] h = refl
any_field-false p (f ∷ rest) h = ground (arith, h f, any_field-false p rest h)

-- A stored dictionary that a ledger can be made from: every entry is a number or is not there, and
-- the cost is not negative.
pub record IsClean (d : UsageDict) : Type 0 where
  pub counters : (f : UsageField) → is_malformed (d.counter f) ≡ false
  pub cost : bad_cost d.cost_usd (some 0) ≡ false
  pub tokens : is_malformed d.reserved_tokens ≡ false
  pub money : is_malformed d.reserved_cost_usd ≡ false

counter_is_good : (e : Entry) (n : Option ℕ) → is_malformed e ≡ false → bad_counter e n ≡ false
counter_is_good e n h = ground arith

cost_is_good : (e : Entry) (n : Option ℕ) → bad_cost e (some 0) ≡ false → bad_cost e n ≡ false
cost_is_good e n h = ground arith

clean-conflicts : (d : UsageDict) (s : Snapshot) → IsClean d → conflicts d s ≡ false
clean-conflicts d s c =
    rw
      (any_field-false (λ f. bad_counter (d.counter f) (s.counter f)) usage_counter_fields
        (λ f. counter_is_good (d.counter f) (s.counter f) (c.counters f)))
      (cost_is_good d.cost_usd s.cost_usd c.cost)

-- A merge into such a dictionary succeeds.
pub merge_clean :
    (d : UsageDict) (s : Snapshot) → IsClean d → merge_usage d s ≡ ok (merged_dict d s)
unfolding merge_usage
merge_clean d s c = rw (clean-conflicts d s c) refl

merged-is_malformed :
    (e : Entry) (n : Option ℕ) → is_malformed e ≡ false → is_malformed (merged_counter e n) ≡ false
unfolding merged_counter
merged-is_malformed e n h = ground arith

merged-bad_cost :
    (e : Entry) (n : Option ℕ)
    → bad_cost e (some 0) ≡ false
    → bad_cost (merged_counter e n) (some 0) ≡ false
unfolding merged_counter
merged-bad_cost e n h = ground arith

gauge-is_malformed :
    (e : Entry) (n : Option ℕ) → is_malformed e ≡ false → is_malformed (gauge e n) ≡ false
gauge-is_malformed e n h = ground arith

pub merged_dict-IsClean : (d : UsageDict) (s : Snapshot) → IsClean d → IsClean (merged_dict d s)
unfolding merged_dict
merged_dict-IsClean d s c = record {
  counters = λ f. merged-is_malformed (d.counter f) (s.counter f) (c.counters f);
  cost = merged-bad_cost d.cost_usd s.cost_usd c.cost;
  tokens = gauge-is_malformed d.reserved_tokens s.reserved_tokens c.tokens;
  money = gauge-is_malformed d.reserved_cost_usd s.reserved_cost_usd c.money;
}

-- The snapshots that the turns of `persist_usage` merge one after the other.
abbrev pub merge_after : Result UsageError UsageDict → Snapshot → Result UsageError UsageDict
merge_after (ok d) s = merge_usage d s
merge_after (err e) s = err e

unfoldable pub merge_all : Result UsageError UsageDict → List Snapshot → Result UsageError UsageDict
merge_all d [] = d
merge_all d (s ∷ rest) = merge_all (merge_after d s) rest

-- The specification: the largest number that was ever reported, and the last gauge.
abbrev pub largest : ℕ → List (Option ℕ) → ℕ
largest n [] = n
largest n (m ∷ rest) = largest (max n (reported m)) rest

abbrev pub last_gauge : Entry → List (Option ℕ) → Entry
last_gauge e [] = e
last_gauge e (m ∷ rest) = last_gauge (gauge e m) rest

pub record MergedAll (d : UsageDict) (ss : List Snapshot) (merged : UsageDict) : Type 0 where
  pub counters :
      (f : UsageField)
      → stored_number (merged.counter f)
        ≡ largest (stored_number (d.counter f)) (map (λ s. s.counter f) ss)
  pub cost :
      stored_number merged.cost_usd ≡ largest (stored_number d.cost_usd) (map (λ s. s.cost_usd) ss)
  pub tokens :
      merged.reserved_tokens ≡ last_gauge d.reserved_tokens (map (λ s. s.reserved_tokens) ss)
  pub money :
      merged.reserved_cost_usd ≡ last_gauge d.reserved_cost_usd (map (λ s. s.reserved_cost_usd) ss)
  pub clean : IsClean merged

merged_first :
    (d : UsageDict) (s : Snapshot) (rest : List Snapshot) (merged : UsageDict)
    → MergedAll (merged_dict d s) rest merged
    → MergedAll d (s ∷ rest) merged
unfolding merged_dict
merged_first d s rest merged h = record {
  counters = λ f.
      h.counters f
      ∙ ap (λ n. largest n (map (λ s. s.counter f) rest))
          (merged-stored_number (d.counter f) (s.counter f));
  cost =
      h.cost
      ∙ ap (λ n. largest n (map (λ s. s.cost_usd) rest))
          (merged-stored_number d.cost_usd s.cost_usd);
  tokens = h.tokens;
  money = h.money;
  clean = h.clean;
}

-- Snapshots that are merged into a clean usage column, however many and in whatever order, are all
-- taken: every counter and the cost end as the largest number ever reported or stored, and the
-- reserved tokens and money as they were reported last.
pub merge_all_lem :
    (d : UsageDict) (ss : List Snapshot)
    → IsClean d
    → (merged : UsageDict) × (merge_all (ok d) ss ≡ ok merged) × MergedAll d ss merged
unfolding merge_all
merge_all_lem d [] c =
    (d, refl, record { counters = λ f. refl; cost = refl; tokens = refl; money = refl; clean = c })
merge_all_lem d (s ∷ rest) c =
    let (merged, e, h) = merge_all_lem (merged_dict d s) rest (merged_dict-IsClean d s c) in
    (merged, rw (merge_clean d s c) e, merged_first d s rest merged h)
