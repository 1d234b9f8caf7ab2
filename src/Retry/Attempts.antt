-- ===== src/Retry/Attempts.antt =====
-- What `with_retry` does with a function that may fail.
use cognitrix.Prelude.{
  ℕ, zero, suc, ◌+◌, ◌≤◌, ◌≡◌, ◌≢◌, ◌⊎◌, inl, inr, refl, true, false, not, ◌||◌, Option, none, some,
  arith, Bool-cases, ◌==◌, Result, ok, err, length,
}
use cognitrix.Retry.{RetryConfig, Retried, should_retry, waited, retry_loop, with_retry}

Result-cases : {E A : Type 0} (r : Result E A) → ((a : A) × (r ≡ ok a)) ⊎ ((e : E) × (r ≡ err e))
Result-cases (ok a) = inl (a, refl)
Result-cases (err e) = inr (e, refl)

module _ {E A : Type 0} (config : RetryConfig E) (func : ℕ → Result E A) (drawn : ℕ → ℕ) where
  -- Why the loop ended.
  pub data Ended (r : Retried E A) : Type 0 where
    succeeded :
        (a : A)
        → func r.calls ≡ ok a
        → r.answer ≡ record { success = true; result = some a; error = none; attempts = r.calls }
        → Ended r
    exhausted :
        (e : E)
        → func r.calls ≡ err e
        → (r.calls ≡ config.max_attempts) ⊎ (should_retry config e ≡ false)
        → r.answer ≡ record {
          success = false;
          result = none;
          error = some e;
          attempts = config.max_attempts;
        }
        → Ended r

  pub record Explained (attempt : ℕ) (r : Retried E A) : Type 0 where
    pub bounded : r.calls ≤ config.max_attempts
    pub waits : attempt + length r.waits ≡ r.calls
    pub ended : Ended r

  later :
      (attempt : ℕ) (e : E) (r : Retried E A)
      → Explained (attempt + 1) r
      → Explained attempt (waited config func drawn e attempt r)
  later attempt e r h = record {
    bounded = h.bounded;
    waits = omega (arith, h.waits);
    ended = elim h.ended [
      | succeeded a f q ↦ succeeded a f q
      | exhausted x f why q ↦ exhausted x f why q
    ];
  }

  loop-Explained :
      (left attempt : ℕ) (last : Option E)
      → attempt + left ≡ suc config.max_attempts
      → left ≢ 0
      → Explained attempt (retry_loop config func drawn left attempt last)
  unfolding retry_loop
  loop-Explained zero attempt last n some_left = absurd (some_left refl)
  loop-Explained (suc left) attempt last n some_left = elim (Result-cases (func attempt)) [
    | inl (a, e) ↦
        rw (retry_loop, e)
          record { bounded = omega arith; waits = omega arith; ended = succeeded a e refl }
    | inr (x, e) ↦
        elim (Bool-cases (not (should_retry config x) || attempt == config.max_attempts)) [
          | inl stops ↦
              rw (retry_loop, e, stops)
                record {
                  bounded = omega arith;
                  waits = omega arith;
                  ended = exhausted x e (ground arith) refl;
                }
          | inr goes_on ↦
              rw (retry_loop, e, goes_on)
                (later attempt x _
                  (loop-Explained left (attempt + 1) (some x) (omega arith) (ground arith)))
        ]
  ]

-- With at least one attempt allowed, `with_retry` calls the function at most as often as allowed and
-- waits once between two calls. Either its last call returned, and that result is the answer; or its
-- last call raised, that error is the answer, and it was the last attempt or not to be retried.
pub with_retry-Explained :
    {E A : Type 0} (config : RetryConfig E) (func : ℕ → Result E A) (drawn : ℕ → ℕ)
    → config.max_attempts ≢ 0
    → Explained config func drawn 1 (with_retry config func drawn)
unfolding with_retry
with_retry-Explained config func drawn some_left =
    loop-Explained config func drawn config.max_attempts 1 none (omega arith) some_left
