-- ===== src/Retry.antt =====
-- cognitrix/utils/retry.py: `RetryConfig`, `RetryResult` and `with_retry`. The function that is
-- called is a parameter, as what its n-th call returns or raises. Delays are whole milliseconds and
-- the exponential base a whole number, where the source has floats; the jitter of an attempt is a
-- parameter, which the source draws between 0 and the given part of the delay.
pub mod Attempts
mod Tests
use cognitrix.Prelude.{
  ℕ, zero, suc, ◌+◌, ◌-◌, ◌*◌, ◌/◌, ◌^◌, min, Bool, true, false, not, ◌||◌, Option, none, some,
  List, [], ◌∷◌, ◌==◌, if◌then◌else◌, Result, ok, err,
}

-- The jitter factor is `jitter_percent` hundredths.
pub record RetryConfig (E : Type 0) : Type 0 where
  pub max_attempts : ℕ
  pub base_delay : ℕ
  pub max_delay : ℕ
  pub exponential_base : ℕ
  pub jitter_percent : ℕ
  pub retryable_exceptions : E → Bool

module _ {E : Type 0} where
  abbrev pub should_retry : RetryConfig E → E → Bool
  should_retry config e = config.retryable_exceptions e

  -- `calculate_delay` before the jitter is added.
  unfoldable pub backoff_delay : RetryConfig E → ℕ → ℕ
  backoff_delay config attempt =
      min (config.base_delay * config.exponential_base ^ (attempt - 1)) config.max_delay

  -- The largest jitter of a delay.
  abbrev pub jitter_limit : RetryConfig E → ℕ → ℕ
  jitter_limit config delay = delay * config.jitter_percent / 100

  -- `random.uniform(0, …)`, from a number that is drawn.
  unfoldable pub calculate_delay : RetryConfig E → ℕ → ℕ → ℕ
  unfolding backoff_delay
  calculate_delay config drawn attempt =
      backoff_delay config attempt + min drawn (jitter_limit config (backoff_delay config attempt))

pub record RetryResult (E A : Type 0) : Type 0 where
  pub success : Bool
  pub result : Option A
  pub error : Option E
  pub attempts : ℕ

-- What `with_retry` does: how often it calls the function, the callbacks it makes, each with the
-- number of the attempt and the sleep that follows it, and what it returns.
pub record Retried (E A : Type 0) : Type 0 where
  pub calls : ℕ
  pub waits : List (E × ℕ × ℕ)
  pub answer : RetryResult E A

module _ {E A : Type 0} (config : RetryConfig E) (func : ℕ → Result E A) (drawn : ℕ → ℕ) where
  abbrev pub gave_up : ℕ → Option E → Retried E A
  gave_up calls last = record {
    calls = calls;
    waits = [];
    answer = record {
      success = false;
      result = none;
      error = last;
      attempts = config.max_attempts;
    };
  }

  abbrev pub waited : E → ℕ → Retried E A → Retried E A
  waited e attempt rest = record rest {
    waits = (e, attempt, calculate_delay config (drawn attempt) attempt) ∷ rest.waits;
  }

  -- The turns that are left of `range(1, max_attempts + 1)`, and the number of this attempt.
  unfoldable pub retry_loop : ℕ → ℕ → Option E → Retried E A
  retry_loop zero attempt last = gave_up (attempt - 1) last
  retry_loop (suc left) attempt last = elim (func attempt) [
    | ok a ↦ record {
      calls = attempt;
      waits = [];
      answer = record { success = true; result = some a; error = none; attempts = attempt };
    }
    | err e ↦ elim (not (should_retry config e) || attempt == config.max_attempts) [
      | true ↦ gave_up attempt (some e)
      | false ↦ waited e attempt (retry_loop left (attempt + 1) (some e))
    ]
  ]

  unfoldable pub with_retry : Retried E A
  with_retry = retry_loop config.max_attempts 1 none
