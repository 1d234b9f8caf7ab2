-- ===== src/Retry/Tests.antt =====
-- A function that fails twice, and the theorem at it.
use cognitrix.Prelude.{
  ℕ, zero, suc, ◌≡◌, refl, true, false, none, some, [], ◌∷◌, arith, Result, ok, err, String,
}
use cognitrix.Retry.{RetryConfig, backoff_delay, calculate_delay, retry_loop, with_retry}
use cognitrix.Retry.Attempts.{Explained, with_retry-Explained}

abbrev config : RetryConfig String
config = record {
  max_attempts = 3;
  base_delay = 1000;
  max_delay = 1500;
  exponential_base = 2;
  jitter_percent = 10;
  retryable_exceptions = λ e. true;
}

abbrev flaky : ℕ → Result String ℕ
flaky (suc zero) = err "down"
flaky (suc (suc zero)) = err "busy"
flaky n = ok 7

abbrev drawn : ℕ → ℕ
drawn n = 40

flaky_run : with_retry config flaky drawn ≡ record {
  calls = 3;
  waits = ("down", 1, 1040) ∷ ("busy", 2, 1540) ∷ [];
  answer = record { success = true; result = some 7; error = none; attempts = 3 };
}
unfolding with_retry retry_loop calculate_delay backoff_delay
flaky_run = refl

-- An error that is not to be retried ends the first attempt, and the answer counts three.
early_end : (with_retry (record config { retryable_exceptions = λ e. false }) flaky drawn).calls ≡ 1
unfolding with_retry retry_loop
early_end = refl

with_retry-Explained_example : Explained config flaky drawn 1 (with_retry config flaky drawn)
with_retry-Explained_example = with_retry-Explained config flaky drawn (omega arith)
