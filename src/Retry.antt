-- ===== src/Retry.antt =====
-- app/retry_policy.py: whether, and when, a failed execution is tried again.
--
-- A time is in microseconds. `random.random()` is draw / 2 ** 53 for a draw below 2 ** 53. The
-- delay is the exact quotient rounded down to a microsecond; the rounding of binary64, which stays
-- under a microsecond, is not modelled.
pub mod Bounds
use payment_recovery_opportu.Base.{
  ℕ, zero, suc, ◌+◌, ◌*◌, ◌/◌, ◌^◌, min, Bool, true, false, Option, none, some, leb, if◌then◌else◌,
}
use payment_recovery_opportu.Session.{
  Error, transient, permanent, duplicate_reference, reconciliation, ambiguous, integrity, other,
}

abbrev pub max_execution_attempts : ℕ
max_execution_attempts = 5

-- 60 seconds.
abbrev pub base_delay : ℕ
base_delay = 60000000

-- 30 minutes.
abbrev pub max_delay : ℕ
max_delay = 1800000000

abbrev pub draws : ℕ
draws = 2 ^ 53

pub data RetryReason : Type 0 where
  permanent_error unknown_error_type maximum_attempts_reached : RetryReason
  scheduling_attempt : ℕ → RetryReason

pub record RetryResult : Type 0 where
  pub retryable : Bool
  pub next_retry_at : Option ℕ
  pub is_final_failure : Bool
  pub reason : RetryReason

-- 60 s * 2 ** (attempt - 1), at most 30 minutes.
unfoldable pub backoff_delay : ℕ → ℕ
backoff_delay zero = min (base_delay / 2) max_delay
backoff_delay (suc n) = min (base_delay * 2 ^ n) max_delay

-- delay * (0.8 + (1.2 - 0.8) * draw / 2 ** 53)
unfoldable pub with_jitter : ℕ → ℕ → ℕ
with_jitter delay draw = delay * (8 * draws + 4 * draw) / (10 * draws)

abbrev final_failure : RetryReason → RetryResult
final_failure reason = record {
  retryable = false;
  next_retry_at = none;
  is_final_failure = true;
  reason = reason;
}

-- A transient error: the limit of attempts, then the delay.
unfoldable pub retry_transient : ℕ → ℕ → ℕ → RetryResult
retry_transient attempt_number now draw =
    if leb max_execution_attempts attempt_number
    then final_failure maximum_attempts_reached
    else record {
      retryable = true;
      next_retry_at = some (now + with_jitter (backoff_delay attempt_number) draw);
      is_final_failure = false;
      reason = scheduling_attempt (attempt_number + 1);
    }

unfoldable pub calculate_retry : ℕ → Error → ℕ → ℕ → RetryResult
unfolding retry_transient
calculate_retry attempt_number (permanent _ _) now draw = final_failure permanent_error
calculate_retry attempt_number (reconciliation _ _) now draw = final_failure permanent_error
calculate_retry attempt_number (transient _ _) now draw = retry_transient attempt_number now draw
calculate_retry attempt_number (duplicate_reference _ _) now draw = final_failure unknown_error_type
calculate_retry attempt_number (ambiguous _ _) now draw = final_failure unknown_error_type
calculate_retry attempt_number integrity now draw = final_failure unknown_error_type
calculate_retry attempt_number (other _) now draw = final_failure unknown_error_type
