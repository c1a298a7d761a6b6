-- ===== src/Retry/Bounds.antt =====
-- The bounds of the retry policy.
use payment_recovery_opportu.Base.{
  ℕ, zero, suc, ◌+◌, ◌*◌, ◌^◌, ◌≤◌, ◌<◌, ◌≡◌, ◌≢◌, ◌⊎◌, inl, inr, refl, String, true, false, none,
  some, arith,
}
use payment_recovery_opportu.Session.{
  Error, transient, permanent, duplicate_reference, reconciliation, ambiguous, integrity, other,
}
use payment_recovery_opportu.Retry.{
  draws, max_execution_attempts, base_delay, RetryResult, backoff_delay, with_jitter,
  calculate_retry,
}

-- Only a transient error below the limit of attempts is retried, at a time that is given.
pub calculate_retry-retryable :
    (attempt : ℕ) (e : Error) (now draw : ℕ)
    → (calculate_retry attempt e now draw).retryable ≡ true
    → (attempt < max_execution_attempts)
      × ((calculate_retry attempt e now draw).next_retry_at
          ≡ some (now + with_jitter (backoff_delay attempt) draw))
unfolding calculate_retry
calculate_retry-retryable attempt (transient _ _) now draw h = ground arith
calculate_retry-retryable attempt (permanent _ _) now draw h = cc
calculate_retry-retryable attempt (reconciliation _ _) now draw h = cc
calculate_retry-retryable attempt (duplicate_reference _ _) now draw h = cc
calculate_retry-retryable attempt (ambiguous _ _) now draw h = cc
calculate_retry-retryable attempt integrity now draw h = cc
calculate_retry-retryable attempt (other _) now draw h = cc

-- The jitter moves a delay by at most a fifth either way.
with_jitter_bounds :
    (delay draw : ℕ)
    → draw < draws
    → (delay * 8 ≤ with_jitter delay draw * 10 + 10) × (with_jitter delay draw * 10 ≤ delay * 12)
unfolding with_jitter
with_jitter_bounds delay draw h = omega (arith, scaled)
  where
    scaled : delay * draw ≤ delay * draws
    scaled = grind arith

-- 60 s, 120 s, 240 s, 480 s: below the limit of attempts the cap of 30 minutes never applies.
backoff_delay_uncapped :
    (n : ℕ) → suc n < max_execution_attempts → backoff_delay (suc n) ≡ base_delay * 2 ^ n
unfolding backoff_delay
backoff_delay_uncapped zero h = refl
backoff_delay_uncapped (suc zero) h = refl
backoff_delay_uncapped (suc (suc zero)) h = refl
backoff_delay_uncapped (suc (suc (suc zero))) h = refl
backoff_delay_uncapped (suc (suc (suc (suc n)))) h = absurd (omega arith)

abbrev pub Scheduled : RetryResult → ℕ → ℕ → Type 0
Scheduled r now delay =
    (t : ℕ) × (r.retryable ≡ true)
    × (r.next_retry_at ≡ some t)
    × (now * 10 + delay * 8 ≤ t * 10 + 10)
    × (t * 10 ≤ now * 10 + delay * 12)

-- After the failed attempt n + 1 of a transient error, with n + 1 below the limit of 5 attempts,
-- the next attempt is scheduled at between 80 % (less a microsecond) and 120 % of 60 s * 2 ** n
-- from now, whatever number below 2 ** 53 is drawn: the cap of 30 minutes never applies.
pub calculate_retry_schedule :
    (n now draw : ℕ) (msg type : String)
    → suc n < max_execution_attempts
    → draw < draws
    → Scheduled (calculate_retry (suc n) (transient msg type) now draw) now (base_delay * 2 ^ n)
unfolding calculate_retry
calculate_retry_schedule n now draw msg type below drawn =
    let d = with_jitter (backoff_delay (suc n)) draw in
    let (low, high) = with_jitter_bounds (backoff_delay (suc n)) draw drawn in
    let e = backoff_delay_uncapped n below in
    (now + d, ground arith, ground arith, omega arith, omega arith)

-- From the fifth attempt on no error at all is retried, and a permanent error, a failed
-- reconciliation and an error of no known class never are: the failure is final, with no time set.
pub calculate_retry_final :
    (attempt now draw : ℕ) (e : Error)
    → (max_execution_attempts ≤ attempt) ⊎ ((msg type : String) → e ≢ transient msg type)
    → ((calculate_retry attempt e now draw).retryable ≡ false)
      × ((calculate_retry attempt e now draw).is_final_failure ≡ true)
      × ((calculate_retry attempt e now draw).next_retry_at ≡ none)
unfolding calculate_retry
calculate_retry_final attempt now draw (transient msg type) (inl h) = ground arith
calculate_retry_final attempt now draw (transient msg type) (inr h) = absurd (h msg type refl)
calculate_retry_final attempt now draw (permanent _ _) h = (refl, refl, refl)
calculate_retry_final attempt now draw (reconciliation _ _) h = (refl, refl, refl)
calculate_retry_final attempt now draw (duplicate_reference _ _) h = (refl, refl, refl)
calculate_retry_final attempt now draw (ambiguous _ _) h = (refl, refl, refl)
calculate_retry_final attempt now draw integrity h = (refl, refl, refl)
calculate_retry_final attempt now draw (other _) h = (refl, refl, refl)
