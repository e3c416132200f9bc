-- ===== src/Tests/RetryTests.antt =====
-- Runs of the retry loop, and the theorems on it at concrete inputs.
use ruleraven.Common.{
  ℕ, suc, ◌+◌, ◌⊎◌, ◌≡◌, refl, true, Option, none, some, arith, if◌then◌else◌, ltb,
}
use ruleraven.Common.Int.{pos, Duration, ◌≤ℤ◌, ◌<ℤ◌}
use ruleraven.Provider.Retry.{
  Failure, http, new_http_error, is_retryable, RetryPolicy, validate, backoff, delay_after, grow,
  classify_http_status, requested, attempt_from, retry, ran,
}
use ruleraven.Provider.Retry.Backoff.{backoff_bounds, backoff-mono, delay_after_bounds}
use ruleraven.Provider.Retry.Guarantees.{Returns, retry_bounded, retry_counts, retry_gives_up}

-- The world counts the calls of the operation.
abbrev patient : RetryPolicy ℕ
patient = record {
  max_attempts = pos 3;
  initial_backoff = pos 100;
  max_backoff = pos 1000;
  max_retry_after = pos 5000;
  total_timeout = pos 0;
  sleep = some (λ s d. (none, s));
  jitter = none;
}

abbrev unavailable : Failure
unavailable = http (new_http_error "evaluate" (pos 503) (pos 0))

abbrev alive : Option Duration → ℕ → Option Failure
alive timeout s = none

abbrev always_fails : ℕ → ℕ → Option Failure × ℕ
always_fails s attempt = (some unavailable, suc s)

abbrev third_succeeds : ℕ → ℕ → Option Failure × ℕ
third_succeeds s attempt = (if ltb attempt 3 then some unavailable else none, suc s)

patient-valid : validate ℕ patient ≡ none
unfolding validate
patient-valid = refl

succeeds_at_last :
    retry ℕ patient alive (some third_succeeds) 0
    ≡ ran (some (record { attempts = 3; err = none; world = 3 }))
unfolding retry validate attempt_from delay_after backoff grow new_http_error classify_http_status
succeeds_at_last = refl

retry_bounded_example :
    Returns ℕ patient alive always_fails (λ attempts err world. pos attempts ≤ℤ pos 3) 0
retry_bounded_example = retry_bounded ℕ patient alive always_fails 0 patient-valid

retry_counts_example :
    Returns ℕ patient alive third_succeeds (λ attempts err world. world ≡ 0 + attempts) 0
retry_counts_example =
    retry_counts ℕ patient alive third_succeeds (λ s. s) 0 patient-valid (λ t a. refl) (λ t d. refl)

retry_gives_up_example :
    Returns ℕ patient alive always_fails
      (λ attempts err world.
        (e : Failure) → err ≡ some e → is_retryable e ≡ true → pos attempts ≡ pos 3)
      0
retry_gives_up_example =
    retry_gives_up ℕ patient alive always_fails 0 patient-valid
      (λ o t c e. absurd (grind (arith, e))) (λ t d x e. absurd (grind (arith, e)))

backoff_bounds_example : (pos 0 ≤ℤ backoff ℕ patient 7) × (backoff ℕ patient 7 ≤ℤ pos 1000)
backoff_bounds_example = backoff_bounds ℕ patient 7 patient-valid

backoff-mono_example :
    (pos 100 ≤ℤ backoff ℕ patient 3) × (backoff ℕ patient 3 ≤ℤ backoff ℕ patient 4)
backoff-mono_example = backoff-mono ℕ patient 3 patient-valid refl

delay_after_bounds_example :
    (pos 0 ≤ℤ delay_after ℕ patient 2 unavailable)
    × ((delay_after ℕ patient 2 unavailable ≤ℤ pos 1000)
        ⊎ (delay_after ℕ patient 2 unavailable ≤ℤ pos 5000))
    × ((delay_after ℕ patient 2 unavailable ≡ requested ℕ unavailable)
        ⊎ (requested ℕ unavailable ≤ℤ pos 0)
        ⊎ (pos 5000 <ℤ requested ℕ unavailable))
delay_after_bounds_example = delay_after_bounds ℕ patient 2 unavailable patient-valid (omega arith)
