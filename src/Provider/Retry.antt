-- ===== src/Provider/Retry.antt =====
-- retry.go: the classes of HTTP failures, the backoff and the retry loop. The world in which the
-- operation, the context and the sleeper run is a state that the caller chooses.
pub mod Backoff
pub mod Guarantees
pub mod Loop
use ruleraven.Common.{
  ℕ, zero, suc, ◌-◌, String, Bool, true, false, not, ◌&&◌, ◌||◌, Option, none, some, is_some,
  if◌then◌else◌, eqb, ltb,
}
use ruleraven.Common.Int.{ℤ, pos, negsuc, Duration, ◌+ℤ◌, half, ltb_ℤ, leb_ℤ, eqb_ℤ}

pub data ErrorKind : Type 0 where
  transport timeout rate_limited server malformed_request authentication : ErrorKind
  authorization payment_required payload_too_large unsupported_model permanent : ErrorKind

pub record HttpError : Type 0 where
  pub operation : String
  pub status_code : ℤ
  pub kind : ErrorKind
  pub retryable : Bool
  pub retry_after_delay : Duration

-- An error as `errors.As` and `errors.Is` see it; only an `HTTPError` has a `RetryAfter` method.
pub data Failure : Type 0 where
  http : HttpError → Failure
  canceled deadline_exceeded : Failure
  other : String → Failure

unfoldable pub classify_http_status : ℤ → ErrorKind × Bool
classify_http_status status =
    if eqb_ℤ status (pos 408)
    then (timeout, true)
    else if eqb_ℤ status (pos 429)
    then (rate_limited, true)
    else if eqb_ℤ status (pos 500)
        || eqb_ℤ status (pos 502)
        || eqb_ℤ status (pos 503)
        || eqb_ℤ status (pos 524)
        || eqb_ℤ status (pos 529)
    then (server, true)
    else if eqb_ℤ status (pos 400)
    then (malformed_request, false)
    else if eqb_ℤ status (pos 401)
    then (authentication, false)
    else if eqb_ℤ status (pos 403)
    then (authorization, false)
    else if eqb_ℤ status (pos 402)
    then (payment_required, false)
    else if eqb_ℤ status (pos 413)
    then (payload_too_large, false)
    else if eqb_ℤ status (pos 422)
    then (unsupported_model, false)
    else (permanent, false)

unfoldable pub new_http_error : String → ℤ → Duration → HttpError
new_http_error operation status retry_after = record {
  operation = operation;
  status_code = status;
  kind = (classify_http_status status).0;
  retryable = (classify_http_status status).1;
  retry_after_delay = if ltb_ℤ retry_after (pos 0) then pos 0 else retry_after;
}

-- The context errors come through; of any other error nothing is kept.
unfoldable pub new_transport_error : String → Failure → Failure
new_transport_error operation canceled = canceled
new_transport_error operation deadline_exceeded = deadline_exceeded
new_transport_error operation err = http (record {
  operation = operation;
  status_code = pos 0;
  kind = transport;
  retryable = true;
  retry_after_delay = pos 0;
})

abbrev pub is_retryable : Failure → Bool
is_retryable (http e) = e.retryable
is_retryable _ = false

-- The loop of `backoff`, by the rounds left.
unfoldable pub grow : ℕ → Duration → Duration → Duration
grow zero delay max_backoff = delay
grow (suc n) delay max_backoff =
    let rest = grow n (delay +ℤ delay) max_backoff in
    if leb_ℤ (half max_backoff) delay then max_backoff else rest

module _ (S : Type 0) where
  pub record RetryPolicy : Type 0 where
    pub max_attempts : ℤ
    pub initial_backoff : Duration
    pub max_backoff : Duration
    pub max_retry_after : Duration
    pub total_timeout : Duration
    pub sleep : Option (S → Duration → Option Failure × S)
    pub jitter : Option (Duration → Duration)

  -- The errors of `validate`, by the field that they name.
  pub data PolicyError : Type 0 where
    bad_max_attempts bad_initial_backoff bad_max_backoff bad_max_retry_after : PolicyError
    bad_total_timeout no_sleeper : PolicyError

  unfoldable pub validate : RetryPolicy → Option PolicyError
  validate p =
      if leb_ℤ p.max_attempts (pos 0)
      then some bad_max_attempts
      else if leb_ℤ p.initial_backoff (pos 0)
      then some bad_initial_backoff
      else if ltb_ℤ p.max_backoff p.initial_backoff
      then some bad_max_backoff
      else if ltb_ℤ p.max_retry_after (pos 0)
      then some bad_max_retry_after
      else if ltb_ℤ p.total_timeout (pos 0)
      then some bad_total_timeout
      else if not (is_some p.sleep)
      then some no_sleeper
      else none

  abbrev pub with_jitter : Option (Duration → Duration) → Duration → Duration
  with_jitter none delay = delay
  with_jitter (some jitter) delay = jitter delay

  -- The two tests behind the jitter.
  abbrev pub held : Duration → Duration → Duration
  held max_backoff delay =
      let positive = if ltb_ℤ delay (pos 0) then pos 0 else delay in
      if ltb_ℤ max_backoff positive then max_backoff else positive

  unfoldable pub backoff : RetryPolicy → ℕ → Duration
  backoff p failed_attempt =
      held p.max_backoff
        (with_jitter p.jitter (grow (failed_attempt - 1) p.initial_backoff p.max_backoff))

  abbrev pub requested : Failure → Duration
  requested (http e) = e.retry_after_delay
  requested _ = pos 0

  -- The delay before the next attempt: the backoff, or what the failure asks for.
  unfoldable pub delay_after : RetryPolicy → ℕ → Failure → Duration
  delay_after p attempt err =
      if ltb_ℤ (pos 0) (requested err)
      then if ltb_ℤ (pos 0) p.max_retry_after && ltb_ℤ p.max_retry_after (requested err)
        then p.max_retry_after
        else requested err
      else backoff p attempt

  -- Attempts begun, the error returned, and the world after.
  pub record Outcome : Type 0 where
    pub attempts : ℕ
    pub err : Option Failure
    pub world : S

  abbrev pub stop : ℕ → Option Failure → S → Option Outcome
  stop attempts err world = some (record { attempts = attempts; err = err; world = world })

  abbrev pub slept : ℕ → (S → Option Outcome) → Option Failure × S → Option Outcome
  slept attempt next (some e, s) = stop attempt (some e) s
  slept attempt next (none, s) = next s

  -- `policy.Sleep(ctx, delay)`, of a policy that has a sleeper
  abbrev pub sleep_for : RetryPolicy → S → Duration → Option Failure × S
  sleep_for p s delay = elim p.sleep [ none ↦ (none, s) | some sleep ↦ sleep s delay ]

  module _ (p : RetryPolicy) (context_err : S → Option Failure)
      (operation : S → ℕ → Option Failure × S) where
    -- What follows a failed operation whose context still lives.
    abbrev pub failed : ℕ → (S → Option Outcome) → Failure → S → Option Outcome
    failed attempt next e s =
        if not (is_retryable e) || eqb_ℤ (pos attempt) p.max_attempts
        then stop attempt (some e) s
        else slept attempt next (sleep_for p s (delay_after p attempt e))

    abbrev pub operated : ℕ → (S → Option Outcome) → Option Failure × S → Option Outcome
    operated attempt next (none, s) = stop attempt none s
    operated attempt next (some e, s) = elim (context_err s) [
      | some c ↦ stop attempt (some c) s
      | none ↦ failed attempt next e s
    ]

    -- The loop of `Retry` from an attempt on, by the rounds left; `none` is the panic behind it.
    unfoldable pub attempt_from : ℕ → ℕ → S → Option Outcome
    attempt_from zero attempt s = none
    attempt_from (suc rounds) attempt s = elim (context_err s) [
      | some c ↦ stop (attempt - 1) (some c) s
      | none ↦ operated attempt (λ t. attempt_from rounds (suc attempt) t) (operation s attempt)
    ]

  abbrev pub rounds_of : ℤ → ℕ
  rounds_of (pos n) = n
  rounds_of (negsuc n) = 0

  abbrev pub timeout_of : Duration → Option Duration
  timeout_of d = if ltb_ℤ (pos 0) d then some d else none

  -- What `Retry` returns: its own refusals, or the outcome of the loop. The context's error depends
  -- on the total timeout, where one is set; `none` as the operation is nil.
  pub data Answer : Type 0 where
    bad_policy : PolicyError → Answer
    no_operation : Answer
    ran : Option Outcome → Answer

  unfoldable pub retry :
      RetryPolicy
      → (Option Duration → S → Option Failure)
      → Option (S → ℕ → Option Failure × S)
      → S
      → Answer
  retry p context_err operation s = elim (validate p) [
    | some e ↦ bad_policy e
    | none ↦ elim operation [
      | none ↦ no_operation
      | some run ↦ ran (
          attempt_from p (context_err (timeout_of p.total_timeout)) run (rounds_of p.max_attempts) 1
            s)
    ]
  ]
