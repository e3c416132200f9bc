-- ===== src/Provider/Retry/Guarantees.antt =====
-- What a caller of `Retry` may rely on, by the rule for its loop.
use ruleraven.Common.{ℕ, suc, ◌+◌, ◌≡◌, ◌⊎◌, inl, inr, ap, true, false, Option, none, some, arith}
use ruleraven.Common.Int.{pos, Duration, ◌≤ℤ◌}
use ruleraven.Provider.Retry.{
  Failure, is_retryable, RetryPolicy, validate, Outcome, sleep_for, timeout_of, ran, retry,
}
use ruleraven.Provider.Retry.Loop.{Rule, all_attempts-Ensures}

module _ (S : Type 0) (p : RetryPolicy S) (context_err : Option Duration → S → Option Failure)
    (operation : S → ℕ → Option Failure × S) where
  -- The answer is an outcome that meets a postcondition.
  abbrev pub Returns : (ℕ → Option Failure → S → Type 0) → S → Type 0
  Returns Post s =
      (r : Outcome S) × (retry S p context_err (some operation) s ≡ ran (some r))
      × Post r.attempts r.err r.world

  retry-Returns :
      {Inv : ℕ → S → Type 0} {Post : ℕ → Option Failure → S → Type 0} (s : S)
      → Rule S p (context_err (timeout_of S p.total_timeout)) operation Inv Post
      → validate S p ≡ none
      → Inv 1 s
      → Returns Post s
  unfolding retry
  retry-Returns s rule v i =
      let e =
        all_attempts-Ensures S p (context_err (timeout_of S p.total_timeout)) operation rule s v
          i in
      (e.0, rw (v, retry) (ap ran e.1), e.2)

-- Of a policy that validates, `Retry` returns an outcome and never reaches the panic behind its
-- loop, and it makes no more attempts than the policy allows, whatever the operation, the context
-- and the sleeper do.
pub retry_bounded :
    (S : Type 0) (p : RetryPolicy S) (context_err : Option Duration → S → Option Failure)
    (operation : S → ℕ → Option Failure × S) (s : S)
    → validate S p ≡ none
    → Returns S p context_err operation (λ attempts err world. pos attempts ≤ℤ p.max_attempts) s
retry_bounded S p context_err operation s v =
    retry-Returns S p context_err operation {Inv = λ a t. pos 1 ≤ℤ pos a} s
      (record {
        on_context = λ a t c h i e. ground arith;
        on_success = λ a t h i e. h;
        on_ended = λ a t c h i e. h;
        on_failure = λ a t c h i e. h;
        on_sleep = λ a t d x h i e. h;
        on_next = λ a t d h i. omega arith;
      })
      v (omega arith)

-- Of a policy that validates, `Retry` calls the operation exactly as often as it says: a counter
-- that the operation steps once a call and the sleeper leaves alone ends at its start and the
-- attempts.
pub retry_counts :
    (S : Type 0) (p : RetryPolicy S) (context_err : Option Duration → S → Option Failure)
    (operation : S → ℕ → Option Failure × S) (count : S → ℕ) (s : S)
    → validate S p ≡ none
    → ((t : S) (a : ℕ) → count (operation t a).1 ≡ suc (count t))
    → ((t : S) (d : Duration) → count (sleep_for S p t d).1 ≡ count t)
    → Returns S p context_err operation (λ attempts err world. count world ≡ count s + attempts) s
retry_counts S p context_err operation count s v op sl =
    retry-Returns S p context_err operation
      {Inv = λ a t. (pos 1 ≤ℤ pos a) × (suc (count t) ≡ count s + a)} s
      (record {
        on_context = λ a t c h i e. omega (arith, i.0, i.1);
        on_success = λ a t h i e. omega (arith, i.1, op t a);
        on_ended = λ a t c h i e. omega (arith, i.1, op t a);
        on_failure = λ a t c h i e. omega (arith, i.1, op t a);
        on_sleep = λ a t d x h i e. omega (arith, i.1, op t a, sl (operation t a).1 d);
        on_next = λ a t d h i. omega (arith, i, op t a, sl (operation t a).1 d);
      })
      v (omega arith, omega arith)

-- Of a policy that validates, with context and sleeper errors that are not retryable, a retryable
-- error is returned only after the last attempt that the policy allows.
pub retry_gives_up :
    (S : Type 0) (p : RetryPolicy S) (context_err : Option Duration → S → Option Failure)
    (operation : S → ℕ → Option Failure × S) (s : S)
    → validate S p ≡ none
    → ((o : Option Duration) (t : S) (c : Failure)
        → context_err o t ≡ some c
        → is_retryable c ≡ false)
    → ((t : S) (d : Duration) (x : Failure)
        → (sleep_for S p t d).0 ≡ some x
        → is_retryable x ≡ false)
    → Returns S p context_err operation
        (λ attempts err world.
          (e : Failure) → err ≡ some e → is_retryable e ≡ true → pos attempts ≡ p.max_attempts)
        s
retry_gives_up S p context_err operation s v ctx sl =
    retry-Returns S p context_err operation {Inv = λ a t. pos 1 ≤ℤ pos a} s
      (record {
        on_context =
            λ a t c h i e x eq r. absurd (never (ctx (timeout_of S p.total_timeout) t c e) eq r);
        on_success = λ a t h i e x eq r. absurd (grind (arith, eq));
        on_ended = λ a t c h i e x eq r.
            absurd (never (ctx (timeout_of S p.total_timeout) (operation t a).1 c e) eq r);
        on_failure = λ a t c h i e x eq r. at_end e eq r;
        on_sleep = λ a t d y h i e x eq r. absurd (never (sl (operation t a).1 d y e) eq r);
        on_next = λ a t d h i. omega arith;
      })
      v (omega arith)
  where
    never : {c x : Failure} → is_retryable c ≡ false → some c ≡ some x → is_retryable x ≡ true → ⊥
    never h eq r = grind (arith, h, eq, r)

    at_end :
        {a : ℕ} {c x : Failure}
        → (is_retryable c ≡ false) ⊎ (pos a ≡ p.max_attempts)
        → some c ≡ some x
        → is_retryable x ≡ true
        → pos a ≡ p.max_attempts
    at_end (inl h) eq r = absurd (never h eq r)
    at_end (inr h) eq r = h
