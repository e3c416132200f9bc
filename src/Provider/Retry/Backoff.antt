-- ===== src/Provider/Retry/Backoff.antt =====
-- The bounds of the delays between attempts.
use ruleraven.Common.{ℕ, zero, suc, ◌-◌, ◌≡◌, ◌⊎◌, ap, ◌∙◌, none, arith, Bool-cases, inl, inr}
use ruleraven.Common.Int.{pos, Duration, ◌+ℤ◌, +ℤ_parts, half, half-le, ◌≤ℤ◌, ◌<ℤ◌, leb_ℤ}
use ruleraven.Provider.Retry.{
  Failure, grow, RetryPolicy, validate, backoff, held, with_jitter, delay_after, requested,
}

-- From a start between 0 and the maximum, no round passes the maximum or falls below the start.
pub grow_bounds :
    (n : ℕ) (d m : Duration) → pos 0 <ℤ d → d ≤ℤ m → (d ≤ℤ grow n d m) × (grow n d m ≤ℤ m)
unfolding grow
grow_bounds zero d m p h = omega arith
grow_bounds (suc n) d m p h = elim (Bool-cases (leb_ℤ (half m) d)) [
  | inl e ↦ rw e (omega arith)
  | inr e ↦ rw e (omega (arith, half-le m d e p, +ℤ_parts d d, grow_bounds n (d +ℤ d) m))
]

-- One more round never shortens the delay.
pub grow-mono : (n : ℕ) (d m : Duration) → pos 0 <ℤ d → d ≤ℤ m → grow n d m ≤ℤ grow (suc n) d m
unfolding grow
grow-mono zero d m p h = elim (Bool-cases (leb_ℤ (half m) d)) [
  | inl e ↦ rw e h
  | inr e ↦ rw e (omega (arith, +ℤ_parts d d))
]
grow-mono (suc n) d m p h = elim (Bool-cases (leb_ℤ (half m) d)) [
  | inl e ↦ rw e (omega arith)
  | inr e ↦ rw e (grow-mono n (d +ℤ d) m (omega (arith, +ℤ_parts d d)) (half-le m d e p))
]

module _ (S : Type 0) where
  held_bounds : (m d : Duration) → pos 0 ≤ℤ m → (pos 0 ≤ℤ held S m d) × (held S m d ≤ℤ m)
  held_bounds m d h = ground arith

  held_id : (m d : Duration) → pos 0 ≤ℤ d → d ≤ℤ m → held S m d ≡ d
  held_id m d h k = ground arith

  valid_backoff :
      (p : RetryPolicy S)
      → validate S p ≡ none
      → (pos 0 <ℤ p.initial_backoff)
        × (p.initial_backoff ≤ℤ p.max_backoff)
        × (pos 0 ≤ℤ p.max_retry_after)
  unfolding validate
  valid_backoff p h = ground (arith, h)

  plain_backoff :
      (p : RetryPolicy S) (k : ℕ)
      → validate S p ≡ none
      → p.jitter ≡ none
      → backoff S p k ≡ grow (k - 1) p.initial_backoff p.max_backoff
  unfolding backoff
  plain_backoff p k h j =
      let (low, fits, _) = valid_backoff p h in
      let (above, below) = grow_bounds (k - 1) p.initial_backoff p.max_backoff low fits in
      ap
        (λ jitter.
          held S p.max_backoff
            (with_jitter S jitter (grow (k - 1) p.initial_backoff p.max_backoff)))
        j
      ∙ held_id p.max_backoff (grow (k - 1) p.initial_backoff p.max_backoff) (omega arith) below

  grow-pred :
      (k : ℕ) (d m : Duration) → pos 0 <ℤ d → d ≤ℤ m → grow (k - 1) d m ≤ℤ grow (suc k - 1) d m
  grow-pred zero d m p h = omega arith
  grow-pred (suc k) d m p h = rw (sub_one k, sub_one (suc k)) (grow-mono k d m p h)
    where
      sub_one : (n : ℕ) → suc n - 1 ≡ n
      sub_one n = omega arith

  -- Of a policy that validates, the backoff after any failed attempt is not negative and at most the
  -- maximum, whatever the jitter does.
  pub backoff_bounds :
      (p : RetryPolicy S) (k : ℕ)
      → validate S p ≡ none
      → (pos 0 ≤ℤ backoff S p k) × (backoff S p k ≤ℤ p.max_backoff)
  unfolding backoff
  backoff_bounds p k h =
      let (low, fits, _) = valid_backoff p h in
      held_bounds p.max_backoff
        (with_jitter S p.jitter (grow (k - 1) p.initial_backoff p.max_backoff)) (omega arith)

  -- Of a policy that validates and has no jitter, the backoff is at least the initial one, and never
  -- falls from one attempt to the next.
  pub backoff-mono :
      (p : RetryPolicy S) (k : ℕ)
      → validate S p ≡ none
      → p.jitter ≡ none
      → (p.initial_backoff ≤ℤ backoff S p k) × (backoff S p k ≤ℤ backoff S p (suc k))
  backoff-mono p k h j =
      let (low, fits, _) = valid_backoff p h in
      rw (plain_backoff p k h j, plain_backoff p (suc k) h j)
        (
          (grow_bounds (k - 1) p.initial_backoff p.max_backoff low fits).0,
          grow-pred k p.initial_backoff p.max_backoff low fits,
        )

  -- Of a policy that validates and sets a maximum Retry-After, the delay before the next attempt is
  -- not negative, and at most the maximum backoff or at most the maximum Retry-After. Unless the
  -- failure asks for no delay, or for more than that maximum, it is what the failure asks for.
  pub delay_after_bounds :
      (p : RetryPolicy S) (k : ℕ) (err : Failure)
      → validate S p ≡ none
      → pos 0 <ℤ p.max_retry_after
      → (pos 0 ≤ℤ delay_after S p k err)
        × ((delay_after S p k err ≤ℤ p.max_backoff) ⊎ (delay_after S p k err ≤ℤ p.max_retry_after))
        × ((delay_after S p k err ≡ requested S err)
            ⊎ (requested S err ≤ℤ pos 0)
            ⊎ (p.max_retry_after <ℤ requested S err))
  unfolding delay_after
  delay_after_bounds p k err h r =
      let (nonneg, capped) = backoff_bounds p k h in
      (ground (arith, nonneg), ground (arith, capped), ground arith)
