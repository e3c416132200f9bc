-- ===== src/Provider/Retry/Loop.antt =====
-- The retry loop: it ends within its attempts, counts them, and gives up only for a reason.
use ruleraven.Common.{
  ℕ, zero, suc, ◌+◌, ◌-◌, ◌≡◌, refl, ◌⊎◌, inl, inr, false, not, ◌||◌, Option, none, some, arith,
  Bool-cases, Option-cases,
}
use ruleraven.Common.Int.{ℤ, pos, negsuc, Duration, eqb_ℤ, ◌≤ℤ◌}
use ruleraven.Provider.Retry.{
  Failure, is_retryable, RetryPolicy, validate, delay_after, Outcome, slept, sleep_for, failed,
  operated, attempt_from, rounds_of,
}

-- A policy that validates has an attempt to make.
valid_attempts : (S : Type 0) (p : RetryPolicy S) → validate S p ≡ none → pos 1 ≤ℤ p.max_attempts
unfolding validate
valid_attempts S p h = ground (arith, h)

module _ (S : Type 0) (p : RetryPolicy S) (context_err : S → Option Failure)
    (operation : S → ℕ → Option Failure × S) where
  -- The loop returns, and what it returns meets a postcondition.
  abbrev pub Ensures : (ℕ → Option Failure → S → Type 0) → Option (Outcome S) → Type 0
  Ensures Post o = (r : Outcome S) × (o ≡ some r) × Post r.attempts r.err r.world

  -- An invariant before each attempt, and why every way out meets the postcondition.
  pub record Rule (Inv : ℕ → S → Type 0) (Post : ℕ → Option Failure → S → Type 0) : Type 0 where
    pub on_context :
        (a : ℕ) (s : S) (c : Failure)
        → pos a ≤ℤ p.max_attempts
        → Inv a s
        → context_err s ≡ some c
        → Post (a - 1) (some c) s
    pub on_success :
        (a : ℕ) (s : S)
        → pos a ≤ℤ p.max_attempts
        → Inv a s
        → (operation s a).0 ≡ none
        → Post a none (operation s a).1
    pub on_ended :
        (a : ℕ) (s : S) (c : Failure)
        → pos a ≤ℤ p.max_attempts
        → Inv a s
        → context_err (operation s a).1 ≡ some c
        → Post a (some c) (operation s a).1
    pub on_failure :
        (a : ℕ) (s : S) (e : Failure)
        → pos a ≤ℤ p.max_attempts
        → Inv a s
        → (is_retryable e ≡ false) ⊎ (pos a ≡ p.max_attempts)
        → Post a (some e) (operation s a).1
    pub on_sleep :
        (a : ℕ) (s : S) (d : Duration) (x : Failure)
        → pos a ≤ℤ p.max_attempts
        → Inv a s
        → (sleep_for S p (operation s a).1 d).0 ≡ some x
        → Post a (some x) (sleep_for S p (operation s a).1 d).1
    pub on_next :
        (a : ℕ) (s : S) (d : Duration)
        → pos a ≤ℤ p.max_attempts
        → Inv a s
        → Inv (suc a) (sleep_for S p (operation s a).1 d).1

  module _ {Inv : ℕ → S → Type 0} {Post : ℕ → Option Failure → S → Type 0}
      (rule : Rule Inv Post) where
    slept-Ensures :
        (a : ℕ) (next : S → Option (Outcome S)) (r : Option Failure × S)
        → ((x : Failure) → r.0 ≡ some x → Post a (some x) r.1)
        → Ensures Post (next r.1)
        → Ensures Post (slept S a next r)
    slept-Ensures a next (some e, s) h k =
        (record { attempts = a; err = some e; world = s }, refl, h e refl)
    slept-Ensures a next (none, s) h k = k

    failed-Ensures :
        (a : ℕ) (next : S → Option (Outcome S)) (s : S) (e : Failure)
        → pos a ≤ℤ p.max_attempts
        → Inv a s
        → (eqb_ℤ (pos a) p.max_attempts ≡ false
            → Ensures Post (next (sleep_for S p (operation s a).1 (delay_after S p a e)).1))
        → Ensures Post (failed S p context_err operation a next e (operation s a).1)
    failed-Ensures a next s e h i k =
        elim (Bool-cases (not (is_retryable e) || eqb_ℤ (pos a) p.max_attempts)) [
          | inl b ↦ rw b (
            record { attempts = a; err = some e; world = (operation s a).1 },
            refl,
            rule.on_failure a s e h i (ground (arith, b)),
          )
          | inr b ↦ rw b (
              slept-Ensures a next (sleep_for S p (operation s a).1 (delay_after S p a e))
                (λ x. rule.on_sleep a s (delay_after S p a e) x h i) (k (ground (arith, b))))
        ]

    operated-Ensures :
        (a : ℕ) (next : S → Option (Outcome S)) (s : S)
        → pos a ≤ℤ p.max_attempts
        → Inv a s
        → ((d : Duration)
            → eqb_ℤ (pos a) p.max_attempts ≡ false
            → Ensures Post (next (sleep_for S p (operation s a).1 d).1))
        → Ensures Post (operated S p context_err operation a next (operation s a))
    operated-Ensures a next s h i k = by_result (operation s a).0 refl
      where
        by_result :
            (r : Option Failure)
            → (operation s a).0 ≡ r
            → Ensures Post (operated S p context_err operation a next (r, (operation s a).1))
        by_result none e = (
          record { attempts = a; err = none; world = (operation s a).1 },
          refl,
          rule.on_success a s h i e,
        )
        by_result (some x) e = elim (Option-cases (context_err (operation s a).1)) [
          | inl alive ↦
              rw (alive, operated) (failed-Ensures a next s x h i (λ b. k (delay_after S p a x) b))
          | inr (c, ended) ↦
              rw (ended, operated)
                (
                  record { attempts = a; err = some c; world = (operation s a).1 },
                  refl,
                  rule.on_ended a s c h i ended,
                )
        ]

    attempt_step :
        (rounds a : ℕ) (s : S)
        → pos a ≤ℤ p.max_attempts
        → Inv a s
        → ((d : Duration)
            → eqb_ℤ (pos a) p.max_attempts ≡ false
            → Ensures Post (
                attempt_from S p context_err operation rounds
                  (suc a)
                  (sleep_for S p (operation s a).1 d).1))
        → Ensures Post (attempt_from S p context_err operation (suc rounds) a s)
    unfolding attempt_from
    attempt_step rounds a s h i k = elim (Option-cases (context_err s)) [
      | inr (c, ended) ↦
          rw (ended, attempt_from)
            (
              record { attempts = a - 1; err = some c; world = s },
              refl,
              rule.on_context a s c h i ended,
            )
      | inl alive ↦
          rw (alive, attempt_from)
            (operated-Ensures a (λ t. attempt_from S p context_err operation rounds (suc a) t) s h i
              k)
    ]

    -- From an attempt on after which the rounds left end at the last one.
    pub attempt_from-Ensures :
        (rounds a : ℕ) (s : S)
        → pos (a + rounds) ≡ p.max_attempts
        → Inv a s
        → Ensures Post (attempt_from S p context_err operation (suc rounds) a s)
    attempt_from-Ensures zero a s h i =
        attempt_step zero a s (ground (arith, h)) i (λ d b. absurd (ground (arith, h, b)))
    attempt_from-Ensures (suc r) a s h i = attempt_step (suc r) a s (ground (arith, h)) i (λ d b.
        attempt_from-Ensures r (suc a) (sleep_for S p (operation s a).1 d).1 (ground (arith, h))
          (rule.on_next a s d (ground (arith, h)) i))

    -- The whole loop, of a policy that validates.
    pub all_attempts-Ensures :
        (s : S)
        → validate S p ≡ none
        → Inv 1 s
        → Ensures Post (attempt_from S p context_err operation (rounds_of S p.max_attempts) 1 s)
    all_attempts-Ensures s v i = by_max p.max_attempts refl (valid_attempts S p v)
      where
        by_max :
            (m : ℤ)
            → p.max_attempts ≡ m
            → pos 1 ≤ℤ m
            → Ensures Post (attempt_from S p context_err operation (rounds_of S m) 1 s)
        by_max (pos zero) e h = absurd (omega arith)
        by_max (pos (suc n)) e h = attempt_from-Ensures n 1 s (ground (arith, e)) i
        by_max (negsuc n) e h = absurd (omega arith)
