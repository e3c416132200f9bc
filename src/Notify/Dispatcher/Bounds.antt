-- ===== src/Notify/Dispatcher/Bounds.antt =====
-- dispatcher.go: the delays that follow from the limits of a dispatcher.
use ruleraven.Common.{
  ℕ, zero, suc, ◌-◌, ◌≡◌, refl, String, Bool, true, false, ◌&&◌, Option, none, some, Bool-cases,
  inl, inr, arith, ◌⊎◌, ◌↔◌,
}
use ruleraven.Common.Int.{
  ℤ, pos, Time, Duration, ◌+ℤ◌, +ℤ_parts, half, half-le, ltb_ℤ, leb_ℤ, ◌≤ℤ◌, ◌<ℤ◌, pos_part,
}
use ruleraven.Notify.Envelope.{NotifyError, DeliveryError}
use ruleraven.Notify.Dispatcher.{failure_retryable, failure_permanent, Delivery, grow, Dispatcher}
use ruleraven.Notify.Dispatcher.Step.{retryable, backoff, capped, retries, reschedule_request}

grow_bounds : (n : ℕ) (d m : Duration) → pos 0 <ℤ d → d ≤ℤ m → (d ≤ℤ grow n d m) × (grow n d m ≤ℤ m)
unfolding grow
grow_bounds zero d m p h = ground arith
grow_bounds (suc n) d m p h = elim (Bool-cases (leb_ℤ (half m) d)) [
  | inl e ↦ rw e (omega arith)
  | inr e ↦ rw e (omega (arith, half-le m d e p, +ℤ_parts d d, grow_bounds n (d +ℤ d) m))
]

module _ {S E : Type 0} where
  abbrev pub Limits : Dispatcher S E → Type 0
  Limits d =
      (pos 0 <ℤ d.workers)
      × (pos 0 <ℤ d.lease_duration)
      × (pos 0 <ℤ d.max_attempts)
      × (pos 0 <ℤ d.initial_backoff)
      × (d.initial_backoff ≤ℤ d.max_backoff)

module _ {S E : Type 0} where
  module _ {C : Type 0} (context_err : S → Option C) (valid_json : String → Bool)
      (marshal_reference : String → String → Option String) (path_escape : String → String)
      (d : Dispatcher S E) where
    backoff_limits :
        (attempt : ℤ)
        → Limits d
        → (pos 0 ≤ℤ backoff context_err valid_json marshal_reference path_escape d attempt)
          × (backoff context_err valid_json marshal_reference path_escape d attempt
              ≤ℤ d.max_backoff)
    unfolding backoff
    backoff_limits attempt (_, _, _, low, fits) =
        let (above, below) =
          grow_bounds (pos_part attempt - 1) d.initial_backoff d.max_backoff low fits in
        (omega arith, below)

    capped_limits :
        (delay : Duration) (c : Option NotifyError)
        → pos 0 ≤ℤ delay
        → delay ≤ℤ d.max_backoff
        → (pos 0 ≤ℤ capped context_err valid_json marshal_reference path_escape d delay c)
          × (capped context_err valid_json marshal_reference path_escape d delay c ≤ℤ d.max_backoff)
    capped_limits delay none h k = (h, k)
    capped_limits delay (some e) h k = ground arith

    both_of : (r : Bool) (a m : ℤ) → (r && ltb_ℤ a m) ≡ true → (r ≡ true) × (a <ℤ m)
    both_of r a m h = ground (arith, h)

    not_both : (r : Bool) (a m : ℤ) → (r && ltb_ℤ a m) ≡ false → (r ≡ true) × (a <ℤ m) → ⊥
    not_both r a m h x = ground (arith, h, x)

    -- Of a dispatcher with its limits, a failed delivery is tried again exactly when its error is
    -- retryable and attempts are left. The next attempt is never before now and at most the maximum
    -- backoff away, whatever delay the error asks for. The delivery is given an expiry only when it
    -- is not tried again.
    pub reschedule_request_bounds :
        (delivery : Delivery) (e : DeliveryError) (now : Time)
        → Limits d
        → let r =
            reschedule_request context_err valid_json marshal_reference path_escape d delivery e
              now in
          (r.failure ≡ failure_retryable
            ↔ (retryable e ≡ true) × (delivery.notification.attempts <ℤ d.max_attempts))
          × (now ≤ℤ r.next_attempt_at)
          × (r.next_attempt_at ≤ℤ now +ℤ d.max_backoff)
          × ((r.expires_at ≡ none) ⊎ (r.failure ≡ failure_permanent))
    unfolding reschedule_request
    reschedule_request_bounds delivery e now h =
        let b0 = backoff_limits delivery.notification.attempts h in
        let limits =
          capped_limits
            (backoff context_err valid_json marshal_reference path_escape d
              delivery.notification.attempts)
            e.classified b0.0 b0.1 in
        elim (Bool-cases
          (retries context_err valid_json marshal_reference path_escape d delivery e)) [
            | inl b ↦
                rw (b, reschedule_request)
                  (
                    (
                      (λ _. both_of (retryable e) delivery.notification.attempts d.max_attempts b),
                      λ _. refl,
                    ),
                    omega (
                      arith,
                      limits,
                      +ℤ_parts now (
                          capped context_err valid_json marshal_reference path_escape d
                            (backoff context_err valid_json marshal_reference path_escape d
                              delivery.notification.attempts)
                            e.classified),
                    ),
                    omega (
                      arith,
                      limits,
                      +ℤ_parts now (
                          capped context_err valid_json marshal_reference path_escape d
                            (backoff context_err valid_json marshal_reference path_escape d
                              delivery.notification.attempts)
                            e.classified),
                      +ℤ_parts now d.max_backoff,
                    ),
                    inl refl,
                  )
            | inr b ↦
                rw (b, reschedule_request)
                  (
                    (
                      (λ x. absurd (grind (arith, x))),
                      λ x. absurd (
                          not_both (retryable e) delivery.notification.attempts d.max_attempts b x),
                    ),
                    omega (arith, +ℤ_parts now (pos 0)),
                    omega (arith, +ℤ_parts now (pos 0), +ℤ_parts now d.max_backoff),
                    inr refl,
                  )
          ]
