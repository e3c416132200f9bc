-- ===== src/Store/Outbox/Answered.antt =====
-- outbox.go: the claim, the completion and the rescheduling give the answers that their meaning
-- allows.
use ruleraven.Common.{
  ◌≡◌, refl, sym, ap, ◌⊎◌, inl, inr, String, true, false, Option, none, some, List, All, All-map,
  Bool-cases, Option-cases, arith, eq_iff,
}
use mathlib.Core.Path.{subst}
use ruleraven.Common.Int.{Time, ◌≤ℤ◌, ◌<ℤ◌, leb_ℤ, eq_of_parts}
use ruleraven.Notify.Dispatcher.{
  FailureClass, failure_retryable, failure_permanent, ClaimRequest, CompleteRequest,
  RescheduleRequest, Claim, claimed, not_found, claim_failed,
}
use ruleraven.Store.Documents.{OutboxDocument}
use ruleraven.Store.Mapping.{delivery_from_document}
use ruleraven.Store.Collection.{
  StoreError, bad_request, missing, conflict, early_attempt, driver, Collection, IsCollection,
  NoMatch, FirstUpdated,
}
use ruleraven.Store.Outbox.{
  is_pending, is_due, due_before, leased, is_held, finished, released, is_bad_claim, claim_delivery,
  is_bad_completion, complete_delivery, is_bad_reschedule, is_early, reschedule_delivery,
}
use ruleraven.Store.Outbox.Claims.{
  IsClaim, IsSettled, claim_delivery-IsClaim, complete_delivery-IsSettled,
  reschedule_delivery-IsSettled,
}
use ruleraven.Store.Replaced.{replaced, perhaps_replaced}
use ruleraven.Store.Outbox.Answers.{
  IsDue, IsNotBefore, IsLeased, IsProperClaim, IsImproperClaim, IsHandedOut, IsClaimed, IsHeldBy,
  IsDelivered, IsCompleted, IsReleased, IsRescheduled,
}

is_due-IsDue : (now : Time) (d : OutboxDocument) → is_due now d ≡ true → IsDue now d
unfolding is_due
is_due-IsDue now d h = elim (Option-cases d.lease_until) [
  | inl e ↦ inl (ground (arith, h, e), ground (arith, h, e))
  | inr (u, e) ↦ elim (Bool-cases (is_pending d.status)) [
    | inl p ↦ elim (Bool-cases (leb_ℤ d.next_attempt_at now)) [
      | inl t ↦ inl (ground (arith, p), ground (arith, t))
      | inr t ↦ inr (ground (arith, h, e, p, t), u, e, ground (arith, h, e, p, t))
    ]
    | inr p ↦ inr (ground (arith, h, e, p), u, e, ground (arith, h, e, p))
  ]
]

IsDue-is_due : (now : Time) (d : OutboxDocument) → IsDue now d → is_due now d ≡ true
unfolding is_due
IsDue-is_due now d (inl h) = ground (arith, h.0, h.1)
IsDue-is_due now d (inr (s, u, e, h)) = ground (arith, s, e, h)

is_held-IsHeldBy :
    (id worker_id : String) (d : OutboxDocument)
    → is_held id worker_id d ≡ true
    → IsHeldBy id worker_id d
unfolding is_held
is_held-IsHeldBy id worker_id d h =
    ground (arith, h, eq_iff d.id id, eq_iff d.lease_owner worker_id)

IsHeldBy-is_held :
    (id worker_id : String) (d : OutboxDocument)
    → IsHeldBy id worker_id d
    → is_held id worker_id d ≡ true
unfolding is_held
IsHeldBy-is_held id worker_id d h =
    ground (arith, h, eq_iff d.id id, eq_iff d.lease_owner worker_id)

leased-IsLeased :
    (request : ClaimRequest) (d : OutboxDocument) → IsLeased request d (leased request d)
unfolding leased
leased-IsLeased request d = refl

finished-IsDelivered :
    (request : CompleteRequest) (d : OutboxDocument) → IsDelivered request d (finished request d)
unfolding finished
finished-IsDelivered request d = refl

released-IsReleased :
    (f : FailureClass) (request : RescheduleRequest) (d : OutboxDocument)
    → request.failure ≡ f
    → IsReleased f request d (released request d)
unfolding released
released-IsReleased failure_retryable request d e = rw e refl
released-IsReleased failure_permanent request d e = rw e refl

before-IsNotBefore : (d other : OutboxDocument) → due_before d other ≡ false → IsNotBefore d other
before-IsNotBefore d other h =
    ground (arith, h, eq_of_parts other.next_attempt_at d.next_attempt_at)

not_due : (now : Time) (d : OutboxDocument) → is_due now d ≡ false → ¬ (IsDue now d)
not_due now d h due = grind (arith, h, IsDue-is_due now d due)

not_held :
    (id worker_id : String) (d : OutboxDocument)
    → is_held id worker_id d ≡ false
    → ¬ (IsHeldBy id worker_id d)
not_held id worker_id d h held = grind (arith, h, IsHeldBy-is_held id worker_id d held)

none_held :
    (id worker_id : String) (old : List OutboxDocument)
    → NoMatch (is_held id worker_id) old
    → All (λ d. ¬ (IsHeldBy id worker_id d)) old
none_held id worker_id old =
    All-map (λ d. is_held id worker_id d ≡ false) (λ d. ¬ (IsHeldBy id worker_id d)) old
      (not_held id worker_id)

is_first :
    (now : Time) (target d : OutboxDocument)
    → (is_due now d ≡ true → due_before d target ≡ false)
    → (¬ (IsDue now d)) ⊎ IsNotBefore d target
is_first now target d h = elim (Bool-cases (is_due now d)) [
  | inl e ↦ inr (before-IsNotBefore d target (h e))
  | inr e ↦ inl (not_due now d e)
]

proper_claim : (request : ClaimRequest) → is_bad_claim request ≡ false → IsProperClaim request
proper_claim request h = (ground (arith, h), ground (arith, h), ground (arith, h))

improper_claim : (request : ClaimRequest) → is_bad_claim request ≡ true → IsImproperClaim request
improper_claim request h = ground (arith, h)

handed_out :
    (request : ClaimRequest) (old : List OutboxDocument) (d : OutboxDocument)
    (new : List OutboxDocument)
    → is_bad_claim request ≡ false
    → FirstUpdated (is_due request.now) (leased request) due_before old d new
    → IsHandedOut request old (delivery_from_document d) new
unfolding replaced
handed_out request old d new g u = record {
  proper = proper_claim request g;
  one =
      replaced (is_due request.now) (leased request) (IsDue request.now) (IsLeased request)
        (is_due-IsDue request.now) (leased-IsLeased request) u.one;
  handed = ap delivery_from_document u.after;
  first =
      All-map (λ x. is_due request.now x ≡ true → due_before x u.one.target ≡ false)
        (λ x. (¬ (IsDue request.now x)) ⊎ IsNotBefore x u.one.target) old
        (is_first request.now u.one.target) u.first;
}

claim_answer :
    {E : Type 0} (request : ClaimRequest) (old : List OutboxDocument) (c : Claim (StoreError E))
    (new : List OutboxDocument)
    → IsClaim request old c new
    → IsClaimed request old c new
claim_answer request old (claimed delivery) new (g, d, u, e) =
    subst (λ x. IsHandedOut request old x new) (sym e) (handed_out request old d new g u)
claim_answer request old not_found new (h, e) = (
  All-map (λ d. is_due request.now d ≡ false) (λ d. ¬ (IsDue request.now d)) old
      (not_due request.now) h,
  e,
)
claim_answer request old (claim_failed bad_request) new (h, e) = (improper_claim request h, e)
claim_answer request old (claim_failed (driver e)) new h =
    perhaps_replaced (is_due request.now) (leased request) (IsDue request.now) (IsLeased request)
      (is_due-IsDue request.now) (leased-IsLeased request) h
claim_answer request old (claim_failed missing) new h = h
claim_answer request old (claim_failed conflict) new h = h
claim_answer request old (claim_failed early_attempt) new h = h

completion_answer :
    {E : Type 0} (request : CompleteRequest) (old : List OutboxDocument) (c : Option (StoreError E))
    (new : List OutboxDocument)
    → IsSettled
        (is_bad_completion request)
        false
        (is_held request.id request.worker_id)
        (finished request)
        old
        c
        new
    → IsCompleted request old c new
completion_answer request old none new (g, t, u) =
    replaced (is_held request.id request.worker_id) (finished request)
      (IsHeldBy request.id request.worker_id) (IsDelivered request)
      (is_held-IsHeldBy request.id request.worker_id) (finished-IsDelivered request) u
completion_answer request old (some bad_request) new (h, e) = (ground (arith, h), e)
completion_answer request old (some conflict) new (h, e) =
    (none_held request.id request.worker_id old h, e)
completion_answer request old (some (driver e)) new h =
    perhaps_replaced (is_held request.id request.worker_id) (finished request)
      (IsHeldBy request.id request.worker_id) (IsDelivered request)
      (is_held-IsHeldBy request.id request.worker_id) (finished-IsDelivered request) h
completion_answer request old (some missing) new h = h
completion_answer request old (some early_attempt) new (h, e) = grind (arith, h)

on_time :
    (request : RescheduleRequest)
    → is_early request ≡ false
    → (request.failure ≡ failure_permanent) ⊎ (request.now ≤ℤ request.next_attempt_at)
on_time request h = ground (arith, h)

early :
    (request : RescheduleRequest)
    → is_early request ≡ true
    → (request.failure ≡ failure_retryable) × (request.next_attempt_at <ℤ request.now)
early request h = (ground (arith, h), ground (arith, h))

rescheduling_answer :
    {E : Type 0} (request : RescheduleRequest) (old : List OutboxDocument)
    (c : Option (StoreError E)) (new : List OutboxDocument)
    → IsSettled
        (is_bad_reschedule request)
        (is_early request)
        (is_held request.id request.worker_id)
        (released request)
        old
        c
        new
    → IsRescheduled request old c new
rescheduling_answer request old none new (g, t, u) = (
  on_time request t,
  replaced (is_held request.id request.worker_id) (released request)
      (IsHeldBy request.id request.worker_id) (IsReleased request.failure request)
      (is_held-IsHeldBy request.id request.worker_id)
      (λ d. released-IsReleased request.failure request d refl) u,
)
rescheduling_answer request old (some bad_request) new (h, e) = (ground (arith, h), e)
rescheduling_answer request old (some conflict) new (h, e) =
    (none_held request.id request.worker_id old h, e)
rescheduling_answer request old (some (driver e)) new h =
    perhaps_replaced (is_held request.id request.worker_id) (released request)
      (IsHeldBy request.id request.worker_id) (IsReleased request.failure request)
      (is_held-IsHeldBy request.id request.worker_id)
      (λ d. released-IsReleased request.failure request d refl) h
rescheduling_answer request old (some missing) new h = h
rescheduling_answer request old (some early_attempt) new (h, e) =
    ((early request h).0, (early request h).1, e)

module _ {S E : Type 0} (outbox : Collection S OutboxDocument E) (docs : S → List OutboxDocument)
    (laws : IsCollection outbox docs) where
  -- A claim hands out a delivery that is due, waiting with its next attempt come or under a lease that
  -- has ended, and that no due delivery precedes by its next attempt or, at the same time, by its ID.
  -- Its document is then on its way under the worker's lease, which ends a lease duration from now,
  -- with one attempt more, and no other document is touched. Nothing is found only where no delivery
  -- is due, a request without a worker, a time or a positive duration is refused, and both change
  -- nothing. After an error of the driver at most one due delivery is leased.
  pub claim_delivery-IsClaimed :
      (request : ClaimRequest) (s : S)
      → IsClaimed request
          (docs s)
          (claim_delivery outbox request s).0
          (docs (claim_delivery outbox request s).1)
  claim_delivery-IsClaimed request s =
      claim_answer request (docs s) _ _ (claim_delivery-IsClaim outbox docs laws request s)

  -- A completion succeeds only by marking one document as delivered, without a lease, and this one has
  -- the request's ID and is on its way under the lease of the request's worker. A worker gets a
  -- conflict only where no document with the ID is under its lease, a request without an ID, a worker
  -- or a time is refused, and both change nothing. After an error of the driver at most one such
  -- document is marked.
  pub complete_delivery-IsCompleted :
      (request : CompleteRequest) (s : S)
      → IsCompleted request
          (docs s)
          (complete_delivery outbox request s).0
          (docs (complete_delivery outbox request s).1)
  complete_delivery-IsCompleted request s =
      completion_answer request (docs s) _ _
        (complete_delivery-IsSettled outbox docs laws request s)

  -- A rescheduling succeeds only by releasing one document with the request's ID that is on its way
  -- under the lease of the request's worker: after a retryable failure it waits again for the next
  -- attempt, which is not before now, and after a permanent one it has failed for good. A worker gets
  -- a conflict only where no document with the ID is under its lease, a request without an ID, a
  -- worker or a time, or for a retry in the past, is refused, and these change nothing. After an error
  -- of the driver at most one such document is released.
  pub reschedule_delivery-IsRescheduled :
      (request : RescheduleRequest) (s : S)
      → IsRescheduled request
          (docs s)
          (reschedule_delivery outbox request s).0
          (docs (reschedule_delivery outbox request s).1)
  reschedule_delivery-IsRescheduled request s =
      rescheduling_answer request (docs s) _ _
        (reschedule_delivery-IsSettled outbox docs laws request s)
