-- ===== src/Store/Outbox/Answers.antt =====
-- What the answers of the outbox mean, written out field by field: which delivery a claim hands out
-- and what it becomes, and what a completion or a rescheduling does to whose delivery.
use ruleraven.Common.{
  ◌≡◌, ◌⊎◌, ◌==◌, String, true, false, Option, none, some, List, All, trim_space, ltb_text,
}
use ruleraven.Common.Int.{pos, Time, ◌+ℤ◌, ◌≤ℤ◌, ◌<ℤ◌, is_zero}
use ruleraven.Domain.{
  notification_pending, notification_delivering, notification_delivered, notification_failed,
}
use ruleraven.Notify.Dispatcher.{
  FailureClass, failure_retryable, failure_permanent, ClaimRequest, CompleteRequest,
  RescheduleRequest, Claim, claimed, not_found, claim_failed, Delivery,
}
use ruleraven.Store.Documents.{OutboxDocument}
use ruleraven.Store.Replaced.{OneReplaced}
use ruleraven.Store.Mapping.{delivery_from_document}
use ruleraven.Store.Collection.{StoreError, bad_request, missing, conflict, early_attempt, driver}
use ruleraven.Store.Outbox.{leased}

-- Waiting, and its next attempt has come; or on its way under a lease that has ended.
abbrev pub IsDue : Time → OutboxDocument → Type 0
IsDue now d =
    ((d.status ≡ notification_pending) × (d.next_attempt_at ≤ℤ now))
    ⊎ ((d.status ≡ notification_delivering)
        × (until : Time) × (d.lease_until ≡ some until)
        × (until ≤ℤ now))

-- Its next attempt is not before the other's, and where they agree, neither is its ID.
abbrev pub IsNotBefore : OutboxDocument → OutboxDocument → Type 0
IsNotBefore d other =
    (other.next_attempt_at <ℤ d.next_attempt_at)
    ⊎ ((other.next_attempt_at ≡ d.next_attempt_at) × (ltb_text d.id other.id ≡ false))

abbrev pub IsLeased : ClaimRequest → OutboxDocument → OutboxDocument → Type 0
IsLeased request d leased = leased ≡ record d {
  status = notification_delivering;
  lease_owner = request.worker_id;
  lease_until = some (request.now +ℤ request.lease_duration);
  updated_at = request.now;
  attempts = d.attempts +ℤ pos 1;
}

abbrev pub IsProperClaim : ClaimRequest → Type 0
IsProperClaim request =
    (trim_space request.worker_id == "" ≡ false)
    × (is_zero request.now ≡ false)
    × (pos 0 <ℤ request.lease_duration)

abbrev pub IsImproperClaim : ClaimRequest → Type 0
IsImproperClaim request =
    (trim_space request.worker_id == "" ≡ true)
    ⊎ ((is_zero request.now ≡ true) ⊎ (request.lease_duration ≤ℤ pos 0))

-- The delivery is the document that was replaced, which was the first that was due.
pub record IsHandedOut (request : ClaimRequest) (old : List OutboxDocument) (delivery : Delivery)
    (new : List OutboxDocument) : Type 0 where
  pub proper : IsProperClaim request
  pub one : OneReplaced (IsDue request.now) (IsLeased request) old new
  pub handed : delivery ≡ delivery_from_document one.result
  pub first : All (λ d. (¬ (IsDue request.now d)) ⊎ IsNotBefore d one.target) old

abbrev pub IsClaimed :
    {E : Type 0}
    → ClaimRequest
    → List OutboxDocument
    → Claim (StoreError E)
    → List OutboxDocument
    → Type 0
IsClaimed request old (claimed delivery) new = IsHandedOut request old delivery new
IsClaimed request old not_found new = All (λ d. ¬ (IsDue request.now d)) old × (new ≡ old)
IsClaimed request old (claim_failed bad_request) new = IsImproperClaim request × (new ≡ old)
IsClaimed request old (claim_failed (driver e)) new =
    (new ≡ old) ⊎ OneReplaced (IsDue request.now) (IsLeased request) old new
IsClaimed request old (claim_failed _) new = ⊥

-- On its way, under the worker's lease.
abbrev pub IsHeldBy : String → String → OutboxDocument → Type 0
IsHeldBy id worker_id d =
    (d.id ≡ id) × (d.status ≡ notification_delivering) × (d.lease_owner ≡ worker_id)

abbrev pub IsDelivered : CompleteRequest → OutboxDocument → OutboxDocument → Type 0
IsDelivered request d done = done ≡ record d {
  status = notification_delivered;
  delivered_at = some request.completed_at;
  updated_at = request.completed_at;
  expires_at = request.expires_at;
  lease_owner = "";
  lease_until = none;
}

abbrev pub IsCompleted :
    {E : Type 0}
    → CompleteRequest
    → List OutboxDocument
    → Option (StoreError E)
    → List OutboxDocument
    → Type 0
IsCompleted request old none new =
    OneReplaced (IsHeldBy request.id request.worker_id) (IsDelivered request) old new
IsCompleted request old (some bad_request) new =
    ((trim_space request.id == "" ≡ true)
      ⊎ ((trim_space request.worker_id == "" ≡ true) ⊎ (is_zero request.completed_at ≡ true)))
    × (new ≡ old)
IsCompleted request old (some conflict) new =
    All (λ d. ¬ (IsHeldBy request.id request.worker_id d)) old × (new ≡ old)
IsCompleted request old (some (driver e)) new =
    (new ≡ old) ⊎ OneReplaced (IsHeldBy request.id request.worker_id) (IsDelivered request) old new
IsCompleted request old (some _) new = ⊥

-- Back to waiting after a failure that may be retried, failed for good after any other.
abbrev pub IsReleased : FailureClass → RescheduleRequest → OutboxDocument → OutboxDocument → Type 0
IsReleased failure_retryable request d free = free ≡ record d {
  status = notification_pending;
  last_failure = some failure_retryable;
  updated_at = request.now;
  expires_at = request.expires_at;
  next_attempt_at = request.next_attempt_at;
  lease_owner = "";
  lease_until = none;
}
IsReleased failure_permanent request d free = free ≡ record d {
  status = notification_failed;
  last_failure = some failure_permanent;
  updated_at = request.now;
  expires_at = request.expires_at;
  lease_owner = "";
  lease_until = none;
}

abbrev pub IsRescheduled :
    {E : Type 0}
    → RescheduleRequest
    → List OutboxDocument
    → Option (StoreError E)
    → List OutboxDocument
    → Type 0
IsRescheduled request old none new =
    ((request.failure ≡ failure_permanent) ⊎ (request.now ≤ℤ request.next_attempt_at))
    × OneReplaced (IsHeldBy request.id request.worker_id) (IsReleased request.failure request) old
        new
IsRescheduled request old (some bad_request) new =
    ((trim_space request.id == "" ≡ true)
      ⊎ ((trim_space request.worker_id == "" ≡ true) ⊎ (is_zero request.now ≡ true)))
    × (new ≡ old)
IsRescheduled request old (some early_attempt) new =
    (request.failure ≡ failure_retryable) × (request.next_attempt_at <ℤ request.now) × (new ≡ old)
IsRescheduled request old (some conflict) new =
    All (λ d. ¬ (IsHeldBy request.id request.worker_id d)) old × (new ≡ old)
IsRescheduled request old (some (driver e)) new =
    (new ≡ old)
    ⊎ OneReplaced (IsHeldBy request.id request.worker_id) (IsReleased request.failure request) old
        new
IsRescheduled request old (some missing) new = ⊥
