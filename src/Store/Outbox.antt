-- ===== src/Store/Outbox.antt =====
-- outbox.go: the claim, completion and rescheduling of deliveries, by one call each on the collection
-- of the outbox.
pub mod Effects
pub mod Invariant
pub mod Reach
pub mod Claims
pub mod Answers
pub mod Answered
use ruleraven.Common.{
  arith, String, ◌==◌, Bool, true, false, not, ◌&&◌, ◌||◌, Option, none, some, if◌then◌else◌,
  ltb_text, trim_space,
}
use ruleraven.Common.Int.{ℤ, pos, Time, eq_of_parts, ◌+ℤ◌, leb_ℤ, ltb_ℤ, is_zero}
use ruleraven.Common.Sort.{IsOrder, text_order}
use ruleraven.Domain.{
  NotificationStatus, notification_pending, notification_delivering, notification_delivered,
  notification_failed,
}
use ruleraven.Notify.Dispatcher.{
  FailureClass, failure_retryable, failure_permanent, ClaimRequest, CompleteRequest,
  RescheduleRequest, Claim, claimed, not_found, claim_failed, OutboxStore,
}
use ruleraven.Store.Documents.{OutboxDocument}
use ruleraven.Store.Mapping.{delivery_from_document}
use ruleraven.Store.Collection.{
  StoreError, bad_request, conflict, early_attempt, driver, Collection, Read, read, no_documents,
  read_failed, Written, matched, unmatched, write_failed,
}

abbrev pub is_pending : NotificationStatus → Bool
is_pending notification_pending = true
is_pending _ = false

abbrev pub is_delivering : NotificationStatus → Bool
is_delivering notification_delivering = true
is_delivering _ = false

-- `{"$lte": now}`, which matches no document without the field
abbrev pub at_most : Option Time → Time → Bool
at_most none now = false
at_most (some t) now = leb_ℤ t now

unfoldable pub is_due : Time → OutboxDocument → Bool
is_due now d =
    (is_pending d.status && leb_ℤ d.next_attempt_at now)
    || (is_delivering d.status && at_most d.lease_until now)

abbrev pub due_before : OutboxDocument → OutboxDocument → Bool
due_before a b =
    if ltb_ℤ a.next_attempt_at b.next_attempt_at
    then true
    else if ltb_ℤ b.next_attempt_at a.next_attempt_at
    then false
    else ltb_text a.id b.id

pub due_before_order : IsOrder due_before
due_before_order = record {
  asymm = λ x y h.
      ground
        (arith, h, text_order.asymm x.id y.id, eq_of_parts x.next_attempt_at y.next_attempt_at);
  false_trans = λ x y z h k. ground (arith, h, k, text_order.false_trans x.id y.id z.id);
}

unfoldable pub leased : ClaimRequest → OutboxDocument → OutboxDocument
leased request d = record d {
  status = notification_delivering;
  lease_owner = request.worker_id;
  lease_until = some (request.now +ℤ request.lease_duration);
  updated_at = request.now;
  attempts = d.attempts +ℤ pos 1;
}

unfoldable pub is_held : String → String → OutboxDocument → Bool
is_held id worker_id d = d.id == id && is_delivering d.status && d.lease_owner == worker_id

unfoldable pub finished : CompleteRequest → OutboxDocument → OutboxDocument
finished request d = record d {
  status = notification_delivered;
  delivered_at = some request.completed_at;
  updated_at = request.completed_at;
  expires_at = request.expires_at;
  lease_owner = "";
  lease_until = none;
}

abbrev pub status_after : FailureClass → NotificationStatus
status_after failure_retryable = notification_pending
status_after failure_permanent = notification_failed

unfoldable pub released : RescheduleRequest → OutboxDocument → OutboxDocument
released request d = record d {
  status = status_after request.failure;
  last_failure = some request.failure;
  updated_at = request.now;
  expires_at = request.expires_at;
  next_attempt_at =
      if is_pending (status_after request.failure)
      then request.next_attempt_at
      else d.next_attempt_at;
  lease_owner = "";
  lease_until = none;
}

abbrev pub is_early : RescheduleRequest → Bool
is_early request =
    is_pending (status_after request.failure) && ltb_ℤ request.next_attempt_at request.now

abbrev pub is_bad_claim : ClaimRequest → Bool
is_bad_claim request =
    trim_space request.worker_id == ""
    || is_zero request.now
    || leb_ℤ request.lease_duration (pos 0)

abbrev pub is_bad_completion : CompleteRequest → Bool
is_bad_completion request =
    trim_space request.id == ""
    || trim_space request.worker_id == ""
    || is_zero request.completed_at

abbrev pub is_bad_reschedule : RescheduleRequest → Bool
is_bad_reschedule request =
    trim_space request.id == "" || trim_space request.worker_id == "" || is_zero request.now

module _ {S E : Type 0} (outbox : Collection S OutboxDocument E) where
  abbrev pub claim_of : Read OutboxDocument E × S → Claim (StoreError E) × S
  claim_of (read d, s) = (claimed (delivery_from_document d), s)
  claim_of (no_documents, s) = (not_found, s)
  claim_of (read_failed e, s) = (claim_failed (driver e), s)

  unfoldable pub claim_delivery : ClaimRequest → S → Claim (StoreError E) × S
  claim_delivery request s =
      if is_bad_claim request
      then (claim_failed bad_request, s)
      else claim_of (outbox.find_one_and_update (is_due request.now) (leased request) due_before s)

  -- No match is a conflict.
  abbrev pub written_of : Written E × S → Option (StoreError E) × S
  written_of (matched, s) = (none, s)
  written_of (unmatched, s) = (some conflict, s)
  written_of (write_failed e, s) = (some (driver e), s)

  unfoldable pub complete_delivery : CompleteRequest → S → Option (StoreError E) × S
  complete_delivery request s =
      if is_bad_completion request
      then (some bad_request, s)
      else written_of
          (outbox.update_one (is_held request.id request.worker_id) (finished request) s)

  unfoldable pub reschedule_delivery : RescheduleRequest → S → Option (StoreError E) × S
  reschedule_delivery request s =
      if is_bad_reschedule request
      then (some bad_request, s)
      else if is_early request
      then (some early_attempt, s)
      else written_of
          (outbox.update_one (is_held request.id request.worker_id) (released request) s)

  -- The store as the dispatcher sees it: it counts no pending deliveries.
  abbrev pub outbox_store : OutboxStore S (StoreError E)
  outbox_store = record {
    claim_delivery = claim_delivery;
    complete_delivery = complete_delivery;
    reschedule_delivery = reschedule_delivery;
    count_pending_deliveries = none;
  }
