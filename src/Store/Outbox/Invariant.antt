-- ===== src/Store/Outbox/Invariant.antt =====
-- The documents of the outbox: what holds of each through every operation, and which of them an
-- operation leaves alone.
use ruleraven.Common.{
  ◌≡◌, refl, inl, inr, String, ◌==◌, Bool, true, false, not, Option, is_some, Bool-cases, arith,
  trim_space, eq_iff,
}
use mathlib.Core.Path.{subst}
use ruleraven.Common.Int.{pos, Time, +ℤ_parts, ◌≤ℤ◌}
use ruleraven.Domain.{
  NotificationStatus, notification_pending, notification_delivered, notification_failed,
  notification_unset, Notification,
}
use ruleraven.Notify.Dispatcher.{ClaimRequest, CompleteRequest, RescheduleRequest}
use ruleraven.Store.Documents.{OutboxDocument}
use ruleraven.Store.Mapping.{outbox_to_document}
use ruleraven.Store.Outbox.{
  is_delivering, is_due, leased, is_held, finished, released, is_bad_claim,
}

abbrev pub is_delivered : NotificationStatus → Bool
is_delivered notification_delivered = true
is_delivered _ = false

-- Delivered, or failed for good.
abbrev pub is_final : NotificationStatus → Bool
is_final notification_delivered = true
is_final notification_failed = true
is_final _ = false

abbrev pub is_known : NotificationStatus → Bool
is_known notification_unset = false
is_known _ = true

-- The status is one of the four; a lease, with its owner and its end, is there exactly while a delivery is on its way; the time of
-- delivery is there exactly when it has been delivered.
pub record IsWellFormed (d : OutboxDocument) : Type 0 where
  pub known : is_known d.status ≡ true
  pub lease_end : is_some d.lease_until ≡ is_delivering d.status
  pub lease_owner : not (d.lease_owner == "") ≡ is_delivering d.status
  pub delivery : is_some d.delivered_at ≡ is_delivered d.status
  pub attempts : pos 0 ≤ℤ d.attempts

not_blank : (s : String) → trim_space s == "" ≡ false → s == "" ≡ false
unfolding trim_space
not_blank s h = elim (Bool-cases (s == "")) [
  | inl e ↦ absurd (clash (subst (λ t. trim_space t == "" ≡ false) ((eq_iff s "").0 e) h))
  | inr e ↦ e
]
  where
    clash : trim_space "" == "" ≡ false → ⊥
    clash c = cc

pub leased-IsWellFormed :
    (request : ClaimRequest) (d : OutboxDocument)
    → is_bad_claim request ≡ false
    → is_due request.now d ≡ true
    → IsWellFormed d
    → IsWellFormed (leased request d)
unfolding leased is_due
leased-IsWellFormed request d good due w = record {
  known = refl;
  lease_end = refl;
  lease_owner = ground (arith, not_blank request.worker_id, good);
  delivery = ground (arith, w.delivery, due);
  attempts = omega (arith, w.attempts, +ℤ_parts d.attempts (pos 1));
}

pub finished-IsWellFormed :
    (request : CompleteRequest) (d : OutboxDocument)
    → IsWellFormed d
    → IsWellFormed (finished request d)
unfolding finished
finished-IsWellFormed request d w = record {
  known = refl;
  lease_end = refl;
  lease_owner = refl;
  delivery = refl;
  attempts = w.attempts;
}

pub released-IsWellFormed :
    (request : RescheduleRequest) (d : OutboxDocument)
    → is_held request.id request.worker_id d ≡ true
    → IsWellFormed d
    → IsWellFormed (released request d)
unfolding released is_held
released-IsWellFormed request d held w = record {
  known = ground arith;
  lease_end = ground arith;
  lease_owner = ground arith;
  delivery = ground (arith, w.delivery, held);
  attempts = w.attempts;
}

pub new-IsWellFormed :
    (n : Notification) (now : Time) (expires_at : Option Time)
    → n.status ≡ notification_pending
    → pos 0 ≤ℤ n.attempts
    → IsWellFormed (outbox_to_document n now expires_at)
unfolding outbox_to_document
new-IsWellFormed n now expires_at pending attempts = record {
  known = ground (arith, pending);
  lease_end = ground (arith, pending);
  lease_owner = ground (arith, pending);
  delivery = ground (arith, pending);
  attempts = attempts;
}
