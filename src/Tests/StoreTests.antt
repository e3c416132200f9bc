-- ===== src/Tests/StoreTests.antt =====
-- internal/store/mongo on collections in memory.
use ruleraven.Common.{arith, trim_space, refl, String, none, some, List, [], ◌∷◌, All}
use mathlib.Core.List.{Memᴰ}
use ruleraven.Common.Int.{pos, Time}
use ruleraven.Domain.{
  Notification, notification_pending, notification_failed, notification_delivering,
}
use ruleraven.Notify.Dispatcher.{
  failure_retryable, ClaimRequest, CompleteRequest, RescheduleRequest,
}
use ruleraven.Store.Documents.{OutboxDocument}
use ruleraven.Store.Mapping.{outbox_to_document}
use ruleraven.Store.Collection.{Collection, IsCollection}
use ruleraven.Store.Outbox.{claim_delivery, complete_delivery, reschedule_delivery}
use ruleraven.Store.Outbox.Invariant.{IsWellFormed, new-IsWellFormed}
use ruleraven.Store.Outbox.Reach.{
  Call, claim, complete, IsForeign, Reach, here, next, Reach-IsWellFormed, Reach-final, Reach-lease,
}
use ruleraven.Store.Outbox.Claims.{IsAnswered, claim_delivery-live}
use ruleraven.Store.Outbox.Answers.{IsClaimed, IsCompleted, IsRescheduled}
use ruleraven.Store.Outbox.Answered.{
  claim_delivery-IsClaimed, complete_delivery-IsCompleted, reschedule_delivery-IsRescheduled,
}
use ruleraven.Tests.Memory.{memory, memory-IsCollection}

abbrev Outbox : Type 0
Outbox = List OutboxDocument

abbrev outbox : Collection Outbox OutboxDocument String
outbox = memory (λ s. s) (λ ds s. ds)

abbrev laws : IsCollection outbox (λ s. s)
laws = memory-IsCollection (λ s. s) (λ ds s. ds) (λ ds s. refl)

abbrev pub page : Notification
page = record {
  id = "page";
  evaluation_id = "e1";
  destination_id = "ops";
  event_type = "opened";
  status = notification_pending;
  attempts = pos 0;
  next_attempt_at = pos 10;
  payload = "{}";
}

abbrev waiting : OutboxDocument
waiting = outbox_to_document page (pos 10) none

abbrev gone : OutboxDocument
gone = record waiting { id = "gone"; status = notification_failed }

abbrev taken : OutboxDocument
taken = record waiting {
  id = "taken";
  status = notification_delivering;
  lease_owner = "w1";
  lease_until = some (pos 50);
}

abbrev claims_at : String → Time → ClaimRequest
claims_at worker now = record { worker_id = worker; now = now; lease_duration = pos 30 }

abbrev completes : CompleteRequest
completes = record { id = "taken"; worker_id = "w2"; completed_at = pos 20; expires_at = none }

abbrev reschedules : RescheduleRequest
reschedules = record {
  id = "taken";
  worker_id = "w1";
  now = pos 20;
  next_attempt_at = pos 40;
  failure = failure_retryable;
  expires_at = none;
}

abbrev start : Outbox
start = gone ∷ taken ∷ waiting ∷ []

abbrev claimed_at : String → Time → Outbox → Outbox
claimed_at worker now s = (claim_delivery outbox (claims_at worker now) s).1

abbrev completed : Outbox → Outbox
completed s = (complete_delivery outbox completes s).1

-- A claim, and a completion by the other worker.
abbrev run :
    (IsKind : Call → Type 0)
    → IsKind (claim (claims_at "w2" (pos 20)))
    → IsKind (complete completes)
    → Reach outbox (λ s. s) IsKind start (completed (claimed_at "w2" (pos 20) start))
run IsKind a b =
    next (next here (claim (claims_at "w2" (pos 20))) a refl) (complete completes) b refl

waiting-IsWellFormed : IsWellFormed waiting
waiting-IsWellFormed = new-IsWellFormed page (pos 10) none refl (omega arith)

start-IsWellFormed : All IsWellFormed start
unfolding outbox_to_document
start-IsWellFormed = (
  record {
    known = refl;
    lease_end = refl;
    lease_owner = refl;
    delivery = refl;
    attempts = omega arith;
  },
  (
    record {
      known = refl;
      lease_end = refl;
      lease_owner = refl;
      delivery = refl;
      attempts = omega arith;
    },
    (waiting-IsWellFormed, tt),
  ),
)

Reach-IsWellFormed_example : All IsWellFormed (completed (claimed_at "w2" (pos 20) start))
Reach-IsWellFormed_example =
    Reach-IsWellFormed outbox (λ s. s) laws (λ c. Unit) start
      (completed (claimed_at "w2" (pos 20) start)) (run (λ c. Unit) tt tt) start-IsWellFormed

Reach-final_example : Memᴰ gone (completed (claimed_at "w2" (pos 20) start))
Reach-final_example =
    Reach-final outbox (λ s. s) laws (λ c. Unit) gone start
      (completed (claimed_at "w2" (pos 20) start)) (run (λ c. Unit) tt tt) refl (Memᴰ.head refl)

Reach-lease_example : Memᴰ taken (completed (claimed_at "w2" (pos 20) start))
Reach-lease_example =
    Reach-lease outbox (λ s. s) laws taken (pos 50) start
      (completed (claimed_at "w2" (pos 20) start)) (run (IsForeign "w1" (pos 50)) refl refl) refl
      refl (Memᴰ.tail (Memᴰ.head refl))

claim_delivery-IsClaimed_example :
    IsClaimed
      (claims_at "w2" (pos 20))
      start
      (claim_delivery outbox (claims_at "w2" (pos 20)) start).0
      (claim_delivery outbox (claims_at "w2" (pos 20)) start).1
claim_delivery-IsClaimed_example =
    claim_delivery-IsClaimed outbox (λ s. s) laws (claims_at "w2" (pos 20)) start

complete_delivery-IsCompleted_example :
    IsCompleted completes start
      (complete_delivery outbox completes start).0
      (complete_delivery outbox completes start).1
complete_delivery-IsCompleted_example =
    complete_delivery-IsCompleted outbox (λ s. s) laws completes start

reschedule_delivery-IsRescheduled_example :
    IsRescheduled reschedules start
      (reschedule_delivery outbox reschedules start).0
      (reschedule_delivery outbox reschedules start).1
reschedule_delivery-IsRescheduled_example =
    reschedule_delivery-IsRescheduled outbox (λ s. s) laws reschedules start

-- The lease of the first worker has ended by now.
claim_delivery-live_example :
    IsAnswered
      (claim_delivery outbox
        (claims_at "w3" (pos 60))
        (completed (claimed_at "w2" (pos 20) start))).0
unfolding trim_space
claim_delivery-live_example =
    claim_delivery-live outbox (λ s. s) laws (λ c. Unit) start
      (completed (claimed_at "w2" (pos 20) start)) taken (claims_at "w3" (pos 60))
      start-IsWellFormed (run (λ c. Unit) tt tt) Reach-lease_example refl refl refl
