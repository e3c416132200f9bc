-- ===== src/Notify/Dispatcher/Once.antt =====
-- `DispatchOne` finalizes what it claims. A trace of the store's calls is read from the world; the
-- laws say which calls write to it.
use ruleraven.Common.{
  ◌≡◌, refl, ap, ◌∙◌, String, Bool, true, false, Option, none, some, List, ◌∷◌, Option-cases, inl,
  inr, arith, ◌⊎◌,
}
use ruleraven.Common.Int.{ℤ, Time}
use ruleraven.Common.Maps.{lookup}
use ruleraven.Notify.Envelope.{Envelope, DeliveryError, Notifier}
use ruleraven.Notify.Dispatcher.{
  Delivery, ClaimRequest, CompleteRequest, RescheduleRequest, Claim, claimed, not_found,
  claim_failed, DeliveryLog, DeliveryMetrics, Dispatcher,
}
use ruleraven.Notify.Dispatcher.Step.{
  Attempt, not_marshalled, attempted, counted, update_pending, observed, data_of, sent, with_data,
  deliver, complete_request, completed, complete, reschedule_request, outcome_of, rescheduled,
  reschedule, finish, on_claim, dispatch_one, StepResult,
}

-- A delivery claimed, and one finalized by a worker.
pub data Call : Type 0 where
  claim_of : String → Call
  final_of : String → String → Call

abbrev pub after_claim : {E : Type 0} → Claim E → List Call → List Call
after_claim (claimed delivery) calls = claim_of delivery.notification.id ∷ calls
after_claim not_found calls = calls
after_claim (claim_failed e) calls = calls

-- Which calls of a dispatcher write to the trace.
pub record Traced {S E : Type 0} (d : Dispatcher S E) (trace : S → List Call) : Type 0 where
  pub clock : (s : S) → trace (d.now s).1 ≡ trace s
  pub claims :
      (r : ClaimRequest) (s : S)
      → trace (d.store.claim_delivery r s).1 ≡ after_claim (d.store.claim_delivery r s).0 (trace s)
  pub completes :
      (r : CompleteRequest) (s : S)
      → trace (d.store.complete_delivery r s).1 ≡ final_of r.id r.worker_id ∷ trace s
  pub reschedules :
      (r : RescheduleRequest) (s : S)
      → trace (d.store.reschedule_delivery r s).1 ≡ final_of r.id r.worker_id ∷ trace s
  pub counting :
      (count : Time → S → (Option ℤ) × S)
      → d.store.count_pending_deliveries ≡ some count
      → (now : Time) (s : S) → trace (count now s).1 ≡ trace s
  pub gauge :
      (m : DeliveryMetrics S E)
      → d.metrics ≡ some m
      → (n : ℤ) (s : S) → trace (m.set_outbox_pending n s) ≡ trace s
  pub attempts :
      (m : DeliveryMetrics S E)
      → d.metrics ≡ some m
      → (destination outcome : String) (s : S)
      → trace (m.observe_delivery_attempt destination outcome s) ≡ trace s
  pub logs : (l : DeliveryLog) (s : S) → trace (d.logger l s) ≡ trace s
  pub delivers :
      (name : String) (n : Notifier S)
      → lookup name d.notifiers ≡ some n
      → (event : Envelope) (s : S) → trace (n.deliver event s).1 ≡ trace s

module _ {S C E : Type 0} (context_err : S → Option C) (valid_json : String → Bool)
    (marshal_reference : String → String → Option String) (path_escape : String → String)
    (d : Dispatcher S E) (trace : S → List Call) (laws : Traced d trace) where
  -- A step that claimed a delivery, by what it left in the trace.
  abbrev pub Finalized :
      String
      → List Call
      → StepResult context_err valid_json marshal_reference path_escape d
      → Type 0
  Finalized id calls r =
      (r.0.0 ≡ true) × (r.0.1 ≡ none → trace r.1 ≡ final_of id d.worker_id ∷ calls)

  counted-trace :
      (r : (Option ℤ) × S)
      → trace (counted context_err valid_json marshal_reference path_escape d r) ≡ trace r.1
  counted-trace (none, s) = refl
  counted-trace (some n, s) = elim (Option-cases d.metrics) [
    | inl e ↦ rw (e, counted) refl
    | inr (m, e) ↦ rw (e, counted) (laws.gauge m e n s)
  ]

  update_pending-trace :
      (now : Time) (s : S)
      → trace (update_pending context_err valid_json marshal_reference path_escape d now s)
        ≡ trace s
  unfolding update_pending
  update_pending-trace now s = elim (Option-cases d.metrics) [
    | inl e ↦ rw (e, update_pending) refl
    | inr (m, e) ↦ elim (Option-cases d.store.count_pending_deliveries) [
      | inl e' ↦ rw (e, e', update_pending) refl
      | inr (count, e') ↦
          rw (e, e', update_pending) (counted-trace (count now s) ∙ laws.counting count e' now s)
    ]
  ]

  observed-trace :
      (destination outcome : String) (now : Time) (s : S)
      → trace (
          observed context_err valid_json marshal_reference path_escape d destination outcome now s)
        ≡ trace s
  observed-trace destination outcome now s = elim (Option-cases d.metrics) [
    | inl e ↦ rw (e, observed) refl
    | inr (m, e) ↦
        rw (e, observed)
          (update_pending-trace now (m.observe_delivery_attempt destination outcome s)
            ∙ laws.attempts m e destination outcome s)
  ]

  deliver-trace :
      (delivery : Delivery) (now : Time) (s : S)
      → trace (deliver context_err valid_json marshal_reference path_escape d delivery now s).1
        ≡ trace s
  unfolding deliver
  deliver-trace delivery now s =
      elim (Option-cases (lookup delivery.notification.destination_id d.notifiers)) [
        | inl e ↦ rw (e, deliver) refl
        | inr (n, e) ↦
            rw (e, deliver)
              (by_data n e
                (data_of context_err valid_json marshal_reference path_escape d delivery))
      ]
    where
      by_event :
          (n : Notifier S)
          → lookup delivery.notification.destination_id d.notifiers ≡ some n
          → (event : Option Envelope)
          → trace (sent context_err valid_json marshal_reference path_escape d n event s).1
            ≡ trace s
      by_event n e none = refl
      by_event n e (some event) = laws.delivers delivery.notification.destination_id n e event s

      by_data :
          (n : Notifier S)
          → lookup delivery.notification.destination_id d.notifiers ≡ some n
          → (payload : Option String)
          → trace
              (with_data context_err valid_json marshal_reference path_escape d n delivery now
                payload s).1
            ≡ trace s
      by_data n e none = refl
      by_data n e (some payload) = by_event n e _

  completed-Finalized :
      (delivery : Delivery) (at : Time) (id : String) (calls : List Call) (r : Option E × S)
      → trace r.1 ≡ final_of id d.worker_id ∷ calls
      → Finalized id calls
          (completed context_err valid_json marshal_reference path_escape d delivery at r)
  completed-Finalized delivery at id calls (some e, s) h = (refl, λ x. absurd (grind (arith, x)))
  completed-Finalized delivery at id calls (none, s) h = (
    refl,
    λ x. laws.logs _ _ ∙ observed-trace delivery.notification.destination_id "success" at s ∙ h,
  )

  rescheduled-Finalized :
      (delivery : Delivery) (q : RescheduleRequest) (id : String) (calls : List Call)
      (r : Option E × S)
      → trace r.1 ≡ final_of id d.worker_id ∷ calls
      → Finalized id calls
          (rescheduled context_err valid_json marshal_reference path_escape d delivery q r)
  rescheduled-Finalized delivery q id calls (some e, s) h = (refl, λ x. absurd (grind (arith, x)))
  rescheduled-Finalized delivery q id calls (none, s) h = (
    refl,
    λ x.
        laws.logs _ _
        ∙ observed-trace delivery.notification.destination_id
            (outcome_of context_err valid_json marshal_reference path_escape d q.failure) q.now s
        ∙ h,
  )

  complete-Finalized :
      (delivery : Delivery) (at : Time × S) (calls : List Call)
      → trace at.1 ≡ calls
      → Finalized delivery.notification.id calls
          (complete context_err valid_json marshal_reference path_escape d delivery at)
  unfolding complete complete_request
  complete-Finalized delivery (at, s) calls h =
      completed-Finalized delivery at delivery.notification.id calls _ (
        laws.completes
          (complete_request context_err valid_json marshal_reference path_escape d delivery at) s
        ∙ ap (λ c. final_of delivery.notification.id d.worker_id ∷ c) h)

  reschedule-Finalized :
      (delivery : Delivery) (e : DeliveryError) (at : Time × S) (calls : List Call)
      → trace at.1 ≡ calls
      → Finalized delivery.notification.id calls
          (reschedule context_err valid_json marshal_reference path_escape d delivery e at)
  unfolding reschedule reschedule_request
  reschedule-Finalized delivery e (at, s) calls h =
      rescheduled-Finalized delivery
        (reschedule_request context_err valid_json marshal_reference path_escape d delivery e at)
        delivery.notification.id calls _
        (laws.reschedules
            (reschedule_request context_err valid_json marshal_reference path_escape d delivery e
              at)
            s
          ∙ ap (λ c. final_of delivery.notification.id d.worker_id ∷ c) h)

  finish-Finalized :
      (delivery : Delivery) (a : Attempt × S) (calls : List Call)
      → trace a.1 ≡ calls
      → Finalized delivery.notification.id calls
          (finish context_err valid_json marshal_reference path_escape d delivery a)
  finish-Finalized delivery (not_marshalled, s) calls h = (refl, λ x. absurd (grind (arith, x)))
  finish-Finalized delivery (attempted none, s) calls h =
      complete-Finalized delivery (d.now s) calls (laws.clock s ∙ h)
  finish-Finalized delivery (attempted (some e), s) calls h = elim (Option-cases (context_err s)) [
    | inl alive ↦
        rw (alive, finish) (reschedule-Finalized delivery e (d.now s) calls (laws.clock s ∙ h))
    | inr (c, ended) ↦ rw (ended, finish) (refl, λ x. absurd (grind (arith, x)))
  ]

  -- What a step did: nothing was due, or a delivery was claimed and, unless an error is returned,
  -- finalized.
  abbrev pub Settled :
      List Call → StepResult context_err valid_json marshal_reference path_escape d → Type 0
  Settled calls r =
      ((r.0.0 ≡ false) × (trace r.1 ≡ calls))
      ⊎ ((id : String) × Finalized id (claim_of id ∷ calls) r)

  on_claim-Settled :
      (now : Time) (calls : List Call) (r : Claim E × S)
      → trace r.1 ≡ after_claim r.0 calls
      → Settled calls (on_claim context_err valid_json marshal_reference path_escape d now r)
  on_claim-Settled now calls (not_found, s) h = inl (refl, update_pending-trace now s ∙ h)
  on_claim-Settled now calls (claim_failed e, s) h = inl (refl, h)
  on_claim-Settled now calls (claimed delivery, s) h = inr (
    delivery.notification.id,
    finish-Finalized delivery _ (claim_of delivery.notification.id ∷ calls)
        (deliver-trace delivery now s ∙ h),
  )

  -- A step of the dispatcher that returns false has claimed and finalized nothing. A step that
  -- returns true has claimed a delivery, and where it returns no error, it has finalized that
  -- delivery under the worker's own id, once, after the claim, and nothing else. The trace of the
  -- claims and finalizations is written by the store's calls alone.
  pub dispatch_one-Settled :
      (s : S)
      → Settled (trace s) (dispatch_one context_err valid_json marshal_reference path_escape d s)
  unfolding dispatch_one
  dispatch_one-Settled s = elim (Option-cases (context_err s)) [
    | inr (c, ended) ↦ rw (ended, dispatch_one) (inl (refl, refl))
    | inl alive ↦
        rw (alive, dispatch_one)
          (on_claim-Settled (d.now s).0 (trace s) _
            (laws.claims _ (d.now s).1 ∙ ap (after_claim _) (laws.clock s)))
  ]
