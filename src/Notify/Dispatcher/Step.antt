-- ===== src/Notify/Dispatcher/Step.antt =====
-- dispatcher.go: `DispatchOne`, stage by stage. JSON validity, the marshalled reference to an
-- evaluation and the escape of a URL path are the standard library's.
use ruleraven.Common.{
  ◌-◌, String, ◌==◌, Bool, true, false, ◌&&◌, ◌||◌, Option, none, some, if◌then◌else◌,
}
use ruleraven.Common.Int.{ℤ, pos, pos_part, Time, Duration, ◌+ℤ◌, ltb_ℤ}
use ruleraven.Common.Maps.{lookup}
use ruleraven.Notify.Envelope.{NotifyError, Envelope, new_envelope, DeliveryError, Notifier}
use ruleraven.Notify.Dispatcher.{
  FailureClass, failure_retryable, failure_permanent, Delivery, CompleteRequest, RescheduleRequest,
  Claim, claimed, not_found, claim_failed, grow, expiry, Dispatcher,
}

-- An error of a step, over the errors C of the context and E of the store.
pub data StepError (C E : Type 0) : Type 0 where
  context_ended : C → StepError C E
  claim_error complete_error finalize_error : E → StepError C E
  marshal_error : StepError C E

-- A delivery either fails before its event exists or ends with an error or without.
pub data Attempt : Type 0 where
  not_marshalled : Attempt
  attempted : Option DeliveryError → Attempt

abbrev pub plain_error : String → DeliveryError
plain_error kind = record {
  classified =
      some (record { status_code = pos 0; retryable = false; retry_delay = pos 0; kind = kind });
  deadline_exceeded = false;
}

abbrev pub retryable : DeliveryError → Bool
retryable e = elim e.classified [ none ↦ false | some c ↦ c.retryable ] || e.deadline_exceeded

module _ {S C E : Type 0} (context_err : S → Option C) (valid_json : String → Bool)
    (marshal_reference : String → String → Option String) (path_escape : String → String)
    (d : Dispatcher S E) where
  abbrev pub StepResult : Type 0
  StepResult = (Bool × Option (StepError C E)) × S

  unfoldable pub backoff : ℤ → Duration
  backoff attempt = grow (pos_part attempt - 1) d.initial_backoff d.max_backoff

  abbrev pub counted : (Option ℤ) × S → S
  counted (none, s) = s
  counted (some n, s) = elim d.metrics [ none ↦ s | some m ↦ m.set_outbox_pending n s ]

  unfoldable pub update_pending : Time → S → S
  update_pending now s = elim d.metrics [
    | none ↦ s
    | some m ↦ elim d.store.count_pending_deliveries [
      | none ↦ s
      | some count ↦ counted (count now s)
    ]
  ]

  abbrev pub observed : String → String → Time → S → S
  observed destination outcome now s = elim d.metrics [
    | none ↦ s
    | some m ↦ update_pending now (m.observe_delivery_attempt destination outcome s)
  ]

  abbrev pub logged : Delivery → String → S → S
  logged delivery outcome s =
      d.logger
        (record {
          destination = delivery.notification.destination_id;
          delivery_id = delivery.notification.id;
          outcome = outcome;
          attempts = delivery.notification.attempts;
        })
        s

  abbrev pub data_of : Delivery → Option String
  data_of delivery =
      if delivery.notification.payload == ""
      then marshal_reference delivery.notification.evaluation_id
          delivery.notification.destination_id
      else some delivery.notification.payload

  abbrev pub sent : Notifier S → Option Envelope → S → Attempt × S
  sent n none s = (attempted (some (plain_error "invalid_delivery")), s)
  sent n (some event) s = (attempted (n.deliver event s).0, (n.deliver event s).1)

  abbrev pub with_data : Notifier S → Delivery → Time → Option String → S → Attempt × S
  with_data n delivery now none s = (not_marshalled, s)
  with_data n delivery now (some payload) s =
      sent n
        (new_envelope valid_json path_escape delivery.notification.id
          delivery.notification.event_type d.cluster_id now payload)
        s

  unfoldable pub deliver : Delivery → Time → S → Attempt × S
  deliver delivery now s = elim (lookup delivery.notification.destination_id d.notifiers) [
    | none ↦ (attempted (some (plain_error "unknown_destination")), s)
    | some n ↦ with_data n delivery now (data_of delivery) s
  ]

  unfoldable pub complete_request : Delivery → Time → CompleteRequest
  complete_request delivery completed_at = record {
    id = delivery.notification.id;
    worker_id = d.worker_id;
    completed_at = completed_at;
    expires_at = expiry completed_at d.delivered_expiry;
  }

  abbrev pub completed : Delivery → Time → Option E × S → StepResult
  completed delivery at (some e, s) = ((true, some (complete_error e)), s)
  completed delivery at (none, s) = (
    (true, none),
    logged delivery "success" (observed delivery.notification.destination_id "success" at s),
  )

  unfoldable pub complete : Delivery → Time × S → StepResult
  complete delivery (at, s) =
      completed delivery at (d.store.complete_delivery (complete_request delivery at) s)

  -- The delay that a classified error asks for, where it is longer.
  abbrev pub capped : Duration → Option NotifyError → Duration
  capped delay none = delay
  capped delay (some e) =
      if ltb_ℤ delay e.retry_delay
      then if ltb_ℤ d.max_backoff e.retry_delay then d.max_backoff else e.retry_delay
      else delay

  -- Whether a failed delivery is tried again, and after what delay.
  abbrev pub retries : Delivery → DeliveryError → Bool
  retries delivery e = retryable e && ltb_ℤ delivery.notification.attempts d.max_attempts

  unfoldable pub reschedule_request : Delivery → DeliveryError → Time → RescheduleRequest
  reschedule_request delivery e now =
      let again = retries delivery e in
      record {
        id = delivery.notification.id;
        worker_id = d.worker_id;
        now = now;
        next_attempt_at =
            now
            +ℤ (if again
                then capped (backoff delivery.notification.attempts) e.classified
                else pos 0);
        failure = if again then failure_retryable else failure_permanent;
        expires_at = if again then none else expiry now d.failed_expiry;
      }

  abbrev pub outcome_of : FailureClass → String
  outcome_of failure_retryable = "retryable"
  outcome_of failure_permanent = "permanent"

  abbrev pub rescheduled : Delivery → RescheduleRequest → Option E × S → StepResult
  rescheduled delivery r (some e, s) = ((true, some (finalize_error e)), s)
  rescheduled delivery r (none, s) = (
    (true, none),
    logged delivery (outcome_of r.failure)
        (observed delivery.notification.destination_id (outcome_of r.failure) r.now s),
  )

  unfoldable pub reschedule : Delivery → DeliveryError → Time × S → StepResult
  reschedule delivery e (now, s) =
      rescheduled delivery (reschedule_request delivery e now)
        (d.store.reschedule_delivery (reschedule_request delivery e now) s)

  abbrev pub finish : Delivery → Attempt × S → StepResult
  finish delivery (not_marshalled, s) = ((true, some marshal_error), s)
  finish delivery (attempted none, s) = complete delivery (d.now s)
  finish delivery (attempted (some e), s) = elim (context_err s) [
    | some c ↦ ((true, some (context_ended c)), s)
    | none ↦ reschedule delivery e (d.now s)
  ]

  abbrev pub on_claim : Time → Claim E × S → StepResult
  on_claim now (not_found, s) = ((false, none), update_pending now s)
  on_claim now (claim_failed e, s) = ((false, some (claim_error e)), s)
  on_claim now (claimed delivery, s) = finish delivery (deliver delivery now s)

  abbrev pub claim : Time × S → StepResult
  claim (now, s) = on_claim now (
      d.store.claim_delivery
        (record { worker_id = d.worker_id; now = now; lease_duration = d.lease_duration }) s)

  unfoldable pub dispatch_one : S → StepResult
  dispatch_one s = elim (context_err s) [
    | some c ↦ ((false, some (context_ended c)), s)
    | none ↦ claim (d.now s)
  ]
