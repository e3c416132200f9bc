-- ===== src/Tests/NotifyTests.antt =====
-- internal/notify at a concrete outbox.
use ruleraven.Common.{
  ℕ, if◌then◌else◌, ◌≡◌, refl, sym, ◌∙◌, ◌⊎◌, ◌↔◌, String, ◌==◌, Bool, true, false, Option, none,
  some, List, [], ◌∷◌, arith, Bool-cases, inl, inr, trim_space,
}
use mathlib.Core.Path.{subst}
use mathlib.Core.Option.{some-injective}
use ruleraven.Common.Int.{pos, ◌≤ℤ◌, ◌<ℤ◌, ◌+ℤ◌}
use ruleraven.Common.Maps.{Map, lookup, insert}
use ruleraven.Domain.{notification_delivering}
use ruleraven.Notify.Envelope.{DeliveryError, Notifier, new_envelope}
use ruleraven.Notify.Registry.{register, created, register-created}
use ruleraven.Notify.Dispatcher.{
  failure_retryable, failure_permanent, Delivery, ClaimRequest, Claim, claimed, not_found,
  OutboxStore, Dispatcher, DispatcherConfig, built, new_dispatcher, build, collect, expiry, grow,
}
use ruleraven.Notify.Dispatcher.Step
use ruleraven.Notify.Dispatcher.Once.{
  Call, claim_of, final_of, after_claim, Traced, Settled, dispatch_one-Settled,
}
use ruleraven.Notify.Dispatcher.Bounds.{reschedule_request_bounds}
use ruleraven.Notify.Dispatcher.Construction.{IsValid, new_dispatcher-IsValid}

-- The world is the trace of the store's calls; one delivery is due until it is claimed.
abbrev alert : Delivery
alert = record {
  notification = record {
    id = "d1";
    evaluation_id = "e1";
    destination_id = "ops";
    event_type = "ruleraven.incident.v1";
    status = notification_delivering;
    attempts = pos 1;
    next_attempt_at = pos 10;
    payload = "{}";
  };
  lease_owner = "w1";
  lease_until = some (pos 70);
  last_failure = none;
  delivered_at = none;
  expires_at = none;
}

abbrev claim_alert : ClaimRequest → List Call → Claim String × List Call
claim_alert r [] = (claimed alert, claim_of "d1" ∷ [])
claim_alert r (c ∷ calls) = (not_found, c ∷ calls)

abbrev outbox : OutboxStore (List Call) String
outbox = record {
  claim_delivery = claim_alert;
  complete_delivery = λ r calls. (none, final_of r.id r.worker_id ∷ calls);
  reschedule_delivery = λ r calls. (none, final_of r.id r.worker_id ∷ calls);
  count_pending_deliveries = none;
}

abbrev overloaded : DeliveryError
overloaded = record {
  classified =
      some (record {
        status_code = pos 503;
        retryable = true;
        retry_delay = pos 999;
        kind = "server";
      });
  deadline_exceeded = false;
}

abbrev ops : Notifier (List Call)
ops = record { name = "ops"; deliver = λ event calls. (some overloaded, calls) }

abbrev config : DispatcherConfig (List Call) String
config = record {
  store = some outbox;
  notifiers = some ops ∷ [];
  worker_id = "w1";
  workers = pos 2;
  cluster_id = "c1";
  lease_duration = pos 60;
  max_attempts = pos 5;
  initial_backoff = pos 10;
  max_backoff = pos 100;
  delivered_expiry = pos 0;
  failed_expiry = pos 1000;
  now = some (λ calls. (pos 10, calls));
  metrics = none;
  logger = λ l calls. calls;
}

abbrev dispatcher : Dispatcher (List Call) String
dispatcher = build (List Call) String outbox (λ calls. (pos 10, calls)) config (("ops", ops) ∷ [])

dispatcher-built : new_dispatcher (List Call) String config ≡ built dispatcher
unfolding new_dispatcher collect insert lookup trim_space
dispatcher-built = refl

new_dispatcher-IsValid_example : IsValid config dispatcher
new_dispatcher-IsValid_example = new_dispatcher-IsValid config dispatcher dispatcher-built

abbrev alive : List Call → Option String
alive calls = none

abbrev valid : String → Bool
valid text = true

abbrev reference : String → String → Option String
reference evaluation destination = some "{}"

abbrev escape : String → String
escape text = text

retries_alert :
    Step.dispatch_one alive valid reference escape dispatcher []
    ≡ ((true, none), final_of "d1" "w1" ∷ claim_of "d1" ∷ [])
unfolding Step.dispatch_one Step.deliver Step.reschedule Step.reschedule_request Step.backoff
    Step.update_pending lookup new_envelope trim_space expiry grow
retries_alert = refl

claims_alert :
    (r : ClaimRequest) (calls : List Call)
    → (claim_alert r calls).1 ≡ after_claim (claim_alert r calls).0 calls
claims_alert r [] = refl
claims_alert r (c ∷ calls) = refl

lookup-ops : (name : String) → "ops" == name ≡ true → lookup name (("ops", ops) ∷ []) ≡ some ops
unfolding lookup
lookup-ops name b = rw b refl

only_ops :
    (name : String) (n : Notifier (List Call)) → lookup name (("ops", ops) ∷ []) ≡ some n → ops ≡ n
unfolding lookup
only_ops name n h = elim (Bool-cases ("ops" == name)) [
  | inl b ↦ some-injective _ _ (sym (lookup-ops name b) ∙ h)
  | inr b ↦ absurd (ground (arith, b, h))
]

dispatcher-Traced : Traced dispatcher (λ calls. calls)
dispatcher-Traced = record {
  clock = λ s. refl;
  claims = claims_alert;
  completes = λ r s. refl;
  reschedules = λ r s. refl;
  counting = λ count h now s. absurd (grind (arith, h));
  gauge = λ m h n s. absurd (grind (arith, h));
  attempts = λ m h destination outcome s. absurd (grind (arith, h));
  logs = λ l s. refl;
  delivers = λ name n h event s. subst (λ o. (o.deliver event s).1 ≡ s) (only_ops name n h) refl;
}

dispatch_one-Settled_example :
    Settled alive valid reference escape dispatcher
      (λ calls. calls)
      dispatcher-Traced
      []
      (Step.dispatch_one alive valid reference escape dispatcher [])
dispatch_one-Settled_example =
    dispatch_one-Settled alive valid reference escape dispatcher (λ calls. calls) dispatcher-Traced
      []

reschedule_request_bounds_example :
    let r =
      Step.reschedule_request alive valid reference escape dispatcher alert overloaded (pos 10) in
    (r.failure ≡ failure_retryable ↔ (Step.retryable overloaded ≡ true) × (pos 1 <ℤ pos 5))
    × (pos 10 ≤ℤ r.next_attempt_at)
    × (r.next_attempt_at ≤ℤ pos 10 +ℤ pos 100)
    × ((r.expires_at ≡ none) ⊎ (r.failure ≡ failure_permanent))
reschedule_request_bounds_example =
    reschedule_request_bounds alive valid reference escape dispatcher alert overloaded (pos 10)
      new_dispatcher-IsValid_example.0

abbrev numbers : Map ℕ
numbers = ("webhook", 1) ∷ []

registers_slack : (register ℕ " slack " (some 2) numbers).0 ≡ none
unfolding register lookup insert trim_space
registers_slack = refl

register-created_example :
    (created ℕ (trim_space " slack ") numbers ≡ none)
    × (created ℕ "slack" (register ℕ " slack " (some 2) numbers).1
        ≡ (if trim_space " slack " == "slack" then some 2 else created ℕ "slack" numbers))
register-created_example = register-created ℕ " slack " "slack" 2 numbers registers_slack
