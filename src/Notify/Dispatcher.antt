-- ===== src/Notify/Dispatcher.antt =====
-- dispatcher.go: one worker's step on the outbox, its backoff and its configuration. The store, the
-- notifiers, the clock, the context, the metrics and the log act on a world that the caller chooses.
pub mod Step
pub mod Once
pub mod Bounds
pub mod Table
pub mod Construction
use ruleraven.Common.{
  ℕ, zero, suc, ◌-◌, ◌≡◌, String, ◌==◌, Bool, true, false, not, ◌&&◌, ◌||◌, Option, none, some,
  is_some, List, [], ◌∷◌, if◌then◌else◌, trim_space,
}
use ruleraven.Common.Int.{
  ℤ, pos, negsuc, pos_part, Time, Duration, ◌+ℤ◌, half, ltb_ℤ, leb_ℤ, is_zero,
}
use ruleraven.Common.Maps.{Map, lookup, insert}
use ruleraven.Domain.{Notification}
use ruleraven.Notify.Envelope.{NotifyError, Envelope, new_envelope, DeliveryError, Notifier}

-- internal/store/store.go: the values of the outbox.
pub data FailureClass : Type 0 where
  failure_retryable failure_permanent : FailureClass

pub record Delivery : Type 0 where
  pub notification : Notification
  pub lease_owner : String
  pub lease_until : Option Time
  pub last_failure : Option FailureClass
  pub delivered_at : Option Time
  pub expires_at : Option Time

pub record ClaimRequest : Type 0 where
  pub worker_id : String
  pub now : Time
  pub lease_duration : Duration

pub record CompleteRequest : Type 0 where
  pub id : String
  pub worker_id : String
  pub completed_at : Time
  pub expires_at : Option Time

pub record RescheduleRequest : Type 0 where
  pub id : String
  pub worker_id : String
  pub now : Time
  pub next_attempt_at : Time
  pub failure : FailureClass
  pub expires_at : Option Time

-- What a claim returns, over the errors E of the store other than `ErrNotFound`.
pub data Claim (E : Type 0) : Type 0 where
  claimed : Delivery → Claim E
  not_found : Claim E
  claim_failed : E → Claim E

unfoldable pub grow : ℕ → Duration → Duration → Duration
grow zero delay max_backoff = if ltb_ℤ max_backoff delay then max_backoff else delay
grow (suc n) delay max_backoff =
    let rest = grow n (delay +ℤ delay) max_backoff in
    if leb_ℤ (half max_backoff) delay then max_backoff else rest

unfoldable pub expiry : Time → Duration → Option Time
expiry now retention = if leb_ℤ retention (pos 0) then none else some (now +ℤ retention)

-- The texts of `DeliveryLog`, with the attempts; durations and error texts are not modelled.
pub record DeliveryLog : Type 0 where
  pub destination : String
  pub delivery_id : String
  pub outcome : String
  pub attempts : ℤ

module _ (S E : Type 0) where
  pub record OutboxStore : Type 0 where
    pub claim_delivery : ClaimRequest → S → Claim E × S
    pub complete_delivery : CompleteRequest → S → Option E × S
    pub reschedule_delivery : RescheduleRequest → S → Option E × S
    pub count_pending_deliveries : Option (Time → S → (Option ℤ) × S)

  pub record DeliveryMetrics : Type 0 where
    pub set_outbox_pending : ℤ → S → S
    pub observe_delivery_attempt : String → String → S → S

  pub record Dispatcher : Type 0 where
    pub store : OutboxStore
    pub notifiers : Map (Notifier S)
    pub worker_id : String
    pub workers : ℤ
    pub cluster_id : String
    pub lease_duration : Duration
    pub max_attempts : ℤ
    pub initial_backoff : Duration
    pub max_backoff : Duration
    pub delivered_expiry : Duration
    pub failed_expiry : Duration
    pub now : S → Time × S
    pub metrics : Option DeliveryMetrics
    pub logger : DeliveryLog → S → S

  -- `DispatcherConfig`: a dispatcher's fields, with what may be missing.
  pub record DispatcherConfig : Type 0 where
    pub store : Option OutboxStore
    pub notifiers : List (Option (Notifier S))
    pub worker_id : String
    pub workers : ℤ
    pub cluster_id : String
    pub lease_duration : Duration
    pub max_attempts : ℤ
    pub initial_backoff : Duration
    pub max_backoff : Duration
    pub delivered_expiry : Duration
    pub failed_expiry : Duration
    pub now : Option (S → Time × S)
    pub metrics : Option DeliveryMetrics
    pub logger : DeliveryLog → S → S

  pub data ConfigError : Type 0 where
    no_store no_ids bad_limits bad_expiry no_clock no_notifier : ConfigError
    duplicate_notifier : String → ConfigError

  pub data Built : Type 0 where
    refused : ConfigError → Built
    built : Dispatcher → Built

  -- Why the loop refuses a configured notifier.
  abbrev pub refusal : Option (Notifier S) → Map (Notifier S) → Option ConfigError
  refusal none m = some no_notifier
  refusal (some n) m =
      if trim_space n.name == ""
      then some no_notifier
      else if is_some (lookup n.name m)
      then some (duplicate_notifier n.name)
      else none

  abbrev pub with_notifier : Option (Notifier S) → Map (Notifier S) → Map (Notifier S)
  with_notifier none m = m
  with_notifier (some n) m = insert n.name n m

  -- The loop over the configured notifiers.
  unfoldable pub collect :
      List (Option (Notifier S)) → Map (Notifier S) → Option ConfigError × Map (Notifier S)
  collect [] m = (none, m)
  collect (n ∷ ns) m = elim (refusal n m) [
    | some e ↦ (some e, m)
    | none ↦ collect ns (with_notifier n m)
  ]

  abbrev pub build : OutboxStore → (S → Time × S) → DispatcherConfig → Map (Notifier S) → Dispatcher
  build store now c notifiers = record {
    store = store;
    notifiers = notifiers;
    worker_id = c.worker_id;
    workers = c.workers;
    cluster_id = c.cluster_id;
    lease_duration = c.lease_duration;
    max_attempts = c.max_attempts;
    initial_backoff = c.initial_backoff;
    max_backoff = c.max_backoff;
    delivered_expiry = c.delivered_expiry;
    failed_expiry = c.failed_expiry;
    now = now;
    metrics = c.metrics;
    logger = c.logger;
  }

  abbrev pub built_with :
      OutboxStore
      → (S → Time × S)
      → DispatcherConfig
      → Option ConfigError × Map (Notifier S)
      → Built
  built_with store now c (some e, m) = refused e
  built_with store now c (none, m) = built (build store now c m)

  abbrev pub bad_limits_of : DispatcherConfig → Bool
  bad_limits_of c =
      leb_ℤ c.workers (pos 0)
      || leb_ℤ c.lease_duration (pos 0)
      || leb_ℤ c.max_attempts (pos 0)
      || leb_ℤ c.initial_backoff (pos 0)
      || ltb_ℤ c.max_backoff c.initial_backoff

  unfoldable pub new_dispatcher : DispatcherConfig → Built
  new_dispatcher c = elim c.store [
    | none ↦ refused no_store
    | some store ↦
        if trim_space c.worker_id == "" || trim_space c.cluster_id == ""
        then refused no_ids
        else if bad_limits_of c
        then refused bad_limits
        else if ltb_ℤ c.delivered_expiry (pos 0) || ltb_ℤ c.failed_expiry (pos 0)
        then refused bad_expiry
        else elim c.now [
          | none ↦ refused no_clock
          | some now ↦ built_with store now c (collect c.notifiers [])
        ]
  ]
