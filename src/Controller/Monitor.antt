-- ===== src/Controller/Monitor.antt =====
-- reconciler.go: in which order one reconciliation calls the store and the providers, and what it
-- commits. A monitor of the calls is a view of the world.
use ruleraven.Common.{
  ◌≡◌, String, ◌==◌, Bool, true, false, ◌&&◌, Option, none, some, all_of, if◌then◌else◌,
}
use ruleraven.Common.Int.{ℤ, Time, eqb_ℤ}
use ruleraven.Domain.{
  Incident, IncidentStatus, Severity, Snapshot, NotificationStatus, notification_pending,
}
use ruleraven.Provider.Float.{Float64}
use ruleraven.Provider.Contract.{EvaluationRequest, Provider}
use ruleraven.Kube.{ResourceKey}
use ruleraven.Controller.Types.{CommitRequest, Metrics, ProviderLog, Reconciler}

-- How far the calls of one reconciliation have come.
pub data Phase : Type 0 where
  idle with_incident snapped asked_once asked_twice done : Phase

abbrev pub is_pending : NotificationStatus → Bool
is_pending notification_pending = true
is_pending _ = false

-- What a commit is made of fits together: the version read, the evaluation of this incident and of the
-- content that it is given, and deliveries of this evaluation that still wait.
abbrev pub is_consistent : {F : Type 0} → CommitRequest F → Bool
is_consistent request =
    eqb_ℤ request.expected_version request.incident.version
    && request.evaluation.incident_id == request.incident.id
    && request.evaluation.snapshot_hash == request.incident.content_hash
    && all_of (λ d. d.evaluation_id == request.evaluation.id && is_pending d.status)
        request.deliveries

abbrev pub may_commit : Phase → Bool
may_commit snapped = true
may_commit asked_once = true
may_commit asked_twice = true
may_commit _ = false

-- The calls, from a phase to the next; `none` is a call out of order.
abbrev pub on_incident : Option Phase → Option Phase
on_incident (some idle) = some with_incident
on_incident _ = none

abbrev pub on_snapshot : Option Phase → Option Phase
on_snapshot (some idle) = some snapped
on_snapshot (some with_incident) = some snapped
on_snapshot _ = none

abbrev pub on_ask : Option Phase → Option Phase
on_ask (some snapped) = some asked_once
on_ask (some asked_once) = some asked_twice
on_ask _ = none

abbrev pub on_commit : {F : Type 0} → CommitRequest F → Option Phase → Option Phase
on_commit request none = none
on_commit request (some p) = if may_commit p && is_consistent request then some done else none

-- Each call moves the monitor, and nothing else does.
pub record IsMonitor {S O E : Type 0} (fl : Float64) (r : Reconciler S O E fl)
    (phase : S → Option Phase) : Type 0 where
  pub resolve : (key : ResourceKey) (s : S) → phase (r.resolve key s).1 ≡ phase s
  pub evaluate : (v : Snapshot) (i : Option Incident) (s : S) → phase (r.evaluate v i s).1 ≡ phase s
  pub now : (s : S) → phase (r.now s).1 ≡ phase s
  pub get_incident : (c k : String) (s : S) → phase (r.store.get_incident c k s).1 ≡ phase s
  pub log_reconcile :
      (key : ResourceKey) (o : String) (s : S) → phase (r.log_reconcile key o s) ≡ phase s
  pub log_provider : (l : ProviderLog) (s : S) → phase (r.log_provider l s) ≡ phase s
  pub observe_reconcile :
      (m : Metrics S) (o : String) (s : S)
      → r.metrics ≡ some m
      → phase (m.observe_reconcile o s) ≡ phase s
  pub observe_incident_transition :
      (m : Metrics S) (i : IncidentStatus) (v : Severity) (id : String) (s : S)
      → r.metrics ≡ some m
      → phase (m.observe_incident_transition i v id s) ≡ phase s
  pub observe_provider_request :
      (m : Metrics S) (name model o : String) (n : ℤ) (s : S)
      → r.metrics ≡ some m
      → phase (m.observe_provider_request name model o n s) ≡ phase s
  pub upsert_incident :
      (v : Incident) (t : Option Time) (s : S)
      → phase (r.store.upsert_incident v t s).1 ≡ on_incident (phase s)
  pub upsert_snapshot :
      (id : String) (v : Snapshot) (t : Option Time) (s : S)
      → phase (r.store.upsert_snapshot id v t s).1 ≡ on_snapshot (phase s)
  pub commit :
      (request : CommitRequest fl.F) (s : S)
      → phase (r.store.commit request s).1 ≡ on_commit request (phase s)
  pub primary :
      (request : EvaluationRequest) (s : S)
      → phase (r.primary.evaluate request s).1 ≡ on_ask (phase s)
  pub fallback :
      (p : Provider S fl.F E) (request : EvaluationRequest) (s : S)
      → r.fallback ≡ some p
      → phase (p.evaluate request s).1 ≡ on_ask (phase s)
