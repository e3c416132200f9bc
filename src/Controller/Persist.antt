-- ===== src/Controller/Persist.antt =====
-- reconciler.go: `persist`, and the request that it commits.
use ruleraven.Common.{
  String, ◌<>◌, ◌==◌, Bool, false, not, ◌&&◌, Option, none, some, List, [], ◌∷◌, is_empty, map,
  if◌then◌else◌,
}
use ruleraven.Common.Int.{pos, Time}
use ruleraven.Domain.{
  Incident, IncidentStatus, incident_open, Snapshot, Decision, Notification, notification_pending,
}
use ruleraven.Rules.{Result}
use ruleraven.Provider.Float.{Float64}
use ruleraven.Kube.Fingerprint.{incident_key}
use ruleraven.Controller.{is_recovery, status_for, is_resolved, notifies}
use ruleraven.Controller.Types.{
  CommitRequest, Upserted, upserted, upsert_failed, Metrics, Encoding, Reconciler, ReconcileError,
  not_upserted, no_snapshot, not_committed,
}
use ruleraven.Controller.Decide.{Decided, decide}

abbrev pub event_opened : String
event_opened = "io.ruleraven.incident.opened"

abbrev pub event_updated : String
event_updated = "io.ruleraven.incident.updated"

abbrev pub event_resolved : String
event_resolved = "io.ruleraven.incident.resolved"

abbrev pub event_type_of : Bool → IncidentStatus → String
event_type_of created status =
    if is_resolved status then event_resolved else if created then event_opened else event_updated

-- The incident as it is written, with what the snapshot and the result say.
unfoldable pub renewed : Incident → Snapshot → IncidentStatus → Time → Incident
renewed incident snapshot status now = record incident {
  source = snapshot.source;
  status = status;
  content_hash = snapshot.content_hash;
  updated_at = now;
  resolved_at = if is_resolved status then some now else none;
}

-- How `persist` ends; `panicked` where the composer follows a nil pointer.
pub data Persisted (E : Type 0) : Type 0 where
  persisted : Persisted E
  not_persisted : ReconcileError E → Persisted E
  panicked : Persisted E

module _ {S O E : Type 0} (fl : Float64) (enc : Encoding) (r : Reconciler S O E fl) where
  unfoldable pub payload_of : Incident → Snapshot → String → Decision → IncidentStatus → String
  payload_of incident snapshot evaluation_id decision status =
      elim (enc.marshal_payload (record {
        incident_id = incident.id;
        evaluation_id = evaluation_id;
        status = status;
        severity = decision.severity;
        action = decision.action;
        summary = decision.summary;
        resource = snapshot.source;
        rule_ids = decision.rule_ids;
        reason_codes = decision.reason_codes;
        observed_at = snapshot.observed_at;
      })) [ none ↦ "" | some payload ↦ payload ]

  abbrev pub delivery_to : String → String → String → Time → String → Notification
  delivery_to evaluation_id event_type payload now destination = record {
    id = r.new_id ("delivery\0" <> evaluation_id <> "\0" <> destination <> "\0" <> event_type);
    evaluation_id = evaluation_id;
    destination_id = destination;
    event_type = event_type;
    status = notification_pending;
    attempts = pos 0;
    next_attempt_at = now;
    payload = payload;
  }

  unfoldable pub deliveries :
      Incident → Snapshot → String → String → Decision → IncidentStatus → Time → List Notification
  deliveries incident snapshot evaluation_id event_type decision status now =
      if not (is_resolved status) && not (notifies decision.action)
      then []
      else map
          (delivery_to evaluation_id event_type
            (payload_of incident snapshot evaluation_id decision status) now)
          r.destinations

  abbrev pub policy_version_of : Result → String
  policy_version_of result = result.policy_version <> "+" <> r.composer.thresholds.policy_version

  abbrev pub evaluation_id_of : Incident → Snapshot → Result → String
  evaluation_id_of incident snapshot result = r.new_id (
      "evaluation\0"
      <> incident.id
      <> "\0"
      <> snapshot.content_hash
      <> "\0"
      <> policy_version_of result
      <> "\0"
      <> result.question_set
      <> "\0"
      <> r.provider_config_hash)

  unfoldable pub commit_request :
      Incident → Bool → Snapshot → Result → Decision → Decided fl enc r → Time → CommitRequest fl.F
  commit_request incident created snapshot result decision decided now =
      let status = status_for result in
      let evaluation_id = evaluation_id_of incident snapshot result in
      let written = renewed incident snapshot status now in
      record {
        incident = written;
        expected_version = incident.version;
        evaluation = record {
          id = evaluation_id;
          incident_id = incident.id;
          snapshot_hash = snapshot.content_hash;
          policy_version = policy_version_of result;
          rubric_version = result.question_set;
          provider_config_hash = r.provider_config_hash;
          decision = decision;
          answers = decided.answers;
          provider_audit = decided.provider_audit;
          created_at = now;
        };
        deliveries =
            deliveries written snapshot evaluation_id (event_type_of created status) decision status
              now;
        expires_at = none;
      }

  abbrev pub observe_rules : Metrics S → IncidentStatus → Decision → List String → S → S
  observe_rules m status decision [] s = s
  observe_rules m status decision (id ∷ ids) s =
      observe_rules m status decision ids
        (m.observe_incident_transition status decision.severity id s)

  unfoldable pub observe_transition : IncidentStatus → Decision → S → S
  observe_transition status decision s = elim r.metrics [
    | none ↦ s
    | some m ↦
        observe_rules m status decision
          (if is_empty decision.rule_ids then "none" ∷ [] else decision.rule_ids) s
  ]

  abbrev pub committed : IncidentStatus → Decision → Option E × S → Persisted E × S
  committed status decision (some e, s) = (not_persisted (not_committed e), s)
  committed status decision (none, s) = (persisted, observe_transition status decision s)

  -- From the decision on.
  abbrev pub commit_decision :
      Incident
      → Bool
      → Snapshot
      → Result
      → Time
      → Decided fl enc r
      → Option Decision
      → S
      → Persisted E × S
  commit_decision incident created snapshot result now decided none s = (panicked, s)
  commit_decision incident created snapshot result now decided (some decision) s =
      committed (status_for result) decision
        (r.store.commit (commit_request incident created snapshot result decision decided now) s)

  abbrev pub with_decision :
      Incident → Bool → Snapshot → Result → Time → Decided fl enc r × S → Persisted E × S
  with_decision incident created snapshot result now (decided, s) =
      commit_decision incident created snapshot result now decided decided.decision s

  -- From the snapshot's upsert on.
  abbrev pub with_snapshot :
      Incident → Bool → Snapshot → Result → Time → Option E × S → Persisted E × S
  with_snapshot incident created snapshot result now (some e, s) =
      (not_persisted (no_snapshot e), s)
  with_snapshot incident created snapshot result now (none, s) =
      with_decision incident created snapshot result now
        (decide fl enc r snapshot result incident.id s)

  -- From the incident on.
  unfoldable pub record_incident : Incident → Bool → Snapshot → Result → Time → S → Persisted E × S
  record_incident incident created snapshot result now s =
      if not created && incident.content_hash == snapshot.content_hash && not (is_recovery result)
      then (persisted, s)
      else with_snapshot incident created snapshot result now
          (r.store.upsert_snapshot incident.id snapshot none s)

  abbrev pub new_incident : Snapshot → Time → Incident
  new_incident snapshot now =
      let key = incident_key enc.sha256 snapshot.source in
      record {
        id = r.new_id ("incident\0" <> key);
        key = key;
        cluster_id = r.cluster_id;
        source = snapshot.source;
        status = incident_open;
        opened_at = now;
        updated_at = now;
        resolved_at = none;
        content_hash = "";
        version = pos 1;
      }

  abbrev pub with_upserted : Snapshot → Result → Time → Upserted E × S → Persisted E × S
  with_upserted snapshot result now (upsert_failed e, s) = (not_persisted (not_upserted e), s)
  with_upserted snapshot result now (upserted incident created, s) =
      record_incident incident created snapshot result now s

  unfoldable pub persist : Snapshot → Option Incident → Result → Time → S → Persisted E × S
  persist snapshot (some previous) result now s =
      record_incident previous false snapshot result now s
  persist snapshot none result now s =
      with_upserted snapshot result now (r.store.upsert_incident (new_incident snapshot now) none s)
