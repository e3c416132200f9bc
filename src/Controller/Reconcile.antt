-- ===== src/Controller/Reconcile.antt =====
-- reconciler.go: `Reconcile` and `resolveDeletion`. The context with its timeout is part of the
-- world; the reading of the wall clock for logs and metrics is left out.
use ruleraven.Common.{
  String, ◌==◌, Bool, true, false, not, ◌&&◌, Option, none, some, is_some, [], ◌∷◌, ◌++◌,
  if◌then◌else◌,
}
use ruleraven.Common.Int.{pos, Time, Duration}
use ruleraven.Domain.{Incident, Snapshot, Condition, Decision, severity_info, action_record}
use ruleraven.Rules.{
  Result, Disposition, disposition_no_match, disposition_terminal, policy_version_name,
}
use ruleraven.Provider.Float.{Float64}
use ruleraven.Kube.{ResourceKey, is_valid, source_of}
use ruleraven.Kube.Fingerprint.{incident_key, content_hash}
use ruleraven.Controller.{is_recovery, is_resolved, event_requeue}
use ruleraven.Controller.Types.{
  Found, found, no_incident, get_failed, Resolved, resolved, no_resource, resolve_failed,
  Normalized, normalized, normalize_failed, Encoding, Reconciler, ReconcileError, bad_key,
  not_fingerprinted, not_resolved, not_normalized, not_gotten,
}
use ruleraven.Controller.Persist.{Persisted, persisted, not_persisted, panicked, persist}

-- How `Reconcile` ends: with a delay for the next round (zero for none), an error or a panic.
pub data Reconciled (E : Type 0) : Type 0 where
  reconciled : Duration → Reconciled E
  not_reconciled : ReconcileError E → Reconciled E
  crashed : Reconciled E

abbrev pub after : {E : Type 0} → Duration → Persisted E → Reconciled E
after requeue persisted = reconciled requeue
after requeue (not_persisted e) = not_reconciled e
after requeue panicked = crashed

abbrev pub is_no_match : Disposition → Bool
is_no_match disposition_no_match = true
is_no_match _ = false

abbrev pub quiet_condition : Condition
quiet_condition = record {
  type = "QuietPeriodElapsed";
  status = "True";
  reason = "EventQuietPeriod";
  message = "";
  last_transition_time = pos 0;
}

abbrev pub deleted_condition : Condition
deleted_condition = record {
  type = "Deleted";
  status = "True";
  reason = "ResourceDeleted";
  message = "";
  last_transition_time = pos 0;
}

abbrev pub deletion_decision : Decision
deletion_decision = record {
  severity = severity_info;
  action = action_record;
  summary = "observed resource was deleted";
  reason_codes = "resource_deleted" ∷ [];
  rule_ids = "resource-deleted" ∷ [];
}

abbrev pub deletion_result : Result
deletion_result = record {
  matches =
      record {
        rule_id = "resource-deleted";
        reason = "observed resource was deleted";
        severity = severity_info;
      }
      ∷ [];
  disposition = disposition_terminal;
  decision = some deletion_decision;
  question_set = "";
  policy_version = policy_version_name;
}

abbrev pub same_content : Option Incident → Snapshot → Bool
same_content none snapshot = false
same_content (some previous) snapshot = previous.content_hash == snapshot.content_hash

abbrev pub was_resolved : Option Incident → Bool
was_resolved none = false
was_resolved (some previous) = is_resolved previous.status

module _ {S O E : Type 0} (fl : Float64) (enc : Encoding) (r : Reconciler S O E fl) where
  abbrev pub hash_of : Snapshot → Option String
  hash_of snapshot = content_hash enc.marshal_canonical enc.sha256 snapshot

  abbrev pub fingerprinted : Snapshot → Option String → Option Snapshot
  fingerprinted snapshot none = none
  fingerprinted snapshot (some hash) = some (record snapshot { content_hash = hash })

  abbrev pub marked : Snapshot → Snapshot
  marked snapshot = record snapshot { conditions = snapshot.conditions ++ (quiet_condition ∷ []) }

  -- The snapshot that is evaluated further: a quiet Event is marked as such, and hashed again.
  unfoldable pub settled : Snapshot → Result → Option Snapshot
  settled snapshot result =
      if is_recovery result && is_some snapshot.event
      then fingerprinted (marked snapshot) (hash_of (marked snapshot))
      else some snapshot

  abbrev pub persisting :
      Snapshot → Option Incident → Result → Time → Duration → S → Reconciled E × S
  persisting snapshot previous result now requeue s =
      let p = persist fl enc r snapshot previous result now s in (after requeue p.0, p.1)

  -- The early returns, and then `persist`.
  unfoldable pub concluded : Snapshot → Option Incident → Result → Time → S → Reconciled E × S
  concluded snapshot previous result now s =
      let requeue = event_requeue snapshot now result r.event_quiet_period in
      if same_content previous snapshot && not (is_recovery result)
      then (reconciled requeue, s)
      else if is_no_match result.disposition && not (is_some previous)
      then (reconciled requeue, s)
      else if was_resolved previous && is_no_match result.disposition
      then (reconciled (pos 0), s)
      else persisting snapshot previous result now requeue s

  abbrev pub with_settled : Option Incident → Result → Time → S → Option Snapshot → Reconciled E × S
  with_settled previous result now s none = (not_reconciled not_fingerprinted, s)
  with_settled previous result now s (some snapshot) = concluded snapshot previous result now s

  abbrev pub with_result : Snapshot → Option Incident → Time → Result × S → Reconciled E × S
  with_result snapshot previous now (result, s) =
      with_settled previous result now s (settled snapshot result)

  abbrev pub with_previous : Snapshot → Time → Found E × S → Reconciled E × S
  with_previous snapshot now (get_failed e, s) = (not_reconciled (not_gotten e), s)
  with_previous snapshot now (no_incident, s) =
      with_result snapshot none now (r.evaluate snapshot none s)
  with_previous snapshot now (found previous, s) =
      with_result snapshot (some previous) now (r.evaluate snapshot (some previous) s)

  abbrev pub with_normalized : Time → S → Normalized E → Reconciled E × S
  with_normalized now s (normalize_failed e) = (not_reconciled (not_normalized e), s)
  with_normalized now s (normalized snapshot) =
      with_previous snapshot now
        (r.store.get_incident r.cluster_id (incident_key enc.sha256 snapshot.source) s)

  abbrev pub with_time : O → Time × S → Reconciled E × S
  with_time object (now, s) = with_normalized now s (r.normalize object now)

  abbrev pub deletion_snapshot : ResourceKey → Time → Snapshot
  deletion_snapshot key now = record {
    source = source_of key r.cluster_id;
    observed_at = now;
    labels = [];
    conditions = deleted_condition ∷ [];
    containers = [];
    workload = none;
    job = none;
    event = none;
    content_hash = "";
  }

  abbrev pub delete_hashed : Incident → Time → S → Option Snapshot → Reconciled E × S
  delete_hashed previous now s none = (not_reconciled not_fingerprinted, s)
  delete_hashed previous now s (some snapshot) =
      persisting snapshot (some previous) deletion_result now (pos 0) s

  abbrev pub delete_at : ResourceKey → Incident → Time × S → Reconciled E × S
  delete_at key previous (now, s) =
      let snapshot = deletion_snapshot key now in
      delete_hashed previous now s (fingerprinted snapshot (hash_of snapshot))

  abbrev pub delete_found : ResourceKey → Found E × S → Reconciled E × S
  delete_found key (no_incident, s) = (reconciled (pos 0), s)
  delete_found key (get_failed e, s) = (not_reconciled (not_gotten e), s)
  delete_found key (found previous, s) =
      if is_resolved previous.status
      then (reconciled (pos 0), s)
      else delete_at key previous (r.now s)

  unfoldable pub resolve_deletion : ResourceKey → S → Reconciled E × S
  resolve_deletion key s =
      delete_found key
        (r.store.get_incident r.cluster_id (incident_key enc.sha256 (source_of key r.cluster_id)) s)

  abbrev pub with_object : ResourceKey → Resolved O E × S → Reconciled E × S
  with_object key (no_resource, s) = resolve_deletion key s
  with_object key (resolve_failed e, s) = (not_reconciled (not_resolved e), s)
  with_object key (resolved object, s) = with_time object (r.now s)

  abbrev pub outcome_of : Reconciled E → String
  outcome_of (reconciled requeue) = "success"
  outcome_of (not_reconciled e) = "error"
  outcome_of crashed = "success"

  -- The deferred calls, in the order in which they run: the metrics first, then the log.
  abbrev pub observed : ResourceKey → Reconciled E × S → Reconciled E × S
  observed key (outcome, s) = elim r.metrics [
    | none ↦ (outcome, r.log_reconcile key (outcome_of outcome) s)
    | some m ↦ (
      outcome,
      r.log_reconcile key (outcome_of outcome) (m.observe_reconcile (outcome_of outcome) s),
    )
  ]

  unfoldable pub reconcile : ResourceKey → S → Reconciled E × S
  reconcile key s = observed key (
      if not (is_valid key) then (not_reconciled bad_key, s) else with_object key (r.resolve key s))
