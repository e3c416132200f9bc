-- ===== src/Controller.antt =====
-- internal/controller: what the reconciler makes of a rule result, and the sweep of open incidents.
pub mod Types
pub mod Decide
pub mod Persist
pub mod Reconcile
pub mod Construction
pub mod Monitor
pub mod Protocol
pub mod Orderly
pub mod Status
pub mod Sweep
pub mod Sweeper
use ruleraven.Common.{
  ℕ, String, ◌<>◌, ◌==◌, Bool, true, false, not, ◌&&◌, ◌||◌, Option, none, some, List, [], ◌∷◌, any,
  length, codes, has_prefix, if◌then◌else◌, ltb, equal_fold, map,
}
use ruleraven.Common.Int.{ℤ, pos, Time, Duration, ◌+ℤ◌, leb_ℤ, is_zero, sub_time}
use ruleraven.Domain.{
  IncidentStatus, incident_open, incident_resolved, incident_suppressed, Action, action_notify,
  action_page, Incident, Snapshot, EventState, Notification, notification_pending, Source,
}
use ruleraven.Rules.{Disposition, disposition_suppress, disposition_semantic, Result}
use ruleraven.Rules.Detect.{Match}
use ruleraven.Kube.{ResourceKey}

abbrev pub is_recovery_id : String → Bool
is_recovery_id id = id == "recovered" || id == "resource-deleted"

abbrev pub is_recovery : Result → Bool
is_recovery result = any (λ m. is_recovery_id m.rule_id) result.matches

abbrev pub status_of : Bool → Disposition → IncidentStatus
status_of true disposition = incident_resolved
status_of false disposition_suppress = incident_suppressed
status_of false _ = incident_open

unfoldable pub status_for : Result → IncidentStatus
status_for result = status_of (is_recovery result) result.disposition

abbrev pub is_semantic : Disposition → Bool
is_semantic disposition_semantic = true
is_semantic _ = false

abbrev pub remaining_or_soon : Duration → Duration
remaining_or_soon remaining = if leb_ℤ remaining (pos 0) then pos 1000000 else remaining

unfoldable pub requeue_of : Option EventState → Time → Disposition → Duration → Duration
requeue_of none now disposition quiet_period = pos 0
requeue_of (some e) now disposition quiet_period =
    if not (is_semantic disposition) || is_zero e.last_observed
    then pos 0
    else remaining_or_soon (sub_time (e.last_observed +ℤ quiet_period) now)

abbrev pub event_requeue : Snapshot → Time → Result → Duration → Duration
event_requeue snapshot now result quiet_period =
    requeue_of snapshot.event now result.disposition quiet_period

abbrev pub notifies : Action → Bool
notifies action_notify = true
notifies action_page = true
notifies _ = false

abbrev pub is_resolved : IncidentStatus → Bool
is_resolved incident_resolved = true
is_resolved _ = false

abbrev pub swept : String → Incident → Bool
swept cluster_id incident =
    incident.cluster_id == cluster_id && equal_fold incident.source.kind "Event"

abbrev pub key_of : Source → ResourceKey
key_of source = record {
  kind = "Event";
  namespace = source.namespace;
  name = source.name;
  uid = source.uid;
}

-- What `ListOpenIncidents` returned: its error, or the incidents.
pub data Listed (E : Type 0) : Type 0 where
  list_failed : E → Listed E
  listed : List Incident → Listed E

module _ {S : Type 0} (add : ResourceKey → S → S) (cluster_id : String) where
  -- The loop of `SweepOnce`.
  unfoldable pub enqueue : List Incident → S → S
  enqueue [] s = s
  enqueue (i ∷ incidents) s =
      enqueue incidents (if swept cluster_id i then add (key_of i.source) s else s)

  abbrev pub swept_all : {E : Type 0} → Listed E × S → Option E × S
  swept_all (list_failed e, s) = (some e, s)
  swept_all (listed incidents, s) = (none, enqueue incidents s)

  unfoldable pub sweep_once : {E : Type 0} → (S → Listed E × S) → S → Option E × S
  sweep_once list_open_incidents s = swept_all (list_open_incidents s)
