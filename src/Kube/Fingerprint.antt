-- ===== src/Kube/Fingerprint.antt =====
-- fingerprint.go: the canonical form of a snapshot, its hash, and the key of an incident. SHA-256 in
-- hexadecimal and the JSON encoding of the canonical form are the standard library's.
use ruleraven.Common.{
  String, ◌<>◌, ◌==◌, Bool, not, Option, none, some, List, map, if◌then◌else◌, ltb_text,
}
use ruleraven.Common.Int.{ℤ, pos}
use ruleraven.Common.Sort.{sort_by}
use ruleraven.Domain.{
  Source, OwnerReference, Condition, ContainerState, WorkloadState, JobState, EventState, Snapshot,
}

pub record CanonicalSource : Type 0 where
  pub cluster_id : String
  pub api_version : String
  pub kind : String
  pub uid : String
  pub generation : ℤ
  pub owner : Option OwnerReference

pub record CanonicalEvent : Type 0 where
  pub type : String
  pub reason : String
  pub message : String
  pub regarding_uid : String

pub record CanonicalSnapshot : Type 0 where
  pub source : CanonicalSource
  pub labels : List (String × String)
  pub conditions : List Condition
  pub containers : List ContainerState
  pub workload : Option WorkloadState
  pub job : Option JobState
  pub event : Option CanonicalEvent

abbrev pub canonical_source : Source → CanonicalSource
canonical_source s = record {
  cluster_id = s.cluster_id;
  api_version = s.api_version;
  kind = s.kind;
  uid = s.uid;
  generation = s.generation;
  owner = s.owner;
}

abbrev pub canonical_event : EventState → CanonicalEvent
canonical_event e = record {
  type = e.type;
  reason = e.reason;
  message = e.message;
  regarding_uid = e.regarding_uid;
}

abbrev pub canonical_events : Option EventState → Option CanonicalEvent
canonical_events none = none
canonical_events (some e) = some (canonical_event e)

abbrev pub label_before : String × String → String × String → Bool
label_before a b = ltb_text a.0 b.0

-- `canonical.Conditions[i].LastTransitionTime = time.Time{}`
abbrev pub without_time : Condition → Condition
without_time c = record c { last_transition_time = pos 0 }

abbrev pub condition_before : Condition → Condition → Bool
condition_before a b =
    if not (a.type == b.type)
    then ltb_text a.type b.type
    else if not (a.status == b.status)
    then ltb_text a.status b.status
    else if not (a.reason == b.reason)
    then ltb_text a.reason b.reason
    else ltb_text a.message b.message

abbrev pub container_before : ContainerState → ContainerState → Bool
container_before a b =
    if not (a.name == b.name)
    then ltb_text a.name b.name
    else if not (a.state == b.state)
    then ltb_text a.state b.state
    else ltb_text a.reason b.reason

unfoldable pub canonical : Snapshot → CanonicalSnapshot
canonical s = record {
  source = canonical_source s.source;
  labels = sort_by label_before s.labels;
  conditions = sort_by condition_before (map without_time s.conditions);
  containers = sort_by container_before s.containers;
  workload = s.workload;
  job = s.job;
  event = canonical_events s.event;
}

module _ (marshal : CanonicalSnapshot → Option String) (sha256 : String → String) where
  unfoldable pub content_hash : Snapshot → Option String
  content_hash s = elim (marshal (canonical s)) [
    | none ↦ none
    | some encoded ↦ some ("sha256:" <> sha256 ("ruleraven.snapshot.v1\0" <> encoded))
  ]

unfoldable pub incident_key : (String → String) → Source → String
incident_key sha256 s =
    "incident:v1:" <> sha256 ("ruleraven.incident.v1\0" <> s.cluster_id <> "\0" <> s.uid)
