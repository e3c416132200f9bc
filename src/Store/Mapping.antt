-- ===== src/Store/Mapping.antt =====
-- mapping.go: the conversions, field by field; those of a snapshot's and an evaluation's parts stand
-- inline in the source. They go between the structs; what BSON makes of a document is not in them.
-- `evaluationFromDocument` is called by a test alone and left out.
use ruleraven.Common.{String, Option, none, some, map}
use ruleraven.Common.Int.{Time}
use ruleraven.Domain.{
  Source, OwnerReference, Incident, Snapshot, Condition, ContainerState, WorkloadState, JobState,
  EventState, Decision, ProviderUsage, ProviderAudit, Evaluation, Notification,
}
use ruleraven.Notify.Dispatcher.{Delivery}
use ruleraven.Store.Documents.{
  OwnerReferenceDocument, SourceDocument, IncidentDocument, ConditionDocument, ContainerDocument,
  WorkloadDocument, JobDocument, EventDocument, SnapshotPayloadDocument, SnapshotDocument,
  DecisionDocument, ProviderUsageDocument, ProviderAuditDocument, EvaluationDocument,
  OutboxDocument,
}

-- A pointer that is copied where it is not nil.
abbrev pub opt {ℓ} : {A B : Type ℓ} → (A → B) → Option A → Option B
opt f none = none
opt f (some x) = some (f x)

abbrev pub owner_reference_to_document : OwnerReference → OwnerReferenceDocument
owner_reference_to_document v = record {
  api_version = v.api_version;
  kind = v.kind;
  name = v.name;
  uid = v.uid;
}

abbrev pub owner_reference_from_document : OwnerReferenceDocument → OwnerReference
owner_reference_from_document v = record {
  api_version = v.api_version;
  kind = v.kind;
  name = v.name;
  uid = v.uid;
}

abbrev pub condition_to_document : Condition → ConditionDocument
condition_to_document v = record {
  type = v.type;
  status = v.status;
  reason = v.reason;
  message = v.message;
  last_transition_time = v.last_transition_time;
}

abbrev pub condition_from_document : ConditionDocument → Condition
condition_from_document v = record {
  type = v.type;
  status = v.status;
  reason = v.reason;
  message = v.message;
  last_transition_time = v.last_transition_time;
}

abbrev pub container_to_document : ContainerState → ContainerDocument
container_to_document v = record {
  name = v.name;
  ready = v.ready;
  restart_count = v.restart_count;
  state = v.state;
  reason = v.reason;
  exit_code = v.exit_code;
}

abbrev pub container_from_document : ContainerDocument → ContainerState
container_from_document v = record {
  name = v.name;
  ready = v.ready;
  restart_count = v.restart_count;
  state = v.state;
  reason = v.reason;
  exit_code = v.exit_code;
}

abbrev pub workload_to_document : WorkloadState → WorkloadDocument
workload_to_document v = record {
  desired = v.desired;
  current = v.current;
  ready = v.ready;
  available = v.available;
  updated = v.updated;
  unavailable = v.unavailable;
}

abbrev pub workload_from_document : WorkloadDocument → WorkloadState
workload_from_document v = record {
  desired = v.desired;
  current = v.current;
  ready = v.ready;
  available = v.available;
  updated = v.updated;
  unavailable = v.unavailable;
}

abbrev pub job_to_document : JobState → JobDocument
job_to_document v = record {
  active = v.active;
  succeeded = v.succeeded;
  failed = v.failed;
  backoff_limit = v.backoff_limit;
}

abbrev pub job_from_document : JobDocument → JobState
job_from_document v = record {
  active = v.active;
  succeeded = v.succeeded;
  failed = v.failed;
  backoff_limit = v.backoff_limit;
}

abbrev pub event_to_document : EventState → EventDocument
event_to_document v = record {
  type = v.type;
  reason = v.reason;
  message = v.message;
  regarding_uid = v.regarding_uid;
  count = v.count;
  last_observed = v.last_observed;
}

abbrev pub event_from_document : EventDocument → EventState
event_from_document v = record {
  type = v.type;
  reason = v.reason;
  message = v.message;
  regarding_uid = v.regarding_uid;
  count = v.count;
  last_observed = v.last_observed;
}

abbrev pub decision_to_document : Decision → DecisionDocument
decision_to_document v = record {
  severity = v.severity;
  action = v.action;
  summary = v.summary;
  reason_codes = v.reason_codes;
  rule_ids = v.rule_ids;
}

abbrev pub provider_usage_to_document : ProviderUsage → ProviderUsageDocument
provider_usage_to_document v = record {
  input_tokens = v.input_tokens;
  output_tokens = v.output_tokens;
}

unfoldable pub source_to_document : Source → SourceDocument
source_to_document v = record {
  cluster_id = v.cluster_id;
  api_version = v.api_version;
  kind = v.kind;
  namespace = v.namespace;
  name = v.name;
  uid = v.uid;
  resource_version = v.resource_version;
  generation = v.generation;
  owner = opt owner_reference_to_document v.owner;
}

unfoldable pub source_from_document : SourceDocument → Source
source_from_document v = record {
  cluster_id = v.cluster_id;
  api_version = v.api_version;
  kind = v.kind;
  namespace = v.namespace;
  name = v.name;
  uid = v.uid;
  resource_version = v.resource_version;
  generation = v.generation;
  owner = opt owner_reference_from_document v.owner;
}

unfoldable pub incident_to_document : Incident → Option Time → IncidentDocument
incident_to_document v expires_at = record {
  id = v.id;
  incident_key = v.key;
  cluster_id = v.cluster_id;
  source = source_to_document v.source;
  status = v.status;
  opened_at = v.opened_at;
  updated_at = v.updated_at;
  resolved_at = v.resolved_at;
  content_hash = v.content_hash;
  version = v.version;
  expires_at = expires_at;
}

unfoldable pub incident_from_document : IncidentDocument → Incident
incident_from_document v = record {
  id = v.id;
  key = v.incident_key;
  cluster_id = v.cluster_id;
  source = source_from_document v.source;
  status = v.status;
  opened_at = v.opened_at;
  updated_at = v.updated_at;
  resolved_at = v.resolved_at;
  content_hash = v.content_hash;
  version = v.version;
}

abbrev pub snapshot_payload : Snapshot → SnapshotPayloadDocument
snapshot_payload v = record {
  source = source_to_document v.source;
  observed_at = v.observed_at;
  labels = v.labels;
  conditions = map condition_to_document v.conditions;
  containers = map container_to_document v.containers;
  workload = opt workload_to_document v.workload;
  job = opt job_to_document v.job;
  event = opt event_to_document v.event;
  content_hash = v.content_hash;
}

-- The ID is the candidate that the caller sets on the document.
unfoldable pub snapshot_to_document : String → String → Snapshot → Option Time → SnapshotDocument
snapshot_to_document id incident_id v expires_at = record {
  id = id;
  incident_id = incident_id;
  content_hash = v.content_hash;
  observed_at = v.observed_at;
  snapshot = snapshot_payload v;
  expires_at = expires_at;
}

-- `store.Snapshot`
pub record StoredSnapshot : Type 0 where
  pub id : String
  pub incident_id : String
  pub snapshot : Snapshot
  pub expires_at : Option Time

unfoldable pub snapshot_from_document : SnapshotDocument → StoredSnapshot
snapshot_from_document v = record {
  id = v.id;
  incident_id = v.incident_id;
  snapshot = record {
    source = source_from_document v.snapshot.source;
    observed_at = v.snapshot.observed_at;
    labels = v.snapshot.labels;
    conditions = map condition_from_document v.snapshot.conditions;
    containers = map container_from_document v.snapshot.containers;
    workload = opt workload_from_document v.snapshot.workload;
    job = opt job_from_document v.snapshot.job;
    event = opt event_from_document v.snapshot.event;
    content_hash = v.snapshot.content_hash;
  };
  expires_at = v.expires_at;
}

abbrev pub provider_audit_to_document : ProviderAudit → ProviderAuditDocument
provider_audit_to_document v = record {
  provider = v.provider;
  requested_model = v.requested_model;
  resolved_model = v.resolved_model;
  resolved_model_hash = v.resolved_model_hash;
  provider_request_id_hash = v.provider_request_id_hash;
  usage = provider_usage_to_document v.usage;
  latency = v.latency;
  attempts = v.attempts;
  raw_response_hash = v.raw_response_hash;
}

unfoldable pub evaluation_to_document :
    {A : Type 0} → Evaluation A → Option Time → EvaluationDocument A
evaluation_to_document v expires_at = record {
  id = v.id;
  incident_id = v.incident_id;
  snapshot_hash = v.snapshot_hash;
  policy_version = v.policy_version;
  rubric_version = v.rubric_version;
  provider_config_hash = v.provider_config_hash;
  decision = decision_to_document v.decision;
  answers = v.answers;
  provider_audit = opt provider_audit_to_document v.provider_audit;
  created_at = v.created_at;
  expires_at = expires_at;
}

unfoldable pub outbox_to_document : Notification → Time → Option Time → OutboxDocument
outbox_to_document v now expires_at = record {
  id = v.id;
  evaluation_id = v.evaluation_id;
  destination_id = v.destination_id;
  event_type = v.event_type;
  status = v.status;
  attempts = v.attempts;
  next_attempt_at = v.next_attempt_at;
  payload = v.payload;
  lease_owner = "";
  lease_until = none;
  last_failure = none;
  delivered_at = none;
  updated_at = now;
  expires_at = expires_at;
}

unfoldable pub delivery_from_document : OutboxDocument → Delivery
delivery_from_document v = record {
  notification = record {
    id = v.id;
    evaluation_id = v.evaluation_id;
    destination_id = v.destination_id;
    event_type = v.event_type;
    status = v.status;
    attempts = v.attempts;
    next_attempt_at = v.next_attempt_at;
    payload = v.payload;
  };
  lease_owner = v.lease_owner;
  lease_until = v.lease_until;
  last_failure = v.last_failure;
  delivered_at = v.delivered_at;
  expires_at = v.expires_at;
}
