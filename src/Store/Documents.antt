-- ===== src/Store/Documents.antt =====
-- mapping.go: the documents, as the code builds and takes apart their structs. BSON is not modelled:
-- neither its tags (a field that is left out when it is empty reads back as empty), nor its dates,
-- which keep the milliseconds of a time, nor the generic values as which the answers of an evaluation,
-- here of a type A, would be read. Documents with an expiry are never removed here.
use ruleraven.Common.{String, Bool, Option, List}
use ruleraven.Common.Int.{ℤ, Time, Duration}
use ruleraven.Common.Maps.{Map}
use ruleraven.Notify.Dispatcher.{FailureClass}
use ruleraven.Domain.{IncidentStatus, NotificationStatus, Severity, Action}

pub record OwnerReferenceDocument : Type 0 where
  pub api_version : String
  pub kind : String
  pub name : String
  pub uid : String

pub record SourceDocument : Type 0 where
  pub cluster_id : String
  pub api_version : String
  pub kind : String
  pub namespace : String
  pub name : String
  pub uid : String
  pub resource_version : String
  pub generation : ℤ
  pub owner : Option OwnerReferenceDocument

pub record IncidentDocument : Type 0 where
  pub id : String
  pub incident_key : String
  pub cluster_id : String
  pub source : SourceDocument
  pub status : IncidentStatus
  pub opened_at : Time
  pub updated_at : Time
  pub resolved_at : Option Time
  pub content_hash : String
  pub version : ℤ
  pub expires_at : Option Time

pub record ConditionDocument : Type 0 where
  pub type : String
  pub status : String
  pub reason : String
  pub message : String
  pub last_transition_time : Time

pub record ContainerDocument : Type 0 where
  pub name : String
  pub ready : Bool
  pub restart_count : ℤ
  pub state : String
  pub reason : String
  pub exit_code : ℤ

pub record WorkloadDocument : Type 0 where
  pub desired : ℤ
  pub current : ℤ
  pub ready : ℤ
  pub available : ℤ
  pub updated : ℤ
  pub unavailable : ℤ

pub record JobDocument : Type 0 where
  pub active : ℤ
  pub succeeded : ℤ
  pub failed : ℤ
  pub backoff_limit : ℤ

pub record EventDocument : Type 0 where
  pub type : String
  pub reason : String
  pub message : String
  pub regarding_uid : String
  pub count : ℤ
  pub last_observed : Time

pub record SnapshotPayloadDocument : Type 0 where
  pub source : SourceDocument
  pub observed_at : Time
  pub labels : Map String
  pub conditions : List ConditionDocument
  pub containers : List ContainerDocument
  pub workload : Option WorkloadDocument
  pub job : Option JobDocument
  pub event : Option EventDocument
  pub content_hash : String

-- The object ID is the text of its hexadecimal digits.
pub record SnapshotDocument : Type 0 where
  pub id : String
  pub incident_id : String
  pub content_hash : String
  pub observed_at : Time
  pub snapshot : SnapshotPayloadDocument
  pub expires_at : Option Time

pub record DecisionDocument : Type 0 where
  pub severity : Severity
  pub action : Action
  pub summary : String
  pub reason_codes : List String
  pub rule_ids : List String

pub record ProviderUsageDocument : Type 0 where
  pub input_tokens : ℤ
  pub output_tokens : ℤ

pub record ProviderAuditDocument : Type 0 where
  pub provider : String
  pub requested_model : String
  pub resolved_model : String
  pub resolved_model_hash : String
  pub provider_request_id_hash : String
  pub usage : ProviderUsageDocument
  pub latency : Duration
  pub attempts : ℤ
  pub raw_response_hash : String

pub record EvaluationDocument (A : Type 0) : Type 0 where
  pub id : String
  pub incident_id : String
  pub snapshot_hash : String
  pub policy_version : String
  pub rubric_version : String
  pub provider_config_hash : String
  pub decision : DecisionDocument
  pub answers : Map A
  pub provider_audit : Option ProviderAuditDocument
  pub created_at : Time
  pub expires_at : Option Time

-- `last_failure` is the text of a failure class; `none` is the empty text before a first failure.
pub record OutboxDocument : Type 0 where
  pub id : String
  pub evaluation_id : String
  pub destination_id : String
  pub event_type : String
  pub status : NotificationStatus
  pub attempts : ℤ
  pub next_attempt_at : Time
  pub payload : String
  pub lease_owner : String
  pub lease_until : Option Time
  pub last_failure : Option FailureClass
  pub delivered_at : Option Time
  pub updated_at : Time
  pub expires_at : Option Time
