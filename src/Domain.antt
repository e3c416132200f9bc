-- ===== src/Domain.antt =====
-- internal/domain: the values that the other components exchange. Times and durations are those of
-- Common.Int; an int, int32 or int64 is a ℤ. JSON tags are not modelled.
use ruleraven.Common.{ℕ, String, Bool, Option, List}
use ruleraven.Common.Int.{ℤ, Time, Duration}
use ruleraven.Common.Maps.{Map}

-- A Go string; `severity_unset` is the empty one.
pub data Severity : Type 0 where
  severity_info severity_warning severity_critical severity_unset : Severity

-- A Go string; `action_unset` is the empty one.
pub data Action : Type 0 where
  action_record action_notify action_page action_suppress action_unset : Action

pub record Decision : Type 0 where
  pub severity : Severity
  pub action : Action
  pub summary : String
  pub reason_codes : List String
  pub rule_ids : List String

pub record ProviderUsage : Type 0 where
  pub input_tokens : ℤ
  pub output_tokens : ℤ

pub record ProviderAudit : Type 0 where
  pub provider : String
  pub requested_model : String
  pub resolved_model : String
  pub resolved_model_hash : String
  pub provider_request_id_hash : String
  pub usage : ProviderUsage
  pub latency : Duration
  pub attempts : ℤ
  pub raw_response_hash : String

-- `Answers map[string]any` holds the answers of a provider, of the type A.
pub record Evaluation (A : Type 0) : Type 0 where
  pub id : String
  pub incident_id : String
  pub snapshot_hash : String
  pub policy_version : String
  pub rubric_version : String
  pub provider_config_hash : String
  pub decision : Decision
  pub answers : Map A
  pub provider_audit : Option ProviderAudit
  pub created_at : Time

pub data IncidentStatus : Type 0 where
  incident_open incident_resolved incident_suppressed : IncidentStatus

pub record OwnerReference : Type 0 where
  pub api_version : String
  pub kind : String
  pub name : String
  pub uid : String

pub record Source : Type 0 where
  pub cluster_id : String
  pub api_version : String
  pub kind : String
  pub namespace : String
  pub name : String
  pub uid : String
  pub resource_version : String
  pub generation : ℤ
  pub owner : Option OwnerReference

pub record Incident : Type 0 where
  pub id : String
  pub key : String
  pub cluster_id : String
  pub source : Source
  pub status : IncidentStatus
  pub opened_at : Time
  pub updated_at : Time
  pub resolved_at : Option Time
  pub content_hash : String
  pub version : ℤ

-- A Go string; `notification_unset` is the empty one.
pub data NotificationStatus : Type 0 where
  notification_pending notification_delivering notification_delivered : NotificationStatus
  notification_failed notification_unset : NotificationStatus

-- The payload is JSON text; the empty text is the empty `RawMessage`.
pub record Notification : Type 0 where
  pub id : String
  pub evaluation_id : String
  pub destination_id : String
  pub event_type : String
  pub status : NotificationStatus
  pub attempts : ℤ
  pub next_attempt_at : Time
  pub payload : String

pub record Condition : Type 0 where
  pub type : String
  pub status : String
  pub reason : String
  pub message : String
  pub last_transition_time : Time

pub record ContainerState : Type 0 where
  pub name : String
  pub ready : Bool
  pub restart_count : ℤ
  pub state : String
  pub reason : String
  pub exit_code : ℤ

pub record WorkloadState : Type 0 where
  pub desired : ℤ
  pub current : ℤ
  pub ready : ℤ
  pub available : ℤ
  pub updated : ℤ
  pub unavailable : ℤ

pub record JobState : Type 0 where
  pub active : ℤ
  pub succeeded : ℤ
  pub failed : ℤ
  pub backoff_limit : ℤ

pub record EventState : Type 0 where
  pub type : String
  pub reason : String
  pub message : String
  pub regarding_uid : String
  pub count : ℤ
  pub last_observed : Time

pub record Snapshot : Type 0 where
  pub source : Source
  pub observed_at : Time
  pub labels : Map String
  pub conditions : List Condition
  pub containers : List ContainerState
  pub workload : Option WorkloadState
  pub job : Option JobState
  pub event : Option EventState
  pub content_hash : String

-- `severityRank`, which internal/rules and internal/decision each declare alike.
abbrev pub severity_rank : Severity → ℕ
severity_rank severity_critical = 3
severity_rank severity_warning = 2
severity_rank severity_info = 1
severity_rank severity_unset = 0
