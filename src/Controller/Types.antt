-- ===== src/Controller/Types.antt =====
-- reconciler.go: what the reconciler is made of. The store, the cluster, the clock, the providers,
-- the metrics and the log act on a world S; O is a Kubernetes object, A the answers of a provider's
-- float type F, and E the errors of whatever is called.
use ruleraven.Common.{String, Bool, Option, List}
use ruleraven.Common.Int.{ℤ, Time, Duration}
use ruleraven.Domain.{
  Incident, IncidentStatus, Snapshot, Evaluation, Notification, Source, Severity, Action,
}
use ruleraven.Rules.{Result}
use ruleraven.Provider.Question.{Answer}
use ruleraven.Provider.Contract.{Provider}
use ruleraven.Provider.Float.{Float64}
use ruleraven.Decision.Compose.{Composer}
use ruleraven.Kube.{ResourceKey}
use ruleraven.Kube.Fingerprint.{CanonicalSnapshot}
use ruleraven.Provider.Validate

-- internal/store/store.go
pub record CommitRequest (F : Type 0) : Type 0 where
  pub incident : Incident
  pub expected_version : ℤ
  pub evaluation : Evaluation (Answer F)
  pub deliveries : List Notification
  pub expires_at : Option Time

pub data Found (E : Type 0) : Type 0 where
  found : Incident → Found E
  no_incident : Found E
  get_failed : E → Found E

-- The incident that is there after the upsert, and whether it was created.
pub data Upserted (E : Type 0) : Type 0 where
  upserted : Incident → Bool → Upserted E
  upsert_failed : E → Upserted E

pub record IncidentStore (S F E : Type 0) : Type 0 where
  pub get_incident : String → String → S → Found E × S
  pub upsert_incident : Incident → Option Time → S → Upserted E × S
  pub upsert_snapshot : String → Snapshot → Option Time → S → Option E × S
  pub commit : CommitRequest F → S → Option E × S

-- What resolving a key gives, and what normalizing an object gives.
pub data Resolved (O E : Type 0) : Type 0 where
  resolved : O → Resolved O E
  no_resource : Resolved O E
  resolve_failed : E → Resolved O E

pub data Normalized (E : Type 0) : Type 0 where
  normalized : Snapshot → Normalized E
  normalize_failed : E → Normalized E

pub record Metrics (S : Type 0) : Type 0 where
  pub observe_reconcile : String → S → S
  pub observe_incident_transition : IncidentStatus → Severity → String → S → S
  pub observe_provider_request : String → String → String → ℤ → S → S

pub record ProviderLog : Type 0 where
  pub provider : String
  pub model : String
  pub request_id : String
  pub outcome : String
  pub attempts : ℤ

-- What a delivery tells, before it is JSON.
pub record Payload : Type 0 where
  pub incident_id : String
  pub evaluation_id : String
  pub status : IncidentStatus
  pub severity : Severity
  pub action : Action
  pub summary : String
  pub resource : Source
  pub rule_ids : List String
  pub reason_codes : List String
  pub observed_at : Time

-- The functions of the standard library that the reconciler calls: JSON encodings and SHA-256.
pub record Encoding : Type 0 where
  pub marshal_snapshot : Snapshot → Option String
  pub marshal_payload : Payload → Option String
  pub marshal_canonical : CanonicalSnapshot → Option String
  pub sha256 : String → String

pub record Reconciler (S O E : Type 0) (fl : Float64) : Type 0 where
  pub cluster_id : String
  pub resolve : ResourceKey → S → Resolved O E × S
  pub normalize : O → Time → Normalized E
  pub evaluate : Snapshot → Option Incident → S → Result × S
  pub store : IncidentStore S fl.F E
  pub primary : Provider S fl.F E
  pub fallback : Option (Provider S fl.F E)
  pub composer : Composer fl
  pub provider_config_hash : String
  pub destinations : List String
  pub timeout : Duration
  pub event_quiet_period : Duration
  pub now : S → Time × S
  pub new_id : String → String
  pub metrics : Option (Metrics S)
  pub log_reconcile : ResourceKey → String → S → S
  pub log_provider : ProviderLog → S → S

-- Why an evaluation by a provider counts for nothing.
pub data ProviderError (E : Type 0) : Type 0 where
  provider_failed : E → ProviderError E
  inconsistent_metadata : ProviderError E
  invalid_answers : Validate.Error → ProviderError E
  state_not_marshalled : ProviderError E

pub data ReconcileError (E : Type 0) : Type 0 where
  bad_key not_fingerprinted : ReconcileError E
  not_resolved not_normalized not_gotten not_upserted no_snapshot not_committed :
      E → ReconcileError E
