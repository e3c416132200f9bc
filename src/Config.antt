-- ===== src/Config.antt =====
-- internal/config: the configuration, its defaults and its validation. The decoding of YAML, the
-- parsing of URLs and the syntax of Kubernetes labels are libraries'.
pub mod Validate
pub mod Parts
pub mod Safe
use ruleraven.Common.{String, ◌==◌, Bool, Option, List, if◌then◌else◌}
use ruleraven.Common.Int.{ℤ, pos, Duration, eqb_ℤ}

pub record ClusterConfig : Type 0 where
  pub id : String
  pub cluster_wide : Bool
  pub namespace_only : Bool
  pub watch_namespaces : List String
  pub resources : List String

pub record ControllerConfig : Type 0 where
  pub workers : ℤ
  pub reconcile_timeout : Duration
  pub max_normalized_state_bytes : ℤ

pub record MongoConfig : Type 0 where
  pub uri_env : String
  pub database : String
  pub timeout : Duration

pub record RulesConfig : Type 0 where
  pub crash_loop_restart_threshold : ℤ
  pub crash_loop_critical_threshold : ℤ
  pub minimum_age : Duration
  pub event_quiet_period : Duration
  pub ignored_namespaces : List String
  pub ignored_labels : List String

pub record ProviderConfig : Type 0 where
  pub type : String
  pub model : String
  pub credential_env : String
  pub endpoint : String
  pub strict_mode : String

pub record DecisionConfig : Type 0 where
  pub primary : ProviderConfig
  pub fallback : Option ProviderConfig
  pub timeout : Duration

pub record DestinationConfig : Type 0 where
  pub id : String
  pub type : String
  pub url : String
  pub credential_env : String
  pub allow_insecure_http : Bool
  pub timeout : Duration
  pub max_response_bytes : ℤ
  pub max_retry_after : Duration

pub record RetryConfig : Type 0 where
  pub max_attempts : ℤ
  pub initial_backoff : Duration
  pub max_backoff : Duration

pub record NotificationsConfig : Type 0 where
  pub destinations : List DestinationConfig
  pub retry : RetryConfig

pub record HttpConfig : Type 0 where
  pub address : String
  pub read_timeout : Duration
  pub write_timeout : Duration
  pub idle_timeout : Duration

pub record LoggingConfig : Type 0 where
  pub level : String

pub record Config : Type 0 where
  pub version : String
  pub cluster : ClusterConfig
  pub controller : ControllerConfig
  pub mongo : MongoConfig
  pub rules : RulesConfig
  pub decision : DecisionConfig
  pub notifications : NotificationsConfig
  pub http : HttpConfig
  pub logging : LoggingConfig

-- The registered types are sets; the environment may be missing.
pub record Options : Type 0 where
  pub lookup_env : Option (String → Option String)
  pub provider_types : List String
  pub notifier_types : List String

unfoldable pub apply_defaults : Config → Config
apply_defaults c = record c {
  controller = record c.controller {
    workers = if eqb_ℤ c.controller.workers (pos 0) then pos 2 else c.controller.workers;
  };
  http = record c.http { address = if c.http.address == "" then ":8080" else c.http.address };
  logging = record c.logging { level = if c.logging.level == "" then "info" else c.logging.level };
}
