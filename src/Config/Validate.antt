-- ===== src/Config/Validate.antt =====
-- validate.go: the checks of a configuration, in their order.
use ruleraven.Common.{
  String, ◌==◌, Bool, false, not, ◌&&◌, ◌||◌, Option, none, some, List, [], ◌∷◌, any, is_empty,
  contains, if◌then◌else◌, trim_space, lower_is, lowered, same_codes, cut_equals,
}
use ruleraven.Common.Int.{pos, leb_ℤ, ltb_ℤ}
use ruleraven.Common.Checks.{◌orelse◌, fail_if, first_error}
use ruleraven.Config.{
  ClusterConfig, ControllerConfig, MongoConfig, RulesConfig, ProviderConfig, DestinationConfig,
  RetryConfig, HttpConfig, Config, Options,
}

pub data ConfigError : Type 0 where
  bad_version bad_level no_cluster_id scope_conflict no_namespaces blank_namespace : ConfigError
  duplicate_namespace no_resources secret_resource unsupported_resource : ConfigError
  duplicate_resource bad_workers bad_reconcile_timeout bad_state_bytes no_database : ConfigError
  administrative_database bad_mongo_timeout no_variable no_lookup unset_variable : ConfigError
  same_fallback bad_decision_timeout bad_thresholds bad_rule_durations padded_selector : ConfigError
  bad_selector no_destination_id duplicate_destination unknown_notifier bad_url : ConfigError
  insecure_url bad_scheme bad_destination_timeout bad_response_bytes bad_retry_after : ConfigError
  bad_max_attempts bad_initial_backoff bad_max_backoff bad_http_timeouts : ConfigError
  unknown_provider no_model bad_endpoint bad_strict_mode native_override : ConfigError

-- A URL, as far as the checks look at it.
pub record Url : Type 0 where
  pub scheme : String
  pub host : String
  pub has_user : Bool
  pub raw_query : String
  pub fragment : String

abbrev pub is_blank : String → Bool
is_blank s = trim_space s == ""

abbrev pub administrative_databases : List String
administrative_databases = "admin" ∷ "local" ∷ "config" ∷ []

abbrev pub supported_kubernetes_resources : List String
supported_kubernetes_resources =
    "pods" ∷ "events" ∷ "deployments" ∷ "statefulsets" ∷ "daemonsets" ∷ "jobs" ∷ []

-- `strings.ToLower(strings.TrimSpace(resource)) == name`
abbrev pub reads_as : String → String → Bool
reads_as resource name = lower_is (trim_space resource) name

unfoldable pub namespace_errors : List String → List String → Option ConfigError
namespace_errors [] seen = none
namespace_errors (n ∷ ns) seen =
    fail_if (is_blank n) blank_namespace
    orelse fail_if (contains seen (trim_space n)) duplicate_namespace
    orelse namespace_errors ns (trim_space n ∷ seen)

-- A name seen is kept as it is written, and compared trimmed and in lower case.
unfoldable pub resource_errors : List String → List String → Option ConfigError
resource_errors [] seen = none
resource_errors (r ∷ rs) seen =
    fail_if (reads_as r "secret" || reads_as r "secrets") secret_resource
    orelse fail_if (not (any (reads_as r) supported_kubernetes_resources)) unsupported_resource
    orelse fail_if (any (λ s. same_codes (lowered (trim_space r)) (lowered (trim_space s))) seen)
        duplicate_resource
    orelse resource_errors rs (r ∷ seen)

unfoldable pub cluster_errors : ClusterConfig → Option ConfigError
cluster_errors c =
    fail_if (is_blank c.id) no_cluster_id
    orelse fail_if (c.cluster_wide && c.namespace_only) scope_conflict
    orelse fail_if (not c.cluster_wide && is_empty c.watch_namespaces) no_namespaces
    orelse namespace_errors c.watch_namespaces []
    orelse fail_if (is_empty c.resources) no_resources
    orelse resource_errors c.resources []

unfoldable pub controller_errors : ControllerConfig → Option ConfigError
controller_errors c =
    fail_if (leb_ℤ c.workers (pos 0)) bad_workers
    orelse fail_if (leb_ℤ c.reconcile_timeout (pos 0)) bad_reconcile_timeout
    orelse fail_if (leb_ℤ c.max_normalized_state_bytes (pos 0)) bad_state_bytes

-- A variable that is set and not empty.
abbrev pub is_set : Option String → Bool
is_set none = false
is_set (some value) = not (value == "")

abbrev pub variable_errors : Option (String → Option String) → String → Option ConfigError
variable_errors none name = some no_lookup
variable_errors (some lookup_env) name = fail_if (not (is_set (lookup_env name))) unset_variable

unfoldable pub require_environment : String → Options → Option ConfigError
require_environment name o =
    fail_if (is_blank name) no_variable orelse variable_errors o.lookup_env name

unfoldable pub mongo_errors : MongoConfig → Options → Option ConfigError
mongo_errors m o =
    fail_if (is_blank m.database) no_database
    orelse fail_if (any (lower_is m.database) administrative_databases) administrative_database
    orelse fail_if (leb_ℤ m.timeout (pos 0)) bad_mongo_timeout
    orelse require_environment m.uri_env o

unfoldable pub rules_errors : (String → Bool) → (String → Bool) → RulesConfig → Option ConfigError
rules_errors is_qualified_name is_valid_label_value r =
    fail_if
      (leb_ℤ r.crash_loop_restart_threshold (pos 0)
        || ltb_ℤ r.crash_loop_critical_threshold r.crash_loop_restart_threshold)
      bad_thresholds
    orelse fail_if (leb_ℤ r.minimum_age (pos 0) || leb_ℤ r.event_quiet_period (pos 0))
        bad_rule_durations
    orelse first_error
        (λ selector.
          fail_if (not (selector == trim_space selector)) padded_selector
          orelse fail_if (not (is_qualified_name (cut_equals selector).0)) bad_selector
          orelse fail_if
              ((cut_equals selector).2 && not (is_valid_label_value (cut_equals selector).1))
              bad_selector)
        r.ignored_labels

-- The first loop over the destinations.
unfoldable pub destination_id_errors : List DestinationConfig → List String → Option ConfigError
destination_id_errors [] seen = none
destination_id_errors (d ∷ ds) seen =
    fail_if (d.id == "") no_destination_id
    orelse fail_if (contains seen d.id) duplicate_destination
    orelse destination_id_errors ds (d.id ∷ seen)

abbrev pub url_errors : Option Url → Bool → Option ConfigError
url_errors none insecure = some bad_url
url_errors (some u) insecure =
    fail_if (u.host == "") bad_url
    orelse fail_if (u.scheme == "http" && not insecure) insecure_url
    orelse fail_if (not (u.scheme == "https") && not (u.scheme == "http")) bad_scheme

unfoldable pub destination_errors :
    (String → Option Url) → Options → DestinationConfig → Option ConfigError
destination_errors parse_request_uri o d =
    fail_if (not (contains o.notifier_types d.type)) unknown_notifier
    orelse url_errors (parse_request_uri d.url) d.allow_insecure_http
    orelse require_environment d.credential_env o
    orelse fail_if (leb_ℤ d.timeout (pos 0)) bad_destination_timeout
    orelse fail_if (leb_ℤ d.max_response_bytes (pos 0)) bad_response_bytes
    orelse fail_if (leb_ℤ d.max_retry_after (pos 0)) bad_retry_after

abbrev pub is_plain_https : Option Url → Bool
is_plain_https none = false
is_plain_https (some u) =
    u.scheme == "https"
    && not (u.host == "")
    && not u.has_user
    && u.raw_query == ""
    && u.fragment == ""

unfoldable pub endpoint_errors : (String → Option Url) → ProviderConfig → Option ConfigError
endpoint_errors parse_url p =
    if p.type == "openai-compatible"
    then fail_if (not (is_plain_https (parse_url (trim_space p.endpoint)))) bad_endpoint
      orelse fail_if (not (p.strict_mode == "json_schema") && not (p.strict_mode == "forced_tool"))
          bad_strict_mode
    else fail_if (not (is_blank p.endpoint) || not (is_blank p.strict_mode)) native_override

unfoldable pub validate_provider :
    (String → Option Url) → Options → ProviderConfig → Option ConfigError
validate_provider parse_url o p =
    fail_if (not (contains o.provider_types p.type)) unknown_provider
    orelse fail_if (is_blank p.model) no_model
    orelse endpoint_errors parse_url p
    orelse require_environment p.credential_env o

unfoldable pub fallback_errors :
    (String → Option Url) → Options → String → Option ProviderConfig → Option ConfigError
fallback_errors parse_url o primary none = none
fallback_errors parse_url o primary (some f) =
    fail_if (f.type == primary) same_fallback orelse validate_provider parse_url o f

unfoldable pub retry_errors : RetryConfig → Option ConfigError
retry_errors r =
    fail_if (leb_ℤ r.max_attempts (pos 0)) bad_max_attempts
    orelse fail_if (leb_ℤ r.initial_backoff (pos 0)) bad_initial_backoff
    orelse fail_if (ltb_ℤ r.max_backoff r.initial_backoff) bad_max_backoff

unfoldable pub http_errors : HttpConfig → Option ConfigError
http_errors h =
    fail_if
      (leb_ℤ h.read_timeout (pos 0)
        || leb_ℤ h.write_timeout (pos 0)
        || leb_ℤ h.idle_timeout (pos 0))
      bad_http_timeouts

module _ (parse_url parse_request_uri : String → Option Url)
    (is_qualified_name is_valid_label_value : String → Bool) where
  unfoldable pub validate : Config → Options → Option ConfigError
  validate c o =
      fail_if (not (c.version == "v1alpha1")) bad_version
      orelse fail_if
          (not (any (reads_as c.logging.level) ("debug" ∷ "info" ∷ "warn" ∷ "error" ∷ [])))
          bad_level
      orelse cluster_errors c.cluster
      orelse controller_errors c.controller
      orelse mongo_errors c.mongo o
      orelse validate_provider parse_url o c.decision.primary
      orelse fallback_errors parse_url o c.decision.primary.type c.decision.fallback
      orelse fail_if (leb_ℤ c.decision.timeout (pos 0)) bad_decision_timeout
      orelse rules_errors is_qualified_name is_valid_label_value c.rules
      orelse destination_id_errors c.notifications.destinations []
      orelse first_error (destination_errors parse_request_uri o) c.notifications.destinations
      orelse retry_errors c.notifications.retry
      orelse http_errors c.http
