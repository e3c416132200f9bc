-- ===== src/Tests/ConfigTests.antt =====
-- internal/config at a concrete configuration.
use ruleraven.Common.{
  ◌≡◌, refl, String, Bool, true, false, Option, none, some, [], ◌∷◌, trim_space, lower_is, lowered,
  cut_equals,
}
use ruleraven.Common.Int.{pos}
use ruleraven.Common.Checks.{first_error}
use ruleraven.Config.{Config, Options, DestinationConfig}
use ruleraven.Config.Validate
use ruleraven.Config.Safe.{IsSafe, validate-IsSafe}

abbrev ops : DestinationConfig
ops = record {
  id = "ops";
  type = "webhook";
  url = "https://ops.example";
  credential_env = "SECRET";
  allow_insecure_http = false;
  timeout = pos 5;
  max_response_bytes = pos 1024;
  max_retry_after = pos 60;
}

abbrev config : Config
config = record {
  version = "v1alpha1";
  cluster = record {
    id = "c1";
    cluster_wide = false;
    namespace_only = true;
    watch_namespaces = "prod" ∷ [];
    resources = "Pods" ∷ "jobs" ∷ [];
  };
  controller = record {
    workers = pos 2;
    reconcile_timeout = pos 30;
    max_normalized_state_bytes = pos 4096;
  };
  mongo = record { uri_env = "URI"; database = "ruleraven"; timeout = pos 10 };
  rules = record {
    crash_loop_restart_threshold = pos 3;
    crash_loop_critical_threshold = pos 10;
    minimum_age = pos 60;
    event_quiet_period = pos 300;
    ignored_namespaces = [];
    ignored_labels = "team=test" ∷ [];
  };
  decision = record {
    primary = record {
      type = "openai";
      model = "m";
      credential_env = "KEY";
      endpoint = "";
      strict_mode = "";
    };
    fallback = none;
    timeout = pos 20;
  };
  notifications = record {
    destinations = ops ∷ [];
    retry = record { max_attempts = pos 5; initial_backoff = pos 1; max_backoff = pos 60 };
  };
  http = record {
    address = ":8080";
    read_timeout = pos 5;
    write_timeout = pos 5;
    idle_timeout = pos 5;
  };
  logging = record { level = "info" };
}

abbrev options : Options
options = record {
  lookup_env = some (λ name. some "set");
  provider_types = "openai" ∷ [];
  notifier_types = "webhook" ∷ [];
}

abbrev parsed : String → Option Validate.Url
parsed url = some (record {
  scheme = "https";
  host = "ops.example";
  has_user = false;
  raw_query = "";
  fragment = "";
})

abbrev valid : String → Bool
valid s = true

verdict : Config → Option Validate.ConfigError
unfolding Validate.validate Validate.cluster_errors Validate.namespace_errors
    Validate.resource_errors Validate.controller_errors Validate.mongo_errors
    Validate.require_environment Validate.validate_provider Validate.endpoint_errors
    Validate.fallback_errors Validate.rules_errors Validate.destination_id_errors
    Validate.destination_errors Validate.retry_errors Validate.http_errors first_error trim_space
    lower_is lowered cut_equals
verdict c = Validate.validate parsed parsed valid valid c options

config-valid : Validate.validate parsed parsed valid valid config options ≡ none
unfolding verdict
config-valid = refl

secrets_refused :
    verdict
      (record config { cluster = record config.cluster { resources = "pods" ∷ " Secrets" ∷ [] } })
    ≡ some Validate.secret_resource
unfolding verdict
secrets_refused = refl

validate-IsSafe_example : IsSafe parsed parsed valid valid config options
validate-IsSafe_example = validate-IsSafe parsed parsed valid valid config options config-valid
