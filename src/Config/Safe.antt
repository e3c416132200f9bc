-- ===== src/Config/Safe.antt =====
-- What a configuration that validates guarantees.
use ruleraven.Common.{
  ◌≡◌, ◌≢◌, trim_space, ◌⊎◌, inl, inr, String, ◌==◌, Bool, true, false, Option, none, some, [], any,
  All, All-map, contains, arith, Bool-cases, is_empty, lower_is, eq_iff,
}
use ruleraven.Common.Int.{pos, ◌≤ℤ◌, ◌<ℤ◌}
use ruleraven.Common.Checks.{first_error, first_error-All}
use ruleraven.Config.{ProviderConfig, RulesConfig, DestinationConfig, Config, Options}
use ruleraven.Config.Validate.{
  Url, administrative_databases, cluster_errors, controller_errors, mongo_errors, rules_errors,
  destination_id_errors, destination_errors, validate_provider, retry_errors, validate,
  fallback_errors, endpoint_errors, http_errors,
}
use ruleraven.Config.Parts.{
  InEnvironment, IsWatchable, IsPlainHttps, IsSecure, DistinctIds, require_environment_lem,
  resource_errors-All, url_errors-IsSecure, destination_id_errors-DistinctIds, cluster_errors_lem,
  mongo_errors_lem, retry_errors_lem, http_errors_lem, controller_errors_lem,
  is_plain_https-IsPlainHttps,
}

module _ (parse_url parse_request_uri : String → Option Url)
    (is_qualified_name is_valid_label_value : String → Bool) where
  -- A destination that may be delivered to.
  abbrev pub IsDeliverable : Options → DestinationConfig → Type 0
  IsDeliverable o d =
      (contains o.notifier_types d.type ≡ true)
      × IsSecure (parse_request_uri d.url) d.allow_insecure_http
      × InEnvironment o d.credential_env
      × (pos 0 <ℤ d.timeout)
      × (pos 0 <ℤ d.max_response_bytes)
      × (pos 0 <ℤ d.max_retry_after)

  destination_errors-IsDeliverable :
      (o : Options) (d : DestinationConfig)
      → destination_errors parse_request_uri o d ≡ none
      → IsDeliverable o d
  unfolding destination_errors
  destination_errors-IsDeliverable o d h = (
    ground (arith, h),
    url_errors-IsSecure (parse_request_uri d.url) d.allow_insecure_http (ground (arith, h)),
    require_environment_lem d.credential_env o (ground (arith, h)),
    ground (arith, h),
    ground (arith, h),
    ground (arith, h),
  )

  -- A provider of a registered type, with a model and a credential that is set, and with an endpoint
  -- of its own exactly where its type takes one.
  abbrev pub IsUsableProvider : Options → ProviderConfig → Type 0
  IsUsableProvider o p =
      (contains o.provider_types p.type ≡ true)
      × (trim_space p.model == "" ≡ false)
      × InEnvironment o p.credential_env
      × (((p.type ≡ "openai-compatible") × IsPlainHttps (parse_url (trim_space p.endpoint)))
          ⊎ ((p.type ≢ "openai-compatible")
              × (trim_space p.endpoint == "" ≡ true)
              × (trim_space p.strict_mode == "" ≡ true)))

  -- None, or a usable provider of another type than the primary one.
  abbrev pub IsUsableFallback : Options → String → Option ProviderConfig → Type 0
  IsUsableFallback o primary none = Unit
  IsUsableFallback o primary (some f) = (f.type ≢ primary) × IsUsableProvider o f

  -- The boundaries of a configuration.
  pub record IsSafe (c : Config) (o : Options) : Type 0 where
    pub resources : All IsWatchable c.cluster.resources
    pub scope :
        ((c.cluster.cluster_wide ≡ true) × (c.cluster.namespace_only ≡ false))
        ⊎ ((c.cluster.cluster_wide ≡ false) × (is_empty c.cluster.watch_namespaces ≡ false))
    pub database : any (lower_is c.mongo.database) administrative_databases ≡ false
    pub mongo_uri : InEnvironment o c.mongo.uri_env
    pub mongo_timeout : pos 0 <ℤ c.mongo.timeout
    pub primary : IsUsableProvider o c.decision.primary
    pub fallback : IsUsableFallback o c.decision.primary.type c.decision.fallback
    pub decision_timeout : pos 0 <ℤ c.decision.timeout
    pub controller :
        (pos 0 <ℤ c.controller.workers)
        × (pos 0 <ℤ c.controller.reconcile_timeout)
        × (pos 0 <ℤ c.controller.max_normalized_state_bytes)
    pub rules :
        (pos 0 <ℤ c.rules.crash_loop_restart_threshold)
        × (c.rules.crash_loop_restart_threshold ≤ℤ c.rules.crash_loop_critical_threshold)
        × (pos 0 <ℤ c.rules.minimum_age)
        × (pos 0 <ℤ c.rules.event_quiet_period)
    pub ids : DistinctIds c.notifications.destinations
    pub destinations : All (IsDeliverable o) c.notifications.destinations
    pub retry :
        (pos 0 <ℤ c.notifications.retry.max_attempts)
        × (pos 0 <ℤ c.notifications.retry.initial_backoff)
        × (c.notifications.retry.initial_backoff ≤ℤ c.notifications.retry.max_backoff)
    pub http :
        (pos 0 <ℤ c.http.read_timeout)
        × (pos 0 <ℤ c.http.write_timeout)
        × (pos 0 <ℤ c.http.idle_timeout)

  rules_errors_lem :
      (r : RulesConfig)
      → rules_errors is_qualified_name is_valid_label_value r ≡ none
      → (pos 0 <ℤ r.crash_loop_restart_threshold)
        × (r.crash_loop_restart_threshold ≤ℤ r.crash_loop_critical_threshold)
        × (pos 0 <ℤ r.minimum_age)
        × (pos 0 <ℤ r.event_quiet_period)
  unfolding rules_errors
  rules_errors_lem r h =
      (ground (arith, h), ground (arith, h), ground (arith, h), ground (arith, h))

  endpoint_errors_lem :
      (p : ProviderConfig)
      → endpoint_errors parse_url p ≡ none
      → ((p.type ≡ "openai-compatible") × IsPlainHttps (parse_url (trim_space p.endpoint)))
        ⊎ ((p.type ≢ "openai-compatible")
            × (trim_space p.endpoint == "" ≡ true)
            × (trim_space p.strict_mode == "" ≡ true))
  unfolding endpoint_errors
  endpoint_errors_lem p h = elim (Bool-cases (p.type == "openai-compatible")) [
    | inl e ↦ inl (
      (eq_iff p.type "openai-compatible").0 e,
      is_plain_https-IsPlainHttps (parse_url (trim_space p.endpoint)) (ground (arith, h, e)),
    )
    | inr e ↦ inr (
      (λ t. grind (arith, e, (eq_iff p.type "openai-compatible").1 t)),
      ground (arith, h, e),
      ground (arith, h, e),
    )
  ]

  provider_errors_lem :
      (p : ProviderConfig) (o : Options)
      → validate_provider parse_url o p ≡ none
      → IsUsableProvider o p
  unfolding validate_provider
  provider_errors_lem p o h = (
    ground (arith, h),
    ground (arith, h),
    require_environment_lem p.credential_env o (ground (arith, h)),
    endpoint_errors_lem p (ground (arith, h)),
  )

  fallback_errors_lem :
      (f : Option ProviderConfig) (primary : String) (o : Options)
      → fallback_errors parse_url o primary f ≡ none
      → IsUsableFallback o primary f
  unfolding fallback_errors
  fallback_errors_lem none primary o h = tt
  fallback_errors_lem (some f) primary o h = (
    (λ e. ground (arith, h, (eq_iff f.type primary).1 e)),
    provider_errors_lem f o (ground (arith, h)),
  )

  -- No check of a configuration that validates has failed.
  validate_parts :
      (c : Config) (o : Options)
      → validate parse_url parse_request_uri is_qualified_name is_valid_label_value c o ≡ none
      → (cluster_errors c.cluster ≡ none)
        × (controller_errors c.controller ≡ none)
        × (mongo_errors c.mongo o ≡ none)
        × (validate_provider parse_url o c.decision.primary ≡ none)
        × (rules_errors is_qualified_name is_valid_label_value c.rules ≡ none)
        × (destination_id_errors c.notifications.destinations [] ≡ none)
        × (first_error (destination_errors parse_request_uri o) c.notifications.destinations ≡ none)
        × (retry_errors c.notifications.retry ≡ none)
        × (fallback_errors parse_url o c.decision.primary.type c.decision.fallback ≡ none)
        × (pos 0 <ℤ c.decision.timeout)
        × (http_errors c.http ≡ none)
  unfolding validate
  validate_parts c o h = (
    ground (arith, h),
    ground (arith, h),
    ground (arith, h),
    ground (arith, h),
    ground (arith, h),
    ground (arith, h),
    ground (arith, h),
    ground (arith, h),
    ground (arith, h),
    ground (arith, h),
    ground (arith, h),
  )

  -- A configuration that validates watches supported resources alone and never Secrets, has a scope
  -- that does not contradict itself, keeps off the administrative databases, and finds the variable of
  -- the database set. Its primary provider, and its fallback if there is one, are of a registered
  -- type, have a model and a credential that is set, and have an endpoint, over plain HTTPS, only
  -- where the type takes one; the fallback is of another type than the primary provider. Its
  -- destinations have distinct ids, and each has a registered type, a URL over HTTPS (or over HTTP
  -- where that is allowed), a credential that is set, and positive limits. The workers, the size of
  -- the state, the attempts, the durations of the rules and every timeout are positive, the rule
  -- thresholds are positive and in order, and the first delivery backoff is positive and at most the
  -- maximum.
  pub validate-IsSafe :
      (c : Config) (o : Options)
      → validate parse_url parse_request_uri is_qualified_name is_valid_label_value c o ≡ none
      → IsSafe c o
  validate-IsSafe c o h =
      let (
        cluster, controller, mongo, primary, rules, ids, destinations, retry, fallback, timeout,
        http,
      ) =
        validate_parts c o h in
      record {
        resources =
            resource_errors-All c.cluster.resources [] (cluster_errors_lem c.cluster cluster).0;
        scope = (cluster_errors_lem c.cluster cluster).1;
        database = (mongo_errors_lem c.mongo o mongo).0;
        mongo_uri = require_environment_lem c.mongo.uri_env o (mongo_errors_lem c.mongo o mongo).1;
        mongo_timeout = (mongo_errors_lem c.mongo o mongo).2;
        primary = provider_errors_lem c.decision.primary o primary;
        fallback = fallback_errors_lem c.decision.fallback c.decision.primary.type o fallback;
        decision_timeout = timeout;
        controller = controller_errors_lem c.controller controller;
        rules = rules_errors_lem c.rules rules;
        ids = destination_id_errors-DistinctIds c.notifications.destinations [] ids;
        destinations =
            All-map (λ d. destination_errors parse_request_uri o d ≡ none) (IsDeliverable o)
              c.notifications.destinations (destination_errors-IsDeliverable o)
              (first_error-All (destination_errors parse_request_uri o) c.notifications.destinations
                destinations);
        retry = retry_errors_lem c.notifications.retry retry;
        http = http_errors_lem c.http http;
      }
