-- ===== src/Notify/Webhook/Factory.antt =====
-- webhook.go: `New`. An HTTP client of the standard library is made to follow no redirect, and any
-- other is taken as it is; both stand behind one parameter.
use ruleraven.Common.{
  String, ◌==◌, Bool, true, false, not, ◌&&◌, ◌||◌, Option, none, some, if◌then◌else◌, trim_space,
}
use ruleraven.Common.Int.{ℤ, pos, Time, Duration, leb_ℤ}
use ruleraven.Notify.Webhook.{Endpoint, Lookup, Request, Exchange, ContextEnd, Webhook, is_bad_host}

-- What the factory is given: the client and the lookup where they are set, and the clock.
pub record FactoryConfig (S : Type 0) : Type 0 where
  pub destination_id : String
  pub endpoint : String
  pub secret : String
  pub timeout : Duration
  pub max_response_bytes : ℤ
  pub max_retry_after : Duration
  pub allow_insecure_http : Bool
  pub allow_private_network : Bool
  pub http_client : Option (Request → S → Exchange × S)
  pub lookup_ip : Option (String → S → Lookup × S)
  pub now : Option (S → Time × S)

pub data WebhookError : Type 0 where
  no_destination no_secret bad_timeout bad_limit bad_retry_after bad_endpoint user_or_fragment :
      WebhookError
  insecure unsupported bad_host custom_client : WebhookError

pub data NewWebhook (S : Type 0) : Type 0 where
  built : Webhook S → NewWebhook S
  not_built : WebhookError → NewWebhook S

-- The standard library's: the URL, the resolver, the clock, the client of the dialer, a client that
-- follows no redirect, and the error of the context.
pub record WebhookDefaults (S : Type 0) : Type 0 where
  pub parse_url : String → Option Endpoint
  pub lookup_ip : String → S → Lookup × S
  pub now : S → Time × S
  pub safe_client : String → Bool → (String → S → Lookup × S) → Request → S → Exchange × S
  pub without_redirects : (Request → S → Exchange × S) → Request → S → Exchange × S
  pub context_error : S → Option ContextEnd

abbrev pub or_else {ℓ} : {A : Type ℓ} → Option A → A → A
or_else none fallback = fallback
or_else (some a) fallback = a

abbrev pub config_refusal : {S : Type 0} → FactoryConfig S → Option WebhookError
config_refusal c =
    if trim_space c.destination_id == ""
    then some no_destination
    else if c.secret == ""
    then some no_secret
    else if leb_ℤ c.timeout (pos 0)
    then some bad_timeout
    else if leb_ℤ c.max_response_bytes (pos 0)
    then some bad_limit
    else if leb_ℤ c.max_retry_after (pos 0)
    then some bad_retry_after
    else none

abbrev pub endpoint_refusal : Endpoint → Bool → Option WebhookError
endpoint_refusal u allow_insecure =
    if u.host == ""
    then some bad_endpoint
    else if u.has_user || not (u.fragment == "")
    then some user_or_fragment
    else if not (u.scheme == "https") && not (u.scheme == "http" && allow_insecure)
    then some insecure
    else if not (u.scheme == "http") && not (u.scheme == "https")
    then some unsupported
    else none

module _ {S : Type 0} (std : WebhookDefaults S) (c : FactoryConfig S) where
  abbrev pub lookup_of : String → S → Lookup × S
  lookup_of = or_else c.lookup_ip std.lookup_ip

  abbrev pub client_of : Endpoint → Option (Request → S → Exchange × S) → Request → S → Exchange × S
  client_of u none = std.safe_client u.hostname c.allow_private_network lookup_of
  client_of u (some client) = std.without_redirects client

  abbrev pub has_client : Option (Request → S → Exchange × S) → Bool
  has_client none = false
  has_client (some client) = true

  abbrev pub webhook_of : Endpoint → Webhook S
  webhook_of u = record {
    name = c.destination_id;
    endpoint = u;
    secret = c.secret;
    max_response_bytes = c.max_response_bytes;
    max_retry_after = c.max_retry_after;
    allow_private = c.allow_private_network;
    client = client_of u c.http_client;
    lookup_ip = lookup_of;
    now = or_else c.now std.now;
    context_error = std.context_error;
  }

  abbrev pub with_host : Endpoint → Bool → S → NewWebhook S × S
  with_host u refuses s =
      if refuses
      then (not_built bad_host, s)
      else if has_client c.http_client && not c.allow_private_network
      then (not_built custom_client, s)
      else (built (webhook_of u), s)

  abbrev pub with_endpoint : Endpoint → Option WebhookError → S → NewWebhook S × S
  with_endpoint u (some e) s = (not_built e, s)
  with_endpoint u none s =
      if trim_space u.hostname == ""
      then with_host u true s
      else (let found = lookup_of u.hostname s in
          with_host u (is_bad_host u.hostname c.allow_private_network found.0) found.1)

  abbrev pub with_url : Option Endpoint → S → NewWebhook S × S
  with_url none s = (not_built bad_endpoint, s)
  with_url (some u) s = with_endpoint u (endpoint_refusal u c.allow_insecure_http) s

  abbrev pub with_config : Option WebhookError → S → NewWebhook S × S
  with_config (some e) s = (not_built e, s)
  with_config none s = with_url (std.parse_url c.endpoint) s

  unfoldable pub new_webhook : S → NewWebhook S × S
  new_webhook s = with_config (config_refusal c) s
