-- ===== src/Notify/Webhook.antt =====
-- webhook.go: the host checks of a webhook, its dialer and `Deliver`. DNS, HTTP, JSON,
-- the tests of an IP address and the parsers of a URL, a number and a date are the standard library's.
pub mod Safe
pub mod Factory
use ruleraven.Common.{
  ℕ, suc, ◌+◌, ◌*◌, ◌/◌, String, ◌<>◌, ◌==◌, Bool, true, false, not, ◌&&◌, ◌||◌, Option, none, some,
  List, [], ◌∷◌, any, is_empty, if◌then◌else◌, trim_space, equal_fold, ltb,
}
use ruleraven.Common.Int.{ℤ, pos, negsuc, sub_ℕ, Time, Duration, sub_time, ltb_ℤ, leb_ℤ, eqb_ℤ}
use ruleraven.Notify.Envelope.{NotifyError, Envelope}
use ruleraven.Notify.Signing.{Signing, sign}

-- An IP address, as far as `net.IP` tells.
pub record IpAddress : Type 0 where
  pub text : String
  pub is_nil : Bool
  pub is_unspecified : Bool
  pub is_loopback : Bool
  pub is_private : Bool
  pub is_link_local_unicast : Bool
  pub is_link_local_multicast : Bool
  pub is_multicast : Bool

pub data Lookup : Type 0 where
  addresses : List IpAddress → Lookup
  lookup_failed : Lookup

pub record Endpoint : Type 0 where
  pub text : String
  pub scheme : String
  pub host : String
  pub hostname : String
  pub has_user : Bool
  pub fragment : String

abbrev pub unsafe_ip : IpAddress → Bool
unsafe_ip ip =
    ip.is_nil || ip.is_unspecified || ip.is_loopback || ip.is_private || ip.is_link_local_unicast
    || ip.is_link_local_multicast || ip.is_multicast

-- Whether the host is refused.
abbrev pub is_bad_lookup : Bool → Lookup → Bool
is_bad_lookup allow_private lookup_failed = true
is_bad_lookup allow_private (addresses found) =
    is_empty found || (not allow_private && any unsafe_ip found)

abbrev pub is_bad_host : String → Bool → Lookup → Bool
is_bad_host host allow_private found = trim_space host == "" || is_bad_lookup allow_private found

abbrev pub retryable_status : ℤ → Bool
retryable_status status =
    eqb_ℤ status (pos 408)
    || eqb_ℤ status (pos 409)
    || eqb_ℤ status (pos 425)
    || eqb_ℤ status (pos 429)
    || (leb_ℤ (pos 500) status && leb_ℤ status (pos 599))

abbrev pub second : ℕ
second = 1000000000

-- Division by a second as Go has it, towards zero.
abbrev pub in_seconds : Duration → ℤ
in_seconds (pos n) = pos (n / second)
in_seconds (negsuc n) = sub_ℕ 0 (suc n / second)

abbrev pub seconds : ℤ → Duration
seconds (pos n) = pos (n * second)
seconds (negsuc n) = sub_ℕ 0 (suc n * second)

abbrev pub held_to : Duration → Duration → Duration
held_to maximum delay = if ltb_ℤ (pos 0) maximum && ltb_ℤ maximum delay then maximum else delay

abbrev pub until_date : Option Time → Time → Duration → Duration
until_date none now maximum = held_to maximum (pos 0)
until_date (some at) now maximum =
    if ltb_ℤ now at then held_to maximum (sub_time at now) else held_to maximum (pos 0)

abbrev pub after_seconds : ℤ → Duration → Duration
after_seconds n maximum =
    if ltb_ℤ (pos 0) maximum && ltb_ℤ (in_seconds maximum) n
    then maximum
    else held_to maximum (seconds n)

abbrev pub retry_after_of : Option ℤ → Option Time → Time → Duration → Duration
retry_after_of none at now maximum = until_date at now maximum
retry_after_of (some n) at now maximum =
    if ltb_ℤ (pos 0) n then after_seconds n maximum else until_date at now maximum

-- The maximum of a webhook is positive, so that the product of seconds is no larger than an int64.
unfoldable pub parse_retry_after :
    (String → Option ℤ) → (String → Option Time) → String → Time → Duration → Duration
parse_retry_after parse_int parse_time raw now maximum =
    if raw == ""
    then pos 0
    else retry_after_of (parse_int (trim_space raw)) (parse_time raw) now maximum

pub data ContextEnd : Type 0 where
  canceled deadline_exceeded : ContextEnd

pub data DeliverError : Type 0 where
  ended : ContextEnd → DeliverError
  failed : NotifyError → DeliverError

pub record Request : Type 0 where
  pub url : String
  pub body : String
  pub event_id : String
  pub timestamp : String
  pub signature : String
  pub generic_timestamp : String
  pub generic_signature : String

-- An answer, with the size of its body or `none` where the body cannot be read.
pub record Response : Type 0 where
  pub status : ℤ
  pub retry_after : String
  pub size : Option ℤ

pub data Exchange : Type 0 where
  answered : Response → Exchange
  refused : Option ContextEnd → Exchange

pub record Webhook (S : Type 0) : Type 0 where
  pub name : String
  pub endpoint : Endpoint
  pub secret : String
  pub max_response_bytes : ℤ
  pub max_retry_after : Duration
  pub allow_private : Bool
  pub client : Request → S → Exchange × S
  pub lookup_ip : String → S → Lookup × S
  pub now : S → Time × S
  pub context_error : S → Option ContextEnd

pub record WebhookLibrary : Type 0 where
  pub signing : Signing
  pub marshal : Envelope → Option String
  pub accepts_request : String → Bool
  pub parse_int : String → Option ℤ
  pub parse_time : String → Option Time

abbrev pub plain_error : String → Bool → NotifyError
plain_error kind retryable = record {
  status_code = pos 0;
  retryable = retryable;
  retry_delay = pos 0;
  kind = kind;
}

abbrev pub is_success : ℤ → Bool
is_success status = leb_ℤ (pos 200) status && leb_ℤ status (pos 299)

abbrev pub is_redirect : ℤ → Bool
is_redirect status = leb_ℤ (pos 300) status && leb_ℤ status (pos 399)

module _ (lib : WebhookLibrary) where
  abbrev pub status_error : String → Response → Time → Duration → NotifyError
  status_error kind response timestamp max_retry_after = record {
    status_code = response.status;
    retryable = retryable_status response.status;
    retry_delay =
        parse_retry_after lib.parse_int lib.parse_time response.retry_after timestamp
          max_retry_after;
    kind = kind;
  }

  abbrev pub small_answer : Response → Time → Duration → Option NotifyError
  small_answer response timestamp max_retry_after =
      if is_success response.status
      then none
      else if is_redirect response.status
      then some (record {
        status_code = response.status;
        retryable = false;
        retry_delay = pos 0;
        kind = "redirect";
      })
      else some (
          status_error (if retryable_status response.status then "retryable" else "permanent")
            response timestamp max_retry_after)

  abbrev pub sized_answer : ℤ → Response → Time → Duration → Option ℤ → Option NotifyError
  sized_answer max_response_bytes response timestamp max_retry_after none =
      some (plain_error "transport" true)
  sized_answer max_response_bytes response timestamp max_retry_after (some size) =
      if not (ltb_ℤ max_response_bytes size)
      then small_answer response timestamp max_retry_after
      else if is_success response.status
      then none
      else some (status_error "response_too_large" response timestamp max_retry_after)

  -- What an answer means; the reading stops at one byte past the limit.
  unfoldable pub answer_of : ℤ → Response → Time → Duration → Option NotifyError
  answer_of max_response_bytes response timestamp max_retry_after =
      sized_answer max_response_bytes response timestamp max_retry_after response.size

  module _ {S : Type 0} (w : Webhook S) where
    abbrev pub request_of : Envelope → String → Time → Request
    request_of event body timestamp =
        let signature = sign lib.signing w.secret timestamp body in
        let stamp = lib.signing.unix_seconds timestamp in
        record {
          url = w.endpoint.text;
          body = body;
          event_id = event.id;
          timestamp = stamp;
          signature = "v1=" <> signature;
          generic_timestamp = stamp;
          generic_signature = signature;
        }

    abbrev pub outcome_of : Option NotifyError → Option DeliverError
    outcome_of none = none
    outcome_of (some e) = some (failed e)

    abbrev pub answer : Time → Exchange × S → Option DeliverError × S
    answer timestamp (refused none, s) = (some (failed (plain_error "transport" true)), s)
    answer timestamp (refused (some end), s) = (some (ended end), s)
    answer timestamp (answered response, s) =
        (outcome_of (answer_of w.max_response_bytes response timestamp w.max_retry_after), s)

    abbrev pub send : Envelope → String → Time × S → Option DeliverError × S
    send event body (timestamp, s) =
        if not (lib.accepts_request w.endpoint.text)
        then (some (failed (plain_error "invalid_request" false)), s)
        else answer timestamp (w.client (request_of event body timestamp) s)

    abbrev pub deliver_body : Envelope → Option String → S → Option DeliverError × S
    deliver_body event none s = (some (failed (plain_error "invalid_envelope" false)), s)
    deliver_body event (some body) s = send event body (w.now s)

    abbrev pub deliver_to : Envelope → Bool → S → Option DeliverError × S
    deliver_to event refuses s =
        if refuses
        then (some (failed (plain_error "unsafe_destination" false)), s)
        else deliver_body event (lib.marshal event) s

    -- A blank host is refused without a lookup.
    abbrev pub deliver_checked : Envelope → S → Option DeliverError × S
    deliver_checked event s =
        if trim_space w.endpoint.hostname == ""
        then deliver_to event true s
        else (let found = w.lookup_ip w.endpoint.hostname s in
            deliver_to event (is_bad_host w.endpoint.hostname w.allow_private found.0) found.1)

    abbrev pub deliver_live : Envelope → S → Option ContextEnd → Option DeliverError × S
    deliver_live event s (some end) = (some (ended end), s)
    deliver_live event s none =
        if event.id == "" || not (event.spec_version == "1.0") || not (event.schema_version == "v1")
        then (some (failed (plain_error "invalid_envelope" false)), s)
        else deliver_checked event s

    unfoldable pub deliver : Envelope → S → Option DeliverError × S
    deliver event s = deliver_live event s (w.context_error s)

-- The dialer of the webhook's own client: what an attempt to connect gives.
pub data Dialed : Type 0 where
  connected : IpAddress → Dialed
  bad_address unexpected_host not_resolved no_safe_address : Dialed

module _ {S : Type 0} (connect : IpAddress → S → Bool × S) (trim_dot : String → String) where
  abbrev pub first_of : IpAddress → Bool × S → (S → Dialed × S) → Dialed × S
  first_of ip (true, s) rest = (connected ip, s)
  first_of ip (false, s) rest = rest s

  unfoldable pub connect_first : Bool → List IpAddress → S → Dialed × S
  connect_first allow_private [] s = (no_safe_address, s)
  connect_first allow_private (ip ∷ ips) s =
      let rest = connect_first allow_private ips in
      if not allow_private && unsafe_ip ip then rest s else first_of ip (connect ip s) rest

  abbrev pub dial_found : Bool → Lookup × S → Dialed × S
  dial_found allow_private (lookup_failed, s) = (not_resolved, s)
  dial_found allow_private (addresses found, s) =
      if is_empty found then (not_resolved, s) else connect_first allow_private found s

  -- The address is split into its host; `none` where it cannot be.
  unfoldable pub dial : String → Bool → (String → S → Lookup × S) → Option String → S → Dialed × S
  dial host allow_private lookup none s = (bad_address, s)
  dial host allow_private lookup (some address_host) s =
      if not (equal_fold (trim_dot address_host) (trim_dot host))
      then (unexpected_host, s)
      else dial_found allow_private (lookup host s)
