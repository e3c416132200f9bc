-- ===== src/Notify/Envelope.antt =====
-- notifier.go: the event that goes to a notifier, and the notifier. JSON validity and the escape of
-- a URL path are the standard library's. The world in which a notifier delivers is a state.
use ruleraven.Common.{
  Bool, not, ◌||◌, ◌==◌, Option, none, some, String, ◌<>◌, if◌then◌else◌, trim_space,
}
use ruleraven.Common.Int.{ℤ, Time, Duration, is_zero}

-- `notify.Error`
pub record NotifyError : Type 0 where
  pub status_code : ℤ
  pub retryable : Bool
  pub retry_delay : Duration
  pub kind : String

pub record Envelope : Type 0 where
  pub spec_version : String
  pub id : String
  pub source : String
  pub type : String
  pub time : Time
  pub data_content_type : String
  pub schema_version : String
  pub event_data : String

-- Times are in UTC throughout; a text that is empty is an empty message.
unfoldable pub new_envelope :
    (String → Bool) → (String → String) → String → String → String → Time → String → Option Envelope
new_envelope valid_json path_escape id event_type cluster_id occurred_at payload =
    if trim_space id == ""
      || trim_space event_type == ""
      || trim_space cluster_id == ""
      || is_zero occurred_at
    then none
    else if payload == "" || not (valid_json payload)
    then none
    else some (record {
      spec_version = "1.0";
      id = id;
      source = "urn:ruleraven:cluster:" <> path_escape cluster_id;
      type = event_type;
      time = occurred_at;
      data_content_type = "application/json";
      schema_version = "v1";
      event_data = payload;
    })

-- What `errors.As` and `errors.Is` find in an error of a notifier.
pub record DeliveryError : Type 0 where
  pub classified : Option NotifyError
  pub deadline_exceeded : Bool

pub record Notifier (S : Type 0) : Type 0 where
  pub name : String
  pub deliver : Envelope → S → Option DeliveryError × S
