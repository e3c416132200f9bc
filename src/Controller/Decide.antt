-- ===== src/Controller/Decide.antt =====
-- reconciler.go: `decide` and what it asks of the providers.
use ruleraven.Common.{
  ℕ, String, ◌<>◌, ◌==◌, Bool, not, ◌&&◌, ◌||◌, Option, none, some, [], ◌∷◌, any, all_of, length,
  codes, has_prefix, if◌then◌else◌, ltb, leb, eqb, trim_space,
}
use ruleraven.Common.Maps.{Map}
use ruleraven.Domain.{Snapshot, Decision, ProviderAudit}
use ruleraven.Rules.{Result}
use ruleraven.Provider.Float.{Float64}
use ruleraven.Provider.Question.{Answer}
use ruleraven.Provider.Validate.{validate_answers}
use ruleraven.Provider.Contract.{EvaluationRequest, EvaluationResponse, Provider}
use ruleraven.Decision.Questions.{operational_triage_v1_questions}
use ruleraven.Decision.Compose.{compose, is_semantic}
use ruleraven.Controller.Types.{
  Encoding, Reconciler, ProviderError, provider_failed, inconsistent_metadata, invalid_answers,
  state_not_marshalled,
}

abbrev pub audit_hash : (String → String) → String → String
audit_hash sha256 value = if value == "" then "" else "sha256:" <> sha256 value

-- A character that a model's name may have.
abbrev pub is_model_character : ℕ → Bool
is_model_character c =
    (leb b'a' c && leb c b'z')
    || (leb b'A' c && leb c b'Z')
    || (leb b'0' c && leb c b'9')
    || eqb c b'-'
    || eqb c b'.'
    || eqb c b'_'
    || eqb c b':'
    || eqb c b'/'

-- Equal, or the requested name and more behind a separator.
abbrev pub is_qualified : String → String → Bool
is_qualified requested resolved =
    resolved == requested
    || any (λ separator. has_prefix resolved (requested <> separator)) ("-" ∷ "." ∷ ":" ∷ "/" ∷ [])

-- The source counts bytes; a text with a character beyond ASCII is refused either way.
unfoldable pub trusted_resolved_model : String → String → String
trusted_resolved_model requested resolved =
    if resolved == "" || ltb 256 (length (codes resolved))
    then ""
    else if not (is_qualified requested resolved)
    then ""
    else if not (all_of is_model_character (codes resolved))
    then ""
    else resolved

module _ {S O E : Type 0} (fl : Float64) (enc : Encoding) (r : Reconciler S O E fl) where
  abbrev pub Response : Type 0
  Response = EvaluationResponse fl.F

  pub data Evaluated : Type 0 where
    evaluated : Response → Evaluated
    not_evaluated : ProviderError E → Evaluated

  abbrev pub answer_errors : EvaluationRequest → Response → Option (ProviderError E)
  answer_errors request response = elim (validate_answers fl request.questions response.answers) [
    | none ↦ none
    | some e ↦ some (invalid_answers e)
  ]

  -- What counts as the error of an evaluation.
  unfoldable pub response_error :
      String → EvaluationRequest → Response → Option E → Option (ProviderError E)
  response_error name request response (some e) = some (provider_failed e)
  response_error name request response none =
      if not (response.provider == name) || trim_space response.requested_model == ""
      then some inconsistent_metadata
      else answer_errors request response

  abbrev pub outcome_of : Option (ProviderError E) → String
  outcome_of none = "success"
  outcome_of (some e) = "error"

  abbrev pub logged_model : Response → String
  logged_model response =
      let trusted = trusted_resolved_model response.requested_model response.resolved_model in
      if trusted == "" then response.requested_model else trusted

  unfoldable pub observe_provider :
      String → EvaluationRequest → Response → Option (ProviderError E) → S → S
  observe_provider name request response err s =
      let logged =
        r.log_provider
          (record {
            provider = name;
            model = logged_model response;
            request_id = request.request_id;
            outcome = outcome_of err;
            attempts = response.attempts;
          })
          s in
      elim r.metrics [
        | none ↦ logged
        | some m ↦
            m.observe_provider_request name (logged_model response) (outcome_of err)
              response.attempts logged
      ]

  abbrev pub result_of : Response → Option (ProviderError E) → Evaluated
  result_of response none = evaluated response
  result_of response (some e) = not_evaluated e

  abbrev pub judged : String → EvaluationRequest → (Response × Option E) × S → Evaluated × S
  judged name request ((response, err), s) =
      let e = response_error name request response err in
      (result_of response e, observe_provider name request response e s)

  unfoldable pub evaluate_provider : Provider S fl.F E → EvaluationRequest → S → Evaluated × S
  evaluate_provider p request s = judged p.name request (p.evaluate request s)

  -- The fallback is asked where the first provider failed.
  abbrev pub fall_back :
      Option (Provider S fl.F E) → EvaluationRequest → Evaluated × S → Evaluated × S
  fall_back fallback request (evaluated response, s) = (evaluated response, s)
  fall_back none request (not_evaluated e, s) = (not_evaluated e, s)
  fall_back (some p) request (not_evaluated e, s) = evaluate_provider p request s

  pub record Decided : Type 0 where
    pub decision : Option Decision
    pub answers : Map (Answer fl.F)
    pub provider_audit : Option ProviderAudit

  abbrev pub audit_of : Response → ProviderAudit
  audit_of response = record {
    provider = response.provider;
    requested_model = response.requested_model;
    resolved_model = trusted_resolved_model response.requested_model response.resolved_model;
    resolved_model_hash = audit_hash enc.sha256 response.resolved_model;
    provider_request_id_hash = audit_hash enc.sha256 response.provider_request_id;
    usage = record {
      input_tokens = response.usage.input_tokens;
      output_tokens = response.usage.output_tokens;
    };
    latency = response.latency;
    attempts = response.attempts;
    raw_response_hash = response.raw_response_hash;
  }

  abbrev pub no_error : Option (ProviderError E)
  no_error = none

  abbrev pub without_answers : Result → Option (ProviderError E) → Decided
  without_answers result err = record {
    decision = compose fl r.composer result [] err;
    answers = [];
    provider_audit = none;
  }

  unfoldable pub composed : Result → Evaluated → Decided
  composed result (not_evaluated e) = without_answers result (some e)
  composed result (evaluated response) = record {
    decision = compose fl r.composer result response.answers no_error;
    answers = response.answers;
    provider_audit = some (audit_of response);
  }

  abbrev pub request_of : Snapshot → Result → String → String → EvaluationRequest
  request_of snapshot result incident_id state = record {
    state = state;
    questions = operational_triage_v1_questions;
    rubric_version = result.question_set;
    request_id = r.new_id ("request\0" <> incident_id <> "\0" <> snapshot.content_hash);
    requested_model = "";
  }

  abbrev pub asked : Snapshot → Result → String → Option String → S → Decided × S
  asked snapshot result incident_id none s = (without_answers result (some state_not_marshalled), s)
  asked snapshot result incident_id (some state) s =
      let request = request_of snapshot result incident_id state in
      let answer = fall_back r.fallback request (evaluate_provider r.primary request s) in
      (composed result answer.0, answer.1)

  unfoldable pub decide : Snapshot → Result → String → S → Decided × S
  decide snapshot result incident_id s =
      if not (is_semantic result.disposition)
      then (without_answers result no_error, s)
      else asked snapshot result incident_id (enc.marshal_snapshot snapshot) s
