-- ===== src/Decision/Compose.antt =====
-- composer.go. `Compose` would panic where it follows a nil pointer of an answer: `none` is that
-- panic. Decisions are copied by value, so `cloneDecision` is the value itself.
use ruleraven.Common.{
  ℕ, String, ◌<>◌, ◌==◌, Bool, true, false, not, ◌&&◌, ◌||◌, Option, none, some, List, [], ◌∷◌, map,
  contains, is_some, if◌then◌else◌, ltb,
}
use ruleraven.Common.Maps.{Map, lookup}
use ruleraven.Common.Sort.{sort_strings}
use ruleraven.Domain.{
  Severity, severity_info, severity_warning, severity_critical, severity_rank, Action,
  action_record, action_notify, action_page, action_suppress, action_unset, Decision,
}
use ruleraven.Rules.{Result, Disposition, disposition_semantic}
use ruleraven.Provider.Float.{Float64}
use ruleraven.Provider.Question.{Answer, zero_answer}
use ruleraven.Provider.Validate.{validate_answers}
use ruleraven.Decision.Questions.{
  operational_triage_v1, operational_triage_v1_questions, question_incident_family,
  question_operational_impact, question_requires_immediate_attention, question_likely_transient,
}

abbrev pub action_rank : Action → ℕ
action_rank action_page = 4
action_rank action_notify = 3
action_rank action_record = 2
action_rank action_suppress = 1
action_rank action_unset = 0

-- The set `seen` of `mergeStrings`, which takes each text once and no empty one.
unfoldable pub add_seen : List String → List String → List String
add_seen seen [] = seen
add_seen seen (value ∷ values) =
    add_seen (if value == "" || contains seen value then seen else value ∷ seen) values

unfoldable pub merge_strings : List String → List String → List String
merge_strings left right = sort_strings (add_seen (add_seen [] left) right)

abbrev pub rule_ids : Result → List String
rule_ids result = map (λ m. m.rule_id) result.matches

abbrev pub raise_severity : Decision → Decision → Severity
raise_severity d floor =
    if ltb (severity_rank d.severity) (severity_rank floor.severity)
    then floor.severity
    else d.severity

abbrev pub raise_action : Decision → Decision → Action
raise_action d floor =
    if ltb (action_rank d.action) (action_rank floor.action) then floor.action else d.action

unfoldable pub floor_won : Decision → Decision → Bool
floor_won d floor =
    ltb (severity_rank d.severity) (severity_rank floor.severity)
    || ltb (action_rank d.action) (action_rank floor.action)

unfoldable pub apply_deterministic_floor : Decision → Option Decision → Decision
apply_deterministic_floor d none = d
apply_deterministic_floor d (some floor) = record {
  severity = raise_severity d floor;
  action = raise_action d floor;
  summary = if floor_won d floor && not (floor.summary == "") then floor.summary else d.summary;
  reason_codes = merge_strings d.reason_codes floor.reason_codes;
  rule_ids = merge_strings d.rule_ids floor.rule_ids;
}

abbrev pub is_semantic : Disposition → Bool
is_semantic disposition_semantic = true
is_semantic _ = false

-- The three outcomes of the `switch`.
pub data Level : Type 0 where
  level_critical level_warning level_low : Level

abbrev pub level_severity : Level → Severity
level_severity level_critical = severity_critical
level_severity level_warning = severity_warning
level_severity level_low = severity_info

abbrev pub level_action : Level → Action
level_action level_critical = action_page
level_action level_warning = action_notify
level_action level_low = action_record

abbrev pub level_reason : Level → String
level_reason level_critical = "semantic_critical"
level_reason level_warning = "semantic_warning"
level_reason level_low = "semantic_low_impact"

abbrev pub triage_decision : String → Level → Decision
triage_decision family level = record {
  severity = level_severity level;
  action = level_action level;
  summary = "Provider evidence classifies the incident as " <> family;
  reason_codes = "provider_evidence" ∷ ("incident_family_" <> family) ∷ level_reason level ∷ [];
  rule_ids = [];
}

abbrev pub finish : Result → Decision → Decision
finish result composed =
    apply_deterministic_floor
      (record composed { rule_ids = merge_strings composed.rule_ids (rule_ids result) })
      result.decision

-- A decision that is not on a semantic result is final.
abbrev pub keep_decided : Option Decision → Bool → Option Decision → Option Decision
keep_decided (some decided) false rest = some decided
keep_decided _ _ rest = rest

module _ (fl : Float64) where
  open fl use {F, lt, le, decimal}

  pub record Thresholds : Type 0 where
    pub policy_version : String
    pub warning_impact : F
    pub critical_impact : F
    pub warning_immediate_attention : F
    pub critical_immediate_attention : F
    pub likely_transient_record : F

  pub record Composer : Type 0 where
    pub thresholds : Thresholds
    pub fallback : Decision

  unfoldable pub new_composer : Composer
  new_composer = record {
    thresholds = record {
      policy_version = "operational-composer-v1";
      warning_impact = decimal 1 0;
      critical_impact = decimal 25 1;
      warning_immediate_attention = decimal 5 1;
      critical_immediate_attention = decimal 85 2;
      likely_transient_record = decimal 7 1;
    };
    fallback = record {
      severity = severity_warning;
      action = action_notify;
      summary = "Provider evidence unavailable; manual triage required";
      reason_codes = "provider_unavailable" ∷ [];
      rule_ids = [];
    };
  }

  unfoldable pub level_of : Thresholds → F → F → F → Level
  level_of t impact immediate transient =
      if le t.critical_impact impact || le t.critical_immediate_attention immediate
      then level_critical
      else if le t.warning_impact impact
          || le t.warning_immediate_attention immediate
          || lt transient t.likely_transient_record
      then level_warning
      else level_low

  -- `answers[id]`
  abbrev pub answer_at : Map (Answer F) → String → Answer F
  answer_at answers id = elim (lookup id answers) [ none ↦ zero_answer | some a ↦ a ]

  abbrev pub of_evidence : Composer → String → Option F → Option F → Option F → Option Decision
  of_evidence c family (some impact) (some immediate) (some transient) =
      some (triage_decision family (level_of c.thresholds impact immediate transient))
  of_evidence c family _ _ _ = none

  unfoldable pub compose_operational_triage : Composer → Map (Answer F) → Option Decision
  compose_operational_triage c answers =
      of_evidence c (answer_at answers question_incident_family).choice
        (answer_at answers question_operational_impact).score
        (answer_at answers question_requires_immediate_attention).noul
        (answer_at answers question_likely_transient).noul

  -- Whether the answers may be used at all.
  unfoldable pub is_usable {ℓ} : {E : Type ℓ} → Result → Map (Answer F) → Option E → Bool
  is_usable result answers provider_err =
      if is_some provider_err || not (result.question_set == operational_triage_v1)
      then false
      else not (is_some (validate_answers fl operational_triage_v1_questions answers))

  unfoldable pub compose_semantic {ℓ} :
      {E : Type ℓ} → Composer → Result → Map (Answer F) → Option E → Option Decision
  compose_semantic c result answers provider_err =
      if is_usable result answers provider_err
      then elim (compose_operational_triage c answers) [
        | none ↦ none
        | some composed ↦ some (finish result composed)
      ]
      else some (finish result c.fallback)

  -- `Compose`
  unfoldable pub compose {ℓ} :
      {E : Type ℓ} → Composer → Result → Map (Answer F) → Option E → Option Decision
  compose c result answers provider_err =
      keep_decided result.decision (is_semantic result.disposition)
        (compose_semantic c result answers provider_err)
