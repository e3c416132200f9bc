-- ===== src/Tests/DecisionTests.antt =====
-- internal/provider/validate.go and internal/decision at concrete answers.
use ruleraven.Common.{
  ℕ, ◌≤◌, ◌≡◌, refl, inl, String, true, Option, none, some, [], ◌∷◌, contains, trim_space,
}
use ruleraven.Common.Int.{ℤ, pos, ◌+ℤ◌, ◌-ℤ◌}
use ruleraven.Common.Checks.{first_error}
use ruleraven.Common.Maps.{Map, lookup}
use ruleraven.Common.Sort.{sort_by, insert_by, sort_strings}
use ruleraven.Domain.{
  severity_rank, severity_warning, action_notify, action_page, severity_critical, Decision,
}
use ruleraven.Rules.{Result, semantic_result}
use ruleraven.Provider.Question.{
  question_type_noul, question_type_choice, question_type_score, Answer, zero_answer,
}
use ruleraven.Provider.Validate
use ruleraven.Provider.Sound
use ruleraven.Decision.Questions
use ruleraven.Decision.Compose
use ruleraven.Decision.Merge
use ruleraven.Decision.Policy
use ruleraven.Tests.Fixed.{fixed, fixed-IsOrdered}

abbrev yes_no : ℕ → Answer ℤ
yes_no x = record (zero_answer {F = ℤ}) { type = question_type_noul; noul = some (pos x) }

abbrev family : Answer ℤ
family = record (zero_answer {F = ℤ}) {
  type = question_type_choice;
  choice = "security";
  confidence = some (pos 900000000);
  probabilities =
      ("application", pos 0)
      ∷ ("configuration", pos 0)
      ∷ ("dependency", pos 0)
      ∷ ("infrastructure", pos 0)
      ∷ ("security", pos 900000000)
      ∷ ("unknown", pos 100000000)
      ∷ [];
}

abbrev impact : Answer ℤ
impact = record (zero_answer {F = ℤ}) {
  type = question_type_score;
  score = some (pos 2600000000);
  confidence = some (pos 900000000);
  legend =
      ("0", "No current user-visible impact")
      ∷ ("1", "Limited degradation or a working workaround")
      ∷ ("2", "Material degradation affecting multiple users or a critical workload")
      ∷ ("3", "Broad outage, data-loss risk, or security impact")
      ∷ [];
  probabilities = ("0", pos 0) ∷ ("1", pos 0) ∷ ("2", pos 400000000) ∷ ("3", pos 600000000) ∷ [];
}

abbrev answers : Map (Answer ℤ)
answers =
    ("incident_family", family)
    ∷ ("operational_impact", impact)
    ∷ ("requires_immediate_attention", yes_no 300000000)
    ∷ ("likely_transient", yes_no 100000000)
    ∷ []

abbrev event_result : Result
event_result = semantic_result (
    record {
      rule_id = "warning-event";
      severity = severity_warning;
      reason = "selected Warning Event requires semantic triage";
    }
    ∷ [])

verdict : Map (Answer ℤ) → Option Validate.Error
unfolding Validate.validate_answers Validate.validate_questions Validate.question_error first_error
    Validate.sorted_ids Validate.noul_question_error Validate.choice_question_error
    Validate.score_question_error Validate.level_errors Validate.answer_error
    Validate.validate_noul_answer Validate.validate_choice_answer Validate.validate_score_answer
    Validate.validate_unit_value Validate.validate_confidence Validate.validate_distribution
    Validate.distribution_loop Validate.legend_errors Validate.weighted_sum Validate.is_finite
    Validate.itoa trim_space sort_strings sort_by insert_by lookup ◌+ℤ◌ ◌-ℤ◌
    Questions.operational_triage_v1_questions
verdict as' = Validate.validate_answers fixed Questions.operational_triage_v1_questions as'

answers_valid : verdict answers ≡ none
unfolding verdict
answers_valid = refl

answers_incomplete :
    verdict (("incident_family", family) ∷ []) ≡ some (Validate.missing_answer "likely_transient")
unfolding verdict
answers_incomplete = refl

composed : Option String → Option Decision
unfolding verdict Compose.compose Compose.compose_semantic Compose.is_usable Compose.merge_strings
    Compose.add_seen Compose.apply_deterministic_floor Compose.new_composer Compose.level_of
    Compose.compose_operational_triage Compose.floor_won
composed err = Compose.compose fixed (Compose.new_composer fixed) event_result answers err

security_pages :
    composed none
    ≡ some (record {
      severity = severity_critical;
      action = action_page;
      summary = "Provider evidence classifies the incident as security";
      reason_codes = "provider_evidence" ∷ "incident_family_security" ∷ "semantic_critical" ∷ [];
      rule_ids = "warning-event" ∷ [];
    })
unfolding composed
security_pages = refl

validate_answers_sound_example :
    Sound.IsAnswered fixed Questions.operational_triage_v1_questions answers "operational_impact"
unfolding verdict
validate_answers_sound_example =
    (Sound.validate_answers_sound fixed Questions.operational_triage_v1_questions answers refl).2
      "operational_impact" refl

merge_strings_union_example :
    contains (Compose.merge_strings ("b" ∷ "" ∷ []) ("a" ∷ "b" ∷ [])) "b" ≡ true
merge_strings_union_example = (Merge.merge_strings_union ("b" ∷ "" ∷ []) ("a" ∷ "b" ∷ [])).0 "b"

compose_total_example :
    (d : Decision) × (Compose.compose fixed {E = String}
        (Compose.new_composer fixed)
        event_result
        answers
        none
      ≡ some d)
compose_total_example =
    Policy.compose_total fixed {E = String} (Compose.new_composer fixed) event_result answers none

abbrev pub floor : Decision
floor = record {
  severity = severity_warning;
  action = action_notify;
  summary = "floor";
  reason_codes = "floor" ∷ [];
  rule_ids = "floor" ∷ [];
}

abbrev pub floored : Decision
floored = record {
  severity = severity_critical;
  action = action_page;
  summary = "Provider evidence classifies the incident as security";
  reason_codes =
      "floor" ∷ "incident_family_security" ∷ "provider_evidence" ∷ "semantic_critical" ∷ [];
  rule_ids = "floor" ∷ "warning-event" ∷ [];
}

compose_floor_example :
    (severity_rank floor.severity ≤ severity_rank floored.severity)
    × (Compose.action_rank floor.action ≤ Compose.action_rank floored.action)
unfolding composed
compose_floor_example =
    Policy.compose_floor fixed {E = String} (Compose.new_composer fixed)
      (record event_result { decision = some floor }) answers none floored floor refl refl

compose_fails_closed_example :
    Compose.compose fixed {E = String}
      (Compose.new_composer fixed)
      event_result
      answers
      (some "timeout")
    ≡ some (Compose.finish event_result (Compose.Composer.fallback (Compose.new_composer fixed)))
compose_fails_closed_example =
    (Policy.compose_fails_closed fixed {E = String} event_result answers (some "timeout") refl
      (inl refl)).0

level_of_mono_example :
    severity_rank (
      Compose.level_severity (
        Compose.level_of fixed
          (Compose.Composer.thresholds (Compose.new_composer fixed))
          (pos 0)
          (pos 600000000)
          (pos 900000000)))
    ≤ severity_rank (
        Compose.level_severity (
          Compose.level_of fixed
            (Compose.Composer.thresholds (Compose.new_composer fixed))
            (pos 3000000000)
            (pos 600000000)
            (pos 0)))
level_of_mono_example =
    (Policy.level_of_mono fixed fixed-IsOrdered
      (Compose.Composer.thresholds (Compose.new_composer fixed)) (pos 0) (pos 3000000000)
      (pos 600000000) (pos 600000000) (pos 900000000) (pos 0) refl refl refl).0
