-- ===== src/Decision/Questions.antt =====
-- questions.go: the rubric. The defensive copy of `OperationalTriageV1Questions` is the value itself.
use ruleraven.Common.{String, [], ◌∷◌}
use ruleraven.Common.Maps.{Map}
use ruleraven.Provider.Question.{
  question_type_noul, question_type_choice, question_type_score, Question,
}

abbrev pub operational_triage_v1 : String
operational_triage_v1 = "operational-triage-v1"

abbrev pub question_incident_family : String
question_incident_family = "incident_family"

abbrev pub question_operational_impact : String
question_operational_impact = "operational_impact"

abbrev pub question_requires_immediate_attention : String
question_requires_immediate_attention = "requires_immediate_attention"

abbrev pub question_likely_transient : String
question_likely_transient = "likely_transient"

unfoldable pub operational_triage_v1_questions : Map Question
operational_triage_v1_questions =
    (
      question_incident_family,
      record {
        type = question_type_choice;
        instructions = "Which incident family best explains the observed operational state?";
        criteria =
            ("application", "Application process, runtime, or workload behavior")
            ∷ ("configuration", "Invalid or incompatible workload or cluster configuration")
            ∷ ("dependency", "A required internal or external dependency is failing")
            ∷ ("infrastructure", "Cluster, node, storage, or networking infrastructure")
            ∷ ("security", "A suspected security or access-control issue")
            ∷ ("unknown", "The bounded evidence does not support another family")
            ∷ [];
        levels = [];
      },
    )
    ∷ (
      question_operational_impact,
      record {
        type = question_type_score;
        instructions = "Rate the current operational impact from the bounded evidence.";
        criteria = [];
        levels =
            "No current user-visible impact" ∷ "Limited degradation or a working workaround"
            ∷ "Material degradation affecting multiple users or a critical workload"
            ∷ "Broad outage, data-loss risk, or security impact" ∷ [];
      },
    )
    ∷ (
      question_requires_immediate_attention,
      record {
        type = question_type_noul;
        instructions = "Does the incident require immediate human attention?";
        criteria =
            ("true", "Delay is likely to materially increase operational harm")
            ∷ ("false", "The incident can safely wait for normal triage")
            ∷ [];
        levels = [];
      },
    )
    ∷ (
      question_likely_transient,
      record {
        type = question_type_noul;
        instructions = "Is the observed condition likely to clear without intervention?";
        criteria =
            ("true", "The evidence indicates a short-lived or self-healing condition")
            ∷ ("false", "The condition is likely persistent or requires intervention")
            ∷ [];
        levels = [];
      },
    )
    ∷ []
