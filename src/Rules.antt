-- ===== src/Rules.antt =====
-- internal/rules: what a snapshot means before any provider is asked. `Detect` holds the single
-- rules; here stands the engine that runs them all.
pub mod Detect
pub mod Winning
pub mod Outcome
pub mod Events
use ruleraven.Common.{
  String, ◌<>◌, ◌==◌, Bool, true, false, not, ◌&&◌, ◌||◌, Option, none, some, List, [], ◌∷◌, ◌++◌,
  map, if◌then◌else◌, ltb, ltb_text, cut_equals,
}
use ruleraven.Common.Int.{Time}
use ruleraven.Common.Maps.{Map, lookup}
use ruleraven.Common.Sort.{sort_by, sort_strings}
use ruleraven.Domain.{
  Severity, severity_info, severity_warning, severity_critical, severity_rank, Action,
  action_record, action_notify, action_page, action_suppress, Decision, Incident, incident_open,
  Snapshot, IncidentStatus, incident_resolved, incident_suppressed,
}
use Detect.{
  Match, Options, pod_crash_loop, pod_unschedulable, image_pull_failure, failed_job,
  workload_unavailable, warning_event,
}

abbrev pub policy_version_name : String
policy_version_name = "deterministic-triage-v1"

pub data Disposition : Type 0 where
  disposition_terminal disposition_semantic disposition_suppress : Disposition
  disposition_no_match : Disposition

pub record Result : Type 0 where
  pub matches : List Match
  pub disposition : Disposition
  pub decision : Option Decision
  pub question_set : String
  pub policy_version : String

-- The slices of `NewEngine` are sorted copies; the clock is read where `Evaluate` reads it.
unfoldable pub new_engine : Options → Options
unfolding sort_strings
new_engine o = record o {
  ignored_namespaces = sort_strings o.ignored_namespaces;
  ignored_labels = sort_strings o.ignored_labels;
}

unfoldable pub ignored_namespace : List String → String → Option String
ignored_namespace [] namespace = none
ignored_namespace (n ∷ ns) namespace =
    if namespace == n then some ("ignored namespace " <> n) else ignored_namespace ns namespace

-- Whether a label selector, `key` or `key=value`, holds of the labels.
unfoldable pub selects : String → Map String → Bool
unfolding cut_equals lookup
selects selector labels =
    let (key, value, has_value) = cut_equals selector in
    elim (lookup key labels) [ none ↦ false | some actual ↦ not has_value || actual == value ]

unfoldable pub ignored_label : List String → Map String → Option String
unfolding selects
ignored_label [] labels = none
ignored_label (selector ∷ rest) labels =
    if selects selector labels
    then some ("ignored label " <> selector)
    else ignored_label rest labels

unfoldable pub ignored_reason : Options → Snapshot → Option String
ignored_reason o snapshot =
    elim (ignored_namespace o.ignored_namespaces snapshot.source.namespace) [
      | some reason ↦ some reason
      | none ↦ ignored_label o.ignored_labels snapshot.labels
    ]

-- The later of two matches wins only if it is more severe.
unfoldable pub worse : Match → Match → Match
worse winning m =
    if ltb (severity_rank winning.severity) (severity_rank m.severity) then m else winning

-- `highestSeverity` of `winning ∷ matches`, the loop from `matches[1:]` on
unfoldable pub highest_severity : Match → List Match → Match
unfolding worse
highest_severity winning [] = winning
highest_severity winning (m ∷ matches) = highest_severity (worse winning m) matches

abbrev action_for : Severity → Action
action_for severity_critical = action_page
action_for _ = action_notify

-- `decisionFor`, of a list that is not empty
unfoldable pub decision_for : Match → List Match → Decision
unfolding highest_severity
decision_for first rest =
    let winning = highest_severity first rest in
    let rule_ids : List String = map (λ m. m.rule_id) (first ∷ rest) in
    record {
      severity = winning.severity;
      action = action_for winning.severity;
      summary = winning.reason;
      reason_codes = rule_ids;
      rule_ids = rule_ids;
    }

abbrev pub recovery_match : Match
recovery_match = record {
  rule_id = "recovered";
  reason = "previously open incident no longer matches";
  severity = severity_info;
}

abbrev pub recovery_result : Result
recovery_result = record {
  matches = recovery_match ∷ [];
  disposition = disposition_terminal;
  decision = some (record {
    severity = severity_info;
    action = action_record;
    summary = recovery_match.reason;
    reason_codes = "recovered" ∷ [];
    rule_ids = "recovered" ∷ [];
  });
  question_set = "";
  policy_version = policy_version_name;
}

abbrev pub recovered_from : IncidentStatus → Option Result
recovered_from incident_open = some recovery_result
recovered_from _ = none

unfoldable pub recovered : Option Incident → Option Result
recovered none = none
recovered (some previous) = recovered_from previous.status

abbrev pub ignored_result : String → Result
ignored_result reason = record {
  matches = record { rule_id = "ignored"; reason = reason; severity = severity_info } ∷ [];
  disposition = disposition_suppress;
  decision = some (record {
    severity = severity_info;
    action = action_suppress;
    summary = reason;
    reason_codes = "ignored" ∷ [];
    rule_ids = "ignored" ∷ [];
  });
  question_set = "";
  policy_version = policy_version_name;
}

abbrev pub no_match_result : Result
no_match_result = record {
  matches = [];
  disposition = disposition_no_match;
  decision = none;
  question_set = "";
  policy_version = policy_version_name;
}

abbrev pub semantic_result : List Match → Result
semantic_result matches = record {
  matches = matches;
  disposition = disposition_semantic;
  decision = none;
  question_set = "operational-triage-v1";
  policy_version = policy_version_name;
}

unfoldable pub terminal_result : Match → List Match → Result
terminal_result first rest = record {
  matches = first ∷ rest;
  disposition = disposition_terminal;
  decision = some (decision_for first rest);
  question_set = "";
  policy_version = policy_version_name;
}

-- What `Evaluate` makes of the sorted matches.
unfoldable pub conclude : List Match → Option Incident → Result
conclude [] previous = elim (recovered previous) [ some result ↦ result | none ↦ no_match_result ]
conclude (m ∷ []) previous =
    if m.rule_id == "warning-event" then semantic_result (m ∷ []) else terminal_result m []
conclude (m ∷ n ∷ rest) previous = terminal_result m (n ∷ rest)

-- The matches of every rule, as they are appended.
unfoldable pub unsorted : Options → Time → Snapshot → List Match
unsorted o now s =
    pod_crash_loop o now s
    ++ (pod_unschedulable o now s
        ++ (image_pull_failure o now s
            ++ (failed_job s ++ (workload_unavailable o now s ++ warning_event o now s))))

-- ... and in the order of their IDs.
unfoldable pub all_matches : Options → Time → Snapshot → List Match
all_matches o now s = sort_by (λ a b. ltb_text a.rule_id b.rule_id) (unsorted o now s)

-- `Evaluate`, with the clock's answer as `now`
unfoldable pub evaluate : Options → Time → Snapshot → Option Incident → Result
evaluate o now snapshot previous = elim (ignored_reason o snapshot) [
  | some reason ↦ ignored_result reason
  | none ↦ conclude (all_matches o now snapshot) previous
]
