-- ===== src/Controller/Status.antt =====
-- The status of an incident follows from the evaluation of its snapshot.
use ruleraven.Common.{
  ◌≡◌, refl, ◌↔◌, String, true, false, Option, none, some, is_some, List, [], ◌∷◌, any, All,
  All-append, ltb_text, arith,
}
use ruleraven.Common.Int.{Time}
use ruleraven.Common.Sort.{sort_by-All}
use ruleraven.Domain.{
  Severity, severity_unset, severity_info, severity_warning, severity_critical, incident_resolved,
  incident_suppressed, Incident, Snapshot,
}
use ruleraven.Rules.{
  Result, ignored_reason, ignored_result, recovered, conclude, terminal_result, unsorted,
  all_matches, evaluate,
}
use ruleraven.Rules.Outcome.{recovered-cases}
use ruleraven.Rules.Detect.{
  Match, Options, crash_severity, crash_matches, pod_crash_loop, pod_unschedulable,
  image_pull_failure, job_matches, failed_job, workload_matches, workload_unavailable,
  event_matches, warning_event,
}
use ruleraven.Controller.{is_recovery_id, status_for}

-- A match that is no recovery.
abbrev pub IsFinding : Match → Type 0
IsFinding m = is_recovery_id m.rule_id ≡ false

crash_matches-All : (s : Severity) → All IsFinding (crash_matches s)
crash_matches-All severity_unset = tt
crash_matches-All severity_info = (refl, tt)
crash_matches-All severity_warning = (refl, tt)
crash_matches-All severity_critical = (refl, tt)

pod_crash_loop-All :
    (o : Options) (now : Time) (s : Snapshot) → All IsFinding (pod_crash_loop o now s)
unfolding pod_crash_loop
pod_crash_loop-All o now s =
    ground (arith, crash_matches-All (crash_severity o s.containers severity_unset))

pod_unschedulable-All :
    (o : Options) (now : Time) (s : Snapshot) → All IsFinding (pod_unschedulable o now s)
unfolding pod_unschedulable
pod_unschedulable-All o now s = ground arith

image_pull_failure-All :
    (o : Options) (now : Time) (s : Snapshot) → All IsFinding (image_pull_failure o now s)
unfolding image_pull_failure
image_pull_failure-All o now s = ground arith

failed_job-All : (s : Snapshot) → All IsFinding (failed_job s)
unfolding failed_job job_matches
failed_job-All s = ground arith

workload_unavailable-All :
    (o : Options) (now : Time) (s : Snapshot) → All IsFinding (workload_unavailable o now s)
unfolding workload_unavailable workload_matches
workload_unavailable-All o now s = ground arith

warning_event-All :
    (o : Options) (now : Time) (s : Snapshot) → All IsFinding (warning_event o now s)
unfolding warning_event event_matches
warning_event-All o now s = ground arith

all_matches-All : (o : Options) (now : Time) (s : Snapshot) → All IsFinding (all_matches o now s)
unfolding all_matches unsorted
all_matches-All o now s =
    sort_by-All (λ a b. ltb_text a.rule_id b.rule_id) IsFinding (unsorted o now s)
      (All-append IsFinding (pod_crash_loop o now s) _ (pod_crash_loop-All o now s) (
        All-append IsFinding (pod_unschedulable o now s) _ (pod_unschedulable-All o now s) (
          All-append IsFinding (image_pull_failure o now s) _ (image_pull_failure-All o now s) (
            All-append IsFinding (failed_job s) _ (failed_job-All s) (
              All-append IsFinding (workload_unavailable o now s) _
                (workload_unavailable-All o now s) (warning_event-All o now s))))))

findings-no_recovery :
    (ms : List Match) → All IsFinding ms → any (λ m. is_recovery_id m.rule_id) ms ≡ false
findings-no_recovery [] h = refl
findings-no_recovery (m ∷ ms) h = ground (arith, h.0, findings-no_recovery ms h.1)

abbrev outcome : Option String → List Match → Option Incident → Result
outcome reason matches previous = elim reason [
  | some r ↦ ignored_result r
  | none ↦ conclude matches previous
]

outcome-status :
    (reason : Option String) (matches : List Match) (previous : Option Incident)
    → All IsFinding matches
    → (status_for (outcome reason matches previous) ≡ incident_suppressed ↔ is_some reason ≡ true)
      × (status_for (outcome reason matches previous) ≡ incident_resolved
          ↔ (reason ≡ none) × (matches ≡ []) × (is_some (recovered previous) ≡ true))
unfolding status_for conclude terminal_result
outcome-status (some r) matches previous h = ground arith
outcome-status none [] previous h = ground (arith, recovered-cases previous)
outcome-status none (m ∷ []) previous h = ground (arith, h.0)
outcome-status none (m ∷ n ∷ rest) previous h =
    ground (arith, h.0, h.1.0, findings-no_recovery rest h.1.1)

-- The status that an evaluation gives its incident: suppressed exactly when the snapshot is ignored,
-- and resolved exactly when it is not ignored, no rule matches and an open incident is recovered.
-- No finding of the six rules is ever read as a recovery.
pub status_for-evaluate :
    (o : Options) (now : Time) (s : Snapshot) (previous : Option Incident)
    → (status_for (evaluate o now s previous) ≡ incident_suppressed
        ↔ is_some (ignored_reason o s) ≡ true)
      × (status_for (evaluate o now s previous) ≡ incident_resolved
          ↔ (ignored_reason o s ≡ none)
            × (all_matches o now s ≡ [])
            × (is_some (recovered previous) ≡ true))
unfolding evaluate
status_for-evaluate o now s previous =
    outcome-status (ignored_reason o s) (all_matches o now s) previous (all_matches-All o now s)
