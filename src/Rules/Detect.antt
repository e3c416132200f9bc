-- ===== src/Rules/Detect.antt =====
-- internal/rules/pod.go, job.go, workload.go, event.go and recovery.go: one function for each rule,
-- which gives its match or nothing. `now` is what the engine's clock answers.
use ruleraven.Common.{
  String, ◌==◌, Bool, false, not, ◌&&◌, ◌||◌, Option, none, some, List, [], ◌∷◌, any, contains,
  if◌then◌else◌, ltb, equal_fold, lower_is,
}
use ruleraven.Common.Int.{ℤ, pos, Time, Duration, is_zero, sub_time, ltb_ℤ, leb_ℤ, eqb_ℤ, ◌+ℤ◌}
use ruleraven.Domain.{
  Severity, severity_warning, severity_critical, severity_unset, severity_rank, Condition,
  ContainerState, WorkloadState, JobState, EventState, Snapshot,
}

pub record Match : Type 0 where
  pub rule_id : String
  pub reason : String
  pub severity : Severity

pub record Options : Type 0 where
  pub crash_loop_restart_threshold : ℤ
  pub crash_loop_critical_threshold : ℤ
  pub minimum_age : Duration
  pub event_quiet_period : Duration
  pub ignored_namespaces : List String
  pub ignored_labels : List String

unfoldable pub condition_transition : List Condition → String → String → String → Option Time
condition_transition [] type status reason = none
condition_transition (c ∷ conditions) type status reason =
    if c.type == type
      && c.status == status
      && (reason == "" || c.reason == reason)
      && not (is_zero c.last_transition_time)
    then some c.last_transition_time
    else condition_transition conditions type status reason

-- `!ok || e.now().Sub(transition) < e.options.MinimumAge`, negated
unfoldable pub old_enough : Options → Time → Option Time → Bool
old_enough o now none = false
old_enough o now (some transition) = not (ltb_ℤ (sub_time now transition) o.minimum_age)

-- The containers that the loop of `podCrashLoop` does not `continue` past.
unfoldable pub is_crash_looping : Options → ContainerState → Bool
is_crash_looping o c = not (
    not (c.state == "waiting")
    || not (c.reason == "CrashLoopBackOff")
    || ltb_ℤ c.restart_count o.crash_loop_restart_threshold)

abbrev crash_candidate : Options → ContainerState → Severity
crash_candidate o c =
    if leb_ℤ o.crash_loop_critical_threshold c.restart_count
    then severity_critical
    else severity_warning

abbrev crash_raise : Severity → Severity → Severity
crash_raise candidate severity =
    if ltb (severity_rank severity) (severity_rank candidate) then candidate else severity

unfoldable pub crash_severity : Options → List ContainerState → Severity → Severity
crash_severity o [] severity = severity
crash_severity o (c ∷ containers) severity =
    crash_severity o containers
      (if is_crash_looping o c then crash_raise (crash_candidate o c) severity else severity)

abbrev pub crash_matches : Severity → List Match
crash_matches severity_unset = []
crash_matches severity =
    record {
      rule_id = "pod-crash-loop";
      severity = severity;
      reason = "one or more containers are crash looping";
    }
    ∷ []

unfoldable pub pod_crash_loop : Options → Time → Snapshot → List Match
pod_crash_loop o now s =
    if not (equal_fold s.source.kind "Pod")
    then []
    else if not (old_enough o now (condition_transition s.conditions "Ready" "False" ""))
    then []
    else crash_matches (crash_severity o s.containers severity_unset)

unfoldable pub pod_unschedulable : Options → Time → Snapshot → List Match
pod_unschedulable o now s =
    if not (equal_fold s.source.kind "Pod")
    then []
    else if not (
        old_enough o now (condition_transition s.conditions "PodScheduled" "False" "Unschedulable"))
    then []
    else record {
      rule_id = "pod-unschedulable";
      severity = severity_warning;
      reason = "pod has remained unschedulable";
    }
      ∷ []

unfoldable pub is_pull_failing : ContainerState → Bool
is_pull_failing c =
    c.state == "waiting" && (c.reason == "ErrImagePull" || c.reason == "ImagePullBackOff")

unfoldable pub image_pull_failure : Options → Time → Snapshot → List Match
image_pull_failure o now s =
    if not (equal_fold s.source.kind "Pod")
    then []
    else if not (old_enough o now (condition_transition s.conditions "Ready" "False" ""))
    then []
    else if any is_pull_failing s.containers
    then record {
      rule_id = "image-pull-failure";
      severity = severity_warning;
      reason = "one or more containers cannot pull their image";
    }
      ∷ []
    else []

abbrev is_failed_condition : Condition → Bool
is_failed_condition c = c.type == "Failed" && c.status == "True"

-- The backoff limit, and at least 1.
abbrev pub failure_threshold : JobState → ℤ
failure_threshold j = if ltb_ℤ j.backoff_limit (pos 1) then pos 1 else j.backoff_limit

unfoldable pub job_matches : JobState → List Condition → List Match
job_matches j conditions =
    if not (any is_failed_condition conditions) && ltb_ℤ j.failed (failure_threshold j)
    then []
    else record { rule_id = "job-failed"; severity = severity_critical; reason = "job has failed" }
      ∷ []

unfoldable pub failed_job : Snapshot → List Match
failed_job s =
    if not (equal_fold s.source.kind "Job")
    then []
    else elim s.job [ none ↦ [] | some j ↦ job_matches j s.conditions ]

unfoldable pub is_workload_kind : String → Bool
is_workload_kind kind =
    lower_is kind "deployment" || lower_is kind "statefulset" || lower_is kind "daemonset"

unfoldable pub unavailable_transition : List Condition → Option Time
unavailable_transition [] = none
unavailable_transition (c ∷ conditions) =
    if not (c.status == "False") || is_zero c.last_transition_time
    then unavailable_transition conditions
    else if c.type == "Available" || c.type == "Ready" || c.type == "Progressing"
    then some c.last_transition_time
    else unavailable_transition conditions

unfoldable pub workload_matches : Options → Time → List Condition → WorkloadState → List Match
workload_matches o now conditions w =
    if leb_ℤ w.desired (pos 0) || leb_ℤ w.desired w.available || leb_ℤ w.unavailable (pos 0)
    then []
    else if not (old_enough o now (unavailable_transition conditions))
    then []
    else record {
      rule_id = "workload-unavailable";
      severity = if eqb_ℤ w.available (pos 0) then severity_critical else severity_warning;
      reason = "workload has unavailable replicas";
    }
      ∷ []

unfoldable pub workload_unavailable : Options → Time → Snapshot → List Match
workload_unavailable o now s = elim s.workload [
  | none ↦ []
  | some w ↦
      if not (is_workload_kind s.source.kind) then [] else workload_matches o now s.conditions w
]

abbrev semantic_warning_reasons : List String
semantic_warning_reasons =
    "FailedAttachVolume" ∷ "FailedCreate" ∷ "FailedDelete" ∷ "FailedMount" ∷ "FailedUpdate"
    ∷ "Unhealthy" ∷ []

-- `eventIsQuiet` of an event that is there; `!now.Before(t)` is `t ≤ now`
unfoldable pub event_is_quiet : Options → Time → EventState → Bool
unfolding ◌+ℤ◌
event_is_quiet o now e =
    if leb_ℤ o.event_quiet_period (pos 0) || is_zero e.last_observed
    then false
    else leb_ℤ (e.last_observed +ℤ o.event_quiet_period) now

unfoldable pub event_matches : Options → Time → EventState → List Match
event_matches o now e =
    if not (equal_fold e.type "Warning") || event_is_quiet o now e
    then []
    else if not (contains semantic_warning_reasons e.reason)
    then []
    else record {
      rule_id = "warning-event";
      severity = severity_warning;
      reason = "selected Warning Event requires semantic triage";
    }
      ∷ []

unfoldable pub warning_event : Options → Time → Snapshot → List Match
warning_event o now s =
    if not (equal_fold s.source.kind "Event")
    then []
    else elim s.event [ none ↦ [] | some e ↦ event_matches o now e ]
