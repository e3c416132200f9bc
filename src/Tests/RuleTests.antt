-- ===== src/Tests/RuleTests.antt =====
-- internal/rules at concrete snapshots.
use ruleraven.Common.{
  ◌≡◌, refl, String, false, true, none, some, [], ◌∷◌, equal_fold, folded, cut_equals, is_some, ◌↔◌,
}
use ruleraven.Common.Int.{ℤ, pos, Time, sub_time, ◌-ℤ◌, ◌+ℤ◌}
use ruleraven.Common.Maps.{lookup}
use ruleraven.Common.Sort.{sort_by, insert_by}
use ruleraven.Domain.{
  Source, ContainerState, Snapshot, Incident, incident_open, severity_critical, action_page,
  Decision,
}
use ruleraven.Rules
use ruleraven.Rules.Detect

abbrev pub pod_source : Source
pod_source = record {
  cluster_id = "prod";
  api_version = "v1";
  kind = "pod";
  namespace = "shop";
  name = "api-0";
  uid = "u-1";
  resource_version = "7";
  generation = pos 1;
  owner = none;
}

abbrev pub options : Detect.Options
options = record {
  crash_loop_restart_threshold = pos 3;
  crash_loop_critical_threshold = pos 10;
  minimum_age = pos 300;
  event_quiet_period = pos 600;
  ignored_namespaces = "kube-system" ∷ [];
  ignored_labels = "mute=yes" ∷ [];
}

abbrev waiting : String → ℤ → ContainerState
waiting reason restarts = record {
  name = "main";
  ready = false;
  restart_count = restarts;
  state = "waiting";
  reason = reason;
  exit_code = pos 0;
}

abbrev pub crashing_pod : Snapshot
crashing_pod = record {
  source = pod_source;
  observed_at = pos 1000;
  labels = [];
  conditions =
      record {
        type = "Ready";
        status = "False";
        reason = "";
        message = "";
        last_transition_time = pos 100;
      }
      ∷ [];
  containers = waiting "ImagePullBackOff" (pos 0) ∷ waiting "CrashLoopBackOff" (pos 12) ∷ [];
  workload = none;
  job = none;
  event = none;
  content_hash = "";
}

abbrev pub mount_event : Snapshot
mount_event = record {
  source = record pod_source { kind = "EVENT" };
  observed_at = pos 1000;
  labels = [];
  conditions = [];
  containers = [];
  workload = none;
  job = none;
  event = some (record {
    type = "Warning";
    reason = "FailedMount";
    message = "";
    regarding_uid = "";
    count = pos 1;
    last_observed = pos 100;
  });
  content_hash = "";
}

abbrev pub open_incident : Incident
open_incident = record {
  id = "i";
  key = "k";
  cluster_id = "prod";
  source = pod_source;
  status = incident_open;
  opened_at = pos 1;
  updated_at = pos 1;
  resolved_at = none;
  content_hash = "h";
  version = pos 1;
}

run : Time → Snapshot → Rules.Result
unfolding Rules.evaluate Rules.ignored_reason Rules.ignored_namespace Rules.ignored_label
    Rules.conclude Rules.all_matches Rules.unsorted Rules.terminal_result Rules.decision_for
    Rules.recovered Detect.pod_crash_loop Detect.pod_unschedulable Detect.image_pull_failure
    Detect.failed_job Detect.workload_unavailable Detect.warning_event Detect.event_matches
    Detect.event_is_quiet Detect.condition_transition Detect.old_enough Detect.crash_severity
    Detect.is_crash_looping Detect.is_pull_failing equal_fold folded sub_time ◌-ℤ◌ ◌+ℤ◌ sort_by
    insert_by cut_equals lookup
run now s = Rules.evaluate options now s (some open_incident)

crashing_pod_pages :
    Rules.Result.decision (run (pos 1000) crashing_pod)
    ≡ some (record {
      severity = severity_critical;
      action = action_page;
      summary = "one or more containers are crash looping";
      reason_codes = "image-pull-failure" ∷ "pod-crash-loop" ∷ [];
      rule_ids = "image-pull-failure" ∷ "pod-crash-loop" ∷ [];
    })
unfolding run
crashing_pod_pages = refl

abbrev crashing_decision : Decision
crashing_decision = record {
  severity = severity_critical;
  action = action_page;
  summary = "one or more containers are crash looping";
  reason_codes = "image-pull-failure" ∷ "pod-crash-loop" ∷ [];
  rule_ids = "image-pull-failure" ∷ "pod-crash-loop" ∷ [];
}

evaluate-IsWorst_example :
    Rules.Outcome.IsWorst
      (Rules.evaluate options (pos 1000) crashing_pod (some open_incident)).matches
      crashing_decision
unfolding run
evaluate-IsWorst_example =
    Rules.Outcome.evaluate-IsWorst options (pos 1000) crashing_pod (some open_incident)
      crashing_decision refl

evaluate_dispositions_example :
    ((run (pos 300) mount_event).disposition ≡ Rules.disposition_suppress)
    ↔ (is_some (Rules.ignored_reason options mount_event) ≡ true)
unfolding run
evaluate_dispositions_example =
    (Rules.Outcome.evaluate_dispositions options (pos 300) mount_event (some open_incident)).0

-- Long after it was last seen, the event is quiet, and the open incident recovers.
evaluate_event_example :
    (Rules.evaluate options (pos 1000) mount_event (some open_incident) ≡ Rules.recovery_result)
    × (Rules.all_matches options (pos 1000) mount_event ≡ [])
    × (i : Incident) × (some open_incident ≡ some i)
    × (i.status ≡ incident_open)
unfolding run
evaluate_event_example =
    Rules.Events.evaluate_event options (pos 1000) mount_event refl (some open_incident) refl
