-- ===== src/Rules/Events.antt =====
-- Snapshots of Kubernetes Events, which only a provider judges.
use ruleraven.Common.{
  ◌≡◌, refl, String, eq_iff, true, false, ◌⊎◌, ◌∙◌, ◌≢◌, Option, none, some, List, [], ◌∷◌, arith,
  inl, inr, if◌then◌else◌, equal_fold, folded,
}
use ruleraven.Common.Int.{Time}
use ruleraven.Common.Sort.{sort_by}
use ruleraven.Common.Folding.{equal_fold_exclusive, lower_is-length}
use ruleraven.Domain.{Incident, IncidentStatus, incident_open, Snapshot, EventState}
use ruleraven.Rules.Detect.{
  Match, Options, pod_crash_loop, pod_unschedulable, image_pull_failure, failed_job,
  workload_unavailable, is_workload_kind, warning_event, event_matches,
}
use ruleraven.Rules.{
  unsorted, Result, disposition_terminal, conclude, all_matches, evaluate, ignored_reason,
  recovery_result, ignored_result, recovered, recovered_from,
}

event_matches-cases :
    (o : Options) (now : Time) (e : EventState)
    → (event_matches o now e ≡ [])
      ⊎ ((m : Match) × (event_matches o now e ≡ m ∷ []) × (m.rule_id ≡ "warning-event"))
unfolding event_matches
event_matches-cases o now e = ground arith

abbrev outcome : Option Incident → Option String → List Match → Result
outcome previous reason matches = elim reason [
  | some r ↦ ignored_result r
  | none ↦ conclude matches previous
]

-- Where anything recovers, it is an incident that is open.
abbrev Recovers : Option Incident → Type 0
Recovers previous = (i : Incident) × (previous ≡ some i) × (i.status ≡ incident_open)

recovered_from-cases :
    (status : IncidentStatus)
    → (recovered_from status ≡ none)
      ⊎ ((status ≡ incident_open) × (recovered_from status ≡ some recovery_result))
recovered_from-cases status = ground arith

recovered-Recovers :
    (previous : Option Incident)
    → (recovered previous ≡ none)
      ⊎ (Recovers previous × (recovered previous ≡ some recovery_result))
unfolding recovered
recovered-Recovers none = inl refl
recovered-Recovers (some i) = elim (recovered_from-cases i.status) [
  | inl e ↦ inl e
  | inr (open_there, e) ↦ inr ((i, refl, open_there), e)
]

terminal_without_match :
    (previous : Option Incident) (reason : Option String) (matches : List Match)
    → matches ≡ []
    → (outcome previous reason matches).disposition ≡ disposition_terminal
    → (outcome previous reason matches ≡ recovery_result) × Recovers previous
unfolding conclude
terminal_without_match previous none matches e h = elim (recovered-Recovers previous) [
  | inl n ↦ absurd (let k = rw e at h in ground (arith, k, n))
  | inr (r, n) ↦ (rw e (ground (arith, n)), r)
]
terminal_without_match previous (some r) matches e h = cc

semantic_not_terminal :
    (m : Match) (previous : Option Incident)
    → m.rule_id ≡ "warning-event"
    → (reason : Option String) (matches : List Match) → matches ≡ m ∷ []
    → (outcome previous reason matches).disposition ≢ disposition_terminal
unfolding conclude
semantic_not_terminal m previous k none matches e h =
    let j = rw e at h in ground (arith, j, eq_iff m.rule_id "warning-event")
semantic_not_terminal m previous k (some r) matches e h = cc

module _ (o : Options) (now : Time) (s : Snapshot)
    (is_event : equal_fold s.source.kind "Event" ≡ true) where
  not_pod : equal_fold s.source.kind "Pod" ≡ false
  not_pod =
      equal_fold_exclusive s.source.kind "Event" "Pod" is_event (unfold equal_fold folded in refl)

  not_job : equal_fold s.source.kind "Job" ≡ false
  not_job =
      equal_fold_exclusive s.source.kind "Event" "Job" is_event (unfold equal_fold folded in refl)

  not_workload : is_workload_kind s.source.kind ≡ false
  unfolding is_workload_kind
  not_workload = rw (
    lower_is-length s.source.kind "Event" "deployment" is_event (unfold folded in refl),
    lower_is-length s.source.kind "Event" "statefulset" is_event (unfold folded in refl),
    lower_is-length s.source.kind "Event" "daemonset" is_event (unfold folded in refl),
  )

  -- The other rules say nothing of an Event.
  event-unsorted : unsorted o now s ≡ warning_event o now s
  unfolding unsorted pod_crash_loop pod_unschedulable image_pull_failure failed_job
      workload_unavailable
  event-unsorted = ground (arith, not_pod, not_job, not_workload)

  warning_event-cases :
      (warning_event o now s ≡ [])
      ⊎ ((m : Match) × (warning_event o now s ≡ m ∷ []) × (m.rule_id ≡ "warning-event"))
  unfolding warning_event
  warning_event-cases = rw (is_event, warning_event, if◌then◌else◌) (by_event s.event)
    where
      by_event :
          (e : Option EventState)
          → ◌⊎◌ ((elim e [ none ↦ [] | some x ↦ event_matches o now x ]) ≡ []) (
              (m : Match) × ((elim e [ none ↦ [] | some x ↦ event_matches o now x ]) ≡ m ∷ [])
              × (m.rule_id ≡ "warning-event"))
      by_event none = inl refl
      by_event (some x) = event_matches-cases o now x

  all_matches-event : all_matches o now s ≡ warning_event o now s
  unfolding all_matches sort_by
  all_matches-event =
      rw event-unsorted (elim warning_event-cases [ inl e ↦ rw e | inr (m, e, k) ↦ rw e ])

  -- An Event never meets a deterministic decision of its own: where the evaluation of a snapshot of
  -- the kind Event (in any case of letters) is terminal, it is the result for a recovery, there is a
  -- previous incident and it is open, and no rule matches.
  pub evaluate_event :
      (previous : Option Incident)
      → (evaluate o now s previous).disposition ≡ disposition_terminal
      → (evaluate o now s previous ≡ recovery_result)
        × (all_matches o now s ≡ [])
        × (i : Incident) × (previous ≡ some i)
        × (i.status ≡ incident_open)
  unfolding evaluate
  evaluate_event previous h = elim warning_event-cases [
    | inl none_there ↦
        let quiet = all_matches-event ∙ none_there in
        let (result, recovers) =
          terminal_without_match previous (ignored_reason o s) (all_matches o now s) quiet h in
        (result, quiet, recovers.0, recovers.1, recovers.2)
    | inr (m, e, k) ↦ absurd (
        semantic_not_terminal m previous k (ignored_reason o s) (all_matches o now s)
          (all_matches-event ∙ e) h)
  ]
