-- ===== src/Rules/Outcome.antt =====
-- What `Evaluate` answers, in every case.
use ruleraven.Common.{
  ◌≡◌, refl, ◌≢◌, ◌≤◌, String, ◌==◌, eq_iff, true, false, ◌↔◌, Option, none, some, List, [], ◌∷◌,
  All, arith, map, if◌then◌else◌, inl, inr, Bool-cases, Option-cases, is_some, ◌⊎◌,
}
use mathlib.Core.List.{Memᴰ}
use mathlib.Core.Path.{subst}
use mathlib.Core.Option.{some-injective, none-ne-some}
use ruleraven.Common.Int.{Time}
use ruleraven.Domain.{
  severity_info, severity_critical, severity_rank, action_page, action_record, action_suppress,
  Decision, Incident, incident_open, incident_resolved, incident_suppressed, Snapshot,
  IncidentStatus,
}
use ruleraven.Rules.Detect.{Match, Options}
use ruleraven.Rules.Winning.{highest_severity-ge, highest_severity-mem}
use ruleraven.Rules.{
  Result, disposition_semantic, disposition_suppress, disposition_no_match, highest_severity,
  decision_for, conclude, all_matches, evaluate, ignored_reason, recovered, recovery_result,
  recovered_from, recovery_match, no_match_result, terminal_result, ignored_result,
}

-- A decision is the worst of its matches.
pub record IsWorst (matches : List Match) (d : Decision) : Type 0 where
  pub bounds : All (λ m. severity_rank m.severity ≤ severity_rank d.severity) matches
  pub attained : (w : Match) × Memᴰ w matches × (w.severity ≡ d.severity) × (w.reason ≡ d.summary)
  pub pages : (d.action ≡ action_page) ↔ (d.severity ≡ severity_critical)
  pub names : d.rule_ids ≡ map (λ m. m.rule_id) matches
  pub codes : d.reason_codes ≡ d.rule_ids

decision_for-IsWorst : (m : Match) (ms : List Match) → IsWorst (m ∷ ms) (decision_for m ms)
unfolding decision_for
decision_for-IsWorst m ms = record {
  bounds = highest_severity-ge m ms;
  attained = (highest_severity m ms, highest_severity-mem m ms, refl, refl);
  pages = ground arith;
  names = refl;
  codes = refl;
}

terminal_result-IsWorst :
    (m : Match) (ms : List Match) (d : Decision)
    → (terminal_result m ms).decision ≡ some d
    → IsWorst (m ∷ ms) d
unfolding terminal_result
terminal_result-IsWorst m ms d h =
    subst (IsWorst (m ∷ ms)) (some-injective _ _ h) (decision_for-IsWorst m ms)

recovery-IsWorst :
    (d : Decision) → recovery_result.decision ≡ some d → IsWorst recovery_result.matches d
recovery-IsWorst d h = subst (IsWorst recovery_result.matches) (some-injective _ _ h) worst
  where
    worst : IsWorst recovery_result.matches (record {
      severity = severity_info;
      action = action_record;
      summary = "previously open incident no longer matches";
      reason_codes = "recovered" ∷ [];
      rule_ids = "recovered" ∷ [];
    })
    worst = record {
      bounds = (omega arith, tt);
      attained = (recovery_match, Memᴰ.head refl, refl, refl);
      pages = ground arith;
      names = refl;
      codes = refl;
    }

empty-IsWorst :
    (previous : Option Incident) (d : Decision)
    → (conclude [] previous).decision ≡ some d
    → IsWorst (conclude [] previous).matches d
unfolding conclude recovered
empty-IsWorst none d h = cc
empty-IsWorst (some i) d h = by_status i.status h
  where
    outcome : IncidentStatus → Result
    outcome status = elim (recovered_from status) [ some r ↦ r | none ↦ no_match_result ]

    by_status :
        (status : IncidentStatus)
        → (outcome status).decision ≡ some d
        → IsWorst (outcome status).matches d
    by_status incident_open e = recovery-IsWorst d e
    by_status incident_resolved e = cc
    by_status incident_suppressed e = cc

conclude-IsWorst :
    (ms : List Match) (previous : Option Incident) (d : Decision)
    → (conclude ms previous).decision ≡ some d
    → IsWorst (conclude ms previous).matches d
unfolding conclude terminal_result
conclude-IsWorst [] previous d h = empty-IsWorst previous d h
conclude-IsWorst (m ∷ []) previous d h = elim (Bool-cases (m.rule_id == "warning-event")) [
  | inl e ↦ absurd (none-ne-some d (rw (e, if◌then◌else◌) at h))
  | inr e ↦ rw e (terminal_result-IsWorst m [] d (rw e at h))
]
conclude-IsWorst (m ∷ n ∷ rest) previous d h = terminal_result-IsWorst m (n ∷ rest) d h

ignored-IsWorst :
    (reason : String) (d : Decision)
    → (ignored_result reason).decision ≡ some d
    → IsWorst (ignored_result reason).matches d
ignored-IsWorst reason d h =
    subst (IsWorst (ignored_result reason).matches) (some-injective _ _ h) worst
  where
    worst : IsWorst (ignored_result reason).matches (record {
      severity = severity_info;
      action = action_suppress;
      summary = reason;
      reason_codes = "ignored" ∷ [];
      rule_ids = "ignored" ∷ [];
    })
    worst = record {
      bounds = (omega arith, tt);
      attained = (
        record { rule_id = "ignored"; reason = reason; severity = severity_info },
        Memᴰ.head refl,
        refl,
        refl,
      );
      pages = ground arith;
      names = refl;
      codes = refl;
    }

-- Whenever an evaluation carries a decision, ignored and recovered snapshots included: its severity
-- is that of some match and is at least that of every match, its summary is that match's reason,
-- its action is to page exactly when the severity is critical, and its rule IDs and reason codes are
-- the IDs of all the matches in their order.
pub evaluate-IsWorst :
    (o : Options) (now : Time) (s : Snapshot) (previous : Option Incident) (d : Decision)
    → (evaluate o now s previous).decision ≡ some d
    → IsWorst (evaluate o now s previous).matches d
unfolding evaluate
evaluate-IsWorst o now s previous d = by_reason (ignored_reason o s)
  where
    outcome : Option String → Result
    outcome r = elim r [
      | some reason ↦ ignored_result reason
      | none ↦ conclude (all_matches o now s) previous
    ]

    by_reason : (r : Option String) → (outcome r).decision ≡ some d → IsWorst (outcome r).matches d
    by_reason none h = conclude-IsWorst (all_matches o now s) previous d h
    by_reason (some reason) h = ignored-IsWorst reason d h

pub recovered-cases :
    (previous : Option Incident)
    → (recovered previous ≡ none) ⊎ (recovered previous ≡ some recovery_result)
unfolding recovered
recovered-cases none = inl refl
recovered-cases (some i) = ground arith

conclude_dispositions :
    (ms : List Match) (previous : Option Incident)
    → let d = (conclude ms previous).disposition in
      (d ≢ disposition_suppress)
      × ((d ≡ disposition_no_match) ↔ ((ms ≡ []) × (is_some (recovered previous) ≡ false)))
      × ((d ≡ disposition_semantic) ↔ ((m : Match) × (ms ≡ m ∷ []) × (m.rule_id ≡ "warning-event")))
unfolding conclude terminal_result
conclude_dispositions [] previous = ground (arith, recovered-cases previous)
conclude_dispositions (m ∷ []) previous = (
  ground arith,
  ground arith,
  (
    λ h. (m, refl, ground (arith, h, eq_iff m.rule_id "warning-event")),
    λ (n, e, k). ground (arith, e, k, eq_iff m.rule_id "warning-event"),
  ),
)
conclude_dispositions (m ∷ n ∷ rest) previous = ground arith

-- Which of the four dispositions an evaluation has: suppress exactly when the snapshot is ignored;
-- no match exactly when it is not ignored, no rule matches and no open incident is recovered;
-- semantic exactly when it is not ignored and the one match is that of the Warning Event rule.
pub evaluate_dispositions :
    (o : Options) (now : Time) (s : Snapshot) (previous : Option Incident)
    → let d = (evaluate o now s previous).disposition in
      ((d ≡ disposition_suppress) ↔ (is_some (ignored_reason o s) ≡ true))
      × ((d ≡ disposition_no_match) ↔ (
          (is_some (ignored_reason o s) ≡ false)
          × (all_matches o now s ≡ [])
          × (is_some (recovered previous) ≡ false)))
      × ((d ≡ disposition_semantic) ↔ (
          (is_some (ignored_reason o s) ≡ false)
          × ((m : Match) × (all_matches o now s ≡ m ∷ []) × (m.rule_id ≡ "warning-event"))))
unfolding evaluate
evaluate_dispositions o now s previous = elim (Option-cases (ignored_reason o s)) [
  | inl e ↦
      rw (e, is_some)
        (let (a, b, c) = conclude_dispositions (all_matches o now s) previous in
          (ground (arith, a), ground (arith, b), ground (arith, c)))
  | inr (reason, e) ↦ rw (e, is_some) (ground arith, ground arith, ground arith)
]
