-- ===== src/Decision/Policy.antt =====
-- What `Compose` promises: an answer whatever the provider does, never below the rules' own
-- decision, and never on evidence that does not validate.
use ruleraven.Common.{
  ◌≡◌, refl, ap, ◌∙◌, ◌≤◌, ◌⊎◌, inl, inr, String, ◌==◌, Bool, true, false, Option, none, some,
  arith, is_some, Bool-cases,
}
use native.Mathlib.Nat.{le_refl}
use ruleraven.Common.Maps.{Map, lookup}
use ruleraven.Domain.{severity_rank, Decision}
use ruleraven.Rules.{Result, disposition_semantic}
use ruleraven.Provider.Float.{Float64, IsOrdered}
use ruleraven.Provider.Question.{Answer}
use ruleraven.Provider.Validate.{validate_answers}
use ruleraven.Provider.Sound.{validate_answers_sound}
use ruleraven.Decision.Questions.{
  operational_triage_v1, operational_triage_v1_questions, question_incident_family,
  question_operational_impact, question_requires_immediate_attention, question_likely_transient,
}
use ruleraven.Decision.Compose.{
  action_rank, apply_deterministic_floor, is_semantic, Thresholds, Composer, new_composer, level_of,
  level_severity, level_action, answer_at, compose_operational_triage, triage_decision, is_usable,
  finish, keep_decided, compose_semantic, compose,
}

finish-ge :
    (result : Result) (d : Decision)
    → (severity_rank d.severity ≤ severity_rank (finish result d).severity)
      × (action_rank d.action ≤ action_rank (finish result d).action)
unfolding apply_deterministic_floor
finish-ge result d = ground arith

keep_decided-cases :
    (o : Option Decision) (floor : Decision) (b : Bool) (rest : Option Decision) {d : Decision}
    → o ≡ some floor
    → keep_decided o b rest ≡ some d
    → (d ≡ floor) ⊎ (rest ≡ some d)
keep_decided-cases none floor b rest k h = absurd (cc)
keep_decided-cases (some x) floor false rest k h = inl (cc)
keep_decided-cases (some x) floor true rest k h = inr h

rest_kept :
    (o : Option Decision) (b : Bool) (rest : Option Decision)
    → b ≡ true
    → keep_decided o b rest ≡ rest
rest_kept none b rest h = refl
rest_kept (some x) true rest h = refl
rest_kept (some x) false rest h = absurd (cc)

finish-floor :
    (result : Result) (d floor : Decision)
    → result.decision ≡ some floor
    → (severity_rank floor.severity ≤ severity_rank (finish result d).severity)
      × (action_rank floor.action ≤ action_rank (finish result d).action)
unfolding apply_deterministic_floor
finish-floor result d floor h = ground (arith, h)

keep_decided_total :
    (o : Option Decision) (b : Bool) (rest : Option Decision)
    → (d : Decision) × (rest ≡ some d)
    → (d : Decision) × (keep_decided o b rest ≡ some d)
keep_decided_total (some d) false rest h = (d, refl)
keep_decided_total (some d) true rest h = h
keep_decided_total none b rest h = h

module _ (fl : Float64) where
  open fl use {F, le, lt}

  answer_at_found :
      (answers : Map (Answer F)) (id : String) {a : Answer F}
      → lookup id answers ≡ some a
      → answer_at fl answers id ≡ a
  answer_at_found answers id e = rw (e, answer_at)

  score_there :
      (answers : Map (Answer F))
      → validate_answers fl operational_triage_v1_questions answers ≡ none
      → (x : F) × ((answer_at fl answers question_operational_impact).score ≡ some x)
  unfolding operational_triage_v1_questions lookup
  score_there answers h =
      let (a, found, _, fits) =
        (validate_answers_sound fl operational_triage_v1_questions answers h).2
          question_operational_impact refl in
      (
        fits.value.0,
        ap (λ b. b.score) (answer_at_found answers question_operational_impact found)
            ∙ fits.value.1,
      )

  immediate_there :
      (answers : Map (Answer F))
      → validate_answers fl operational_triage_v1_questions answers ≡ none
      → (x : F) × ((answer_at fl answers question_requires_immediate_attention).noul ≡ some x)
  unfolding operational_triage_v1_questions lookup
  immediate_there answers h =
      let (a, found, _, fits) =
        (validate_answers_sound fl operational_triage_v1_questions answers h).2
          question_requires_immediate_attention refl in
      (
        fits.value.0,
        ap (λ b. b.noul) (answer_at_found answers question_requires_immediate_attention found)
            ∙ fits.value.1,
      )

  transient_there :
      (answers : Map (Answer F))
      → validate_answers fl operational_triage_v1_questions answers ≡ none
      → (x : F) × ((answer_at fl answers question_likely_transient).noul ≡ some x)
  unfolding operational_triage_v1_questions lookup
  transient_there answers h =
      let (a, found, _, fits) =
        (validate_answers_sound fl operational_triage_v1_questions answers h).2
          question_likely_transient refl in
      (
        fits.value.0,
        ap (λ b. b.noul) (answer_at_found answers question_likely_transient found) ∙ fits.value.1,
      )

  -- Answers that validate have what the triage reads.
  triage_there :
      (c : Composer fl) (answers : Map (Answer F))
      → validate_answers fl operational_triage_v1_questions answers ≡ none
      → (d : Decision) × (compose_operational_triage fl c answers ≡ some d)
  unfolding compose_operational_triage
  triage_there c answers h =
      let (i, ei) = score_there answers h in
      let (m, em) = immediate_there answers h in
      let (t, et) = transient_there answers h in
      (
        triage_decision (answer_at fl answers question_incident_family).choice
            (level_of fl c.thresholds i m t),
        rw (ei, em, et) refl,
      )

  module _ {ℓ} {E : Type ℓ} (c : Composer fl) (result : Result) (answers : Map (Answer F))
      (err : Option E) where
    usable-valid :
        is_usable fl result answers err ≡ true
        → validate_answers fl operational_triage_v1_questions answers ≡ none
    unfolding is_usable
    usable-valid h = ground (arith, h)

    semantic_total : (d : Decision) × (compose_semantic fl c result answers err ≡ some d)
    unfolding compose_semantic
    semantic_total = elim (Bool-cases (is_usable fl result answers err)) [
      | inl e ↦
          let (d, k) = triage_there c answers (usable-valid e) in (finish result d, rw (e, k) refl)
      | inr e ↦ (finish result c.fallback, rw e refl)
    ]

    -- `Compose` returns a decision for every rule result, all answers and every provider error: it
    -- follows no nil pointer.
    pub compose_total : (d : Decision) × (compose fl c result answers err ≡ some d)
    unfolding compose
    compose_total =
        keep_decided_total result.decision (is_semantic result.disposition)
          (compose_semantic fl c result answers err) semantic_total

    -- What is composed of a semantic result, and of one with no decision, is the finish of the
    -- fallback or of a triage of answers that validate.
    semantic-cases :
        (d : Decision)
        → compose_semantic fl c result answers err ≡ some d
        → ((is_usable fl result answers err ≡ false) × (d ≡ finish result c.fallback))
          ⊎ ((is_usable fl result answers err ≡ true)
              × ((e : Decision) × (compose_operational_triage fl c answers ≡ some e)
                  × (d ≡ finish result e)))
    unfolding compose_semantic
    semantic-cases d h = elim (Bool-cases (is_usable fl result answers err)) [
      | inr e ↦ inl (e, ground (arith, h, e))
      | inl e ↦ inr (e, composed (compose_operational_triage fl c answers) (rw e at h))
    ]
      where
        composed :
            (o : Option Decision)
            → (elim o [ none ↦ none | some x ↦ some (finish result x) ]) ≡ some d
            → (x : Decision) × (o ≡ some x) × (d ≡ finish result x)
        composed none k = absurd (cc)
        composed (some x) k = (x, refl, cc)

    -- A composed decision is at least as severe, and its action at least as strong, as the decision
    -- that the rules already made.
    pub compose_floor :
        (d floor : Decision)
        → compose fl c result answers err ≡ some d
        → result.decision ≡ some floor
        → (severity_rank floor.severity ≤ severity_rank d.severity)
          × (action_rank floor.action ≤ action_rank d.action)
    unfolding compose
    compose_floor d floor h k = elim (keep_decided-cases result.decision floor _ _ k h) [
      | inl e ↦ rw e (le_refl _, le_refl _)
      | inr e ↦ elim (semantic-cases d e) [
        | inl (_, p) ↦ rw p (finish-floor result c.fallback floor k)
        | inr (_, (x, _, p)) ↦ rw p (finish-floor result x floor k)
      ]
    ]

  unusable {ℓ} :
      {E : Type ℓ} (result : Result) (answers : Map (Answer F)) (err : Option E)
      → (is_some err ≡ true)
        ⊎ ((result.question_set == operational_triage_v1) ≡ false)
        ⊎ (is_some (validate_answers fl operational_triage_v1_questions answers) ≡ true)
      → is_usable fl result answers err ≡ false
  unfolding is_usable
  unusable result answers err h = ground (arith, h)

  fallback_composed {ℓ} :
      {E : Type ℓ} (c : Composer fl) (result : Result) (answers : Map (Answer F)) (err : Option E)
      → result.disposition ≡ disposition_semantic
      → is_usable fl result answers err ≡ false
      → compose fl c result answers err ≡ some (finish result c.fallback)
  unfolding compose compose_semantic
  fallback_composed c result answers err semantic h =
      rest_kept result.decision (is_semantic result.disposition) _ (cc) ∙ (rw h refl)

  -- With the default composer, where the result is semantic and the provider failed, or the rubric
  -- is not the one known, or the answers do not validate, the decision is made of the fallback
  -- alone: it is at least a warning, and it notifies or pages.
  pub compose_fails_closed {ℓ} :
      {E : Type ℓ} (result : Result) (answers : Map (Answer F)) (err : Option E)
      → result.disposition ≡ disposition_semantic
      → (is_some err ≡ true)
        ⊎ ((result.question_set == operational_triage_v1) ≡ false)
        ⊎ (is_some (validate_answers fl operational_triage_v1_questions answers) ≡ true)
      → (compose fl (new_composer fl) result answers err
          ≡ some (finish result (new_composer fl).fallback))
        × (2 ≤ severity_rank (finish result (new_composer fl).fallback).severity)
        × (3 ≤ action_rank (finish result (new_composer fl).fallback).action)
  unfolding new_composer
  compose_fails_closed result answers err semantic h = (
    fallback_composed (new_composer fl) result answers err semantic (unusable result answers err h),
    (finish-ge result (new_composer fl).fallback).0,
    (finish-ge result (new_composer fl).fallback).1,
  )

  -- More impact, more urgency and less likely transience never make the triage milder.
  pub level_of_mono :
      IsOrdered fl
      → (t : Thresholds fl) (i i' m m' r r' : F) → le i i' ≡ true
      → le m m' ≡ true
      → le r' r ≡ true
      → (severity_rank (level_severity (level_of fl t i m r))
          ≤ severity_rank (level_severity (level_of fl t i' m' r')))
        × (action_rank (level_action (level_of fl t i m r))
            ≤ action_rank (level_action (level_of fl t i' m' r')))
  unfolding level_of
  level_of_mono o t i i' m m' r r' hi hm hr = ground (
    arith,
    o.le_trans t.critical_impact i i',
    o.le_trans t.warning_impact i i',
    o.le_trans t.critical_immediate_attention m m',
    o.le_trans t.warning_immediate_attention m m',
    o.le-lt_trans r' r t.likely_transient_record,
  )
