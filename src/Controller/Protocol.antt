-- ===== src/Controller/Protocol.antt =====
-- reconciler.go: `persist` and `decide` call in order.
use ruleraven.Common.{
  inl, inr, ◌≡◌, refl, ap, ◌∙◌, String, ◌==◌, Bool, true, false, not, ◌&&◌, Option, none, some,
  is_some, List, [], ◌∷◌, is_empty, map, all_of, if◌then◌else◌, Bool-cases, Option-cases, arith,
  eq_refl,
}
use ruleraven.Common.Int.{ℤ, Time, eqb_ℤ}
use ruleraven.Domain.{Incident, IncidentStatus, Snapshot, Decision}
use ruleraven.Rules.{Result}
use ruleraven.Provider.Float.{Float64}
use ruleraven.Provider.Contract.{EvaluationRequest, Provider}
use ruleraven.Decision.Compose.{is_semantic}
use ruleraven.Controller.{is_recovery, is_resolved, status_for, notifies}
use ruleraven.Controller.Types.{
  CommitRequest, Upserted, upserted, upsert_failed, Metrics, Encoding, Reconciler,
}
use ruleraven.Controller.Decide.{
  Evaluated, evaluated, not_evaluated, Decided, decide, asked, fall_back, evaluate_provider,
  observe_provider, request_of,
}
use ruleraven.Controller.Persist.{
  evaluation_id_of, event_type_of, deliveries, delivery_to, commit_request, observe_rules,
  observe_transition, committed, commit_decision, with_snapshot, record_incident, with_upserted,
  persist, renewed, new_incident, payload_of,
}
use ruleraven.Controller.Monitor.{
  Phase, idle, with_incident, snapped, asked_once, asked_twice, is_pending, is_consistent,
  may_commit, on_incident, on_snapshot, on_ask, IsMonitor,
}

all_four : {a b c d : Bool} → a ≡ true → b ≡ true → c ≡ true → d ≡ true → a && b && c && d ≡ true
all_four ha hb hc hd = rw (ha, hb, hc, hd) refl

eqb_ℤ-refl : (v : ℤ) → eqb_ℤ v v ≡ true
eqb_ℤ-refl v = ground arith

module _ {S O E : Type 0} (fl : Float64) (enc : Encoding) (r : Reconciler S O E fl)
    (phase : S → Option Phase) (h : IsMonitor fl r phase) where
  observe_provider-phase :
      (name : String) (request : EvaluationRequest) (response : _) (err : _) (s : S)
      → phase (observe_provider fl enc r name request response err s) ≡ phase s
  unfolding observe_provider
  observe_provider-phase name request response err s = elim (Option-cases r.metrics) [
    | inl e ↦ rw (e, observe_provider) (h.log_provider _ s)
    | inr (m, e) ↦
        rw (e, observe_provider) (h.observe_provider_request m _ _ _ _ _ e ∙ h.log_provider _ s)
  ]

  primary-phase :
      (request : EvaluationRequest) (s : S)
      → phase (evaluate_provider fl enc r r.primary request s).1 ≡ on_ask (phase s)
  unfolding evaluate_provider
  primary-phase request s = observe_provider-phase _ request _ _ _ ∙ h.primary request s

  -- From here on the calls so far allow a commit.
  abbrev IsAsked : S → Type 0
  IsAsked s = (p : Phase) × (phase s ≡ some p) × (may_commit p ≡ true)

  fallback-phase :
      (fallback : Option (Provider S fl.F E)) (request : EvaluationRequest)
      (e : Evaluated fl enc r × S)
      → r.fallback ≡ fallback
      → phase e.1 ≡ some asked_once
      → IsAsked (fall_back fl enc r fallback request e).1
  unfolding evaluate_provider
  fallback-phase fallback request (evaluated response, s) k once = (asked_once, once, refl)
  fallback-phase none request (not_evaluated e, s) k once = (asked_once, once, refl)
  fallback-phase (some p) request (not_evaluated e, s) k once = (
    asked_twice,
    observe_provider-phase _ request _ _ _ ∙ h.fallback p request s k ∙ ap on_ask once,
    refl,
  )

  asked-phase :
      (snapshot : Snapshot) (result : Result) (id : String) (state : Option String) (s : S)
      → phase s ≡ some snapped
      → IsAsked (asked fl enc r snapshot result id state s).1
  asked-phase snapshot result id none s k = (snapped, k, refl)
  asked-phase snapshot result id (some state) s k =
      fallback-phase r.fallback (request_of fl enc r snapshot result id state) _ refl
        (primary-phase (request_of fl enc r snapshot result id state) s ∙ ap on_ask k)

  decide-phase :
      (snapshot : Snapshot) (result : Result) (id : String) (s : S)
      → phase s ≡ some snapped
      → IsAsked (decide fl enc r snapshot result id s).1
  unfolding decide
  decide-phase snapshot result id s k = elim (Bool-cases (not (is_semantic result.disposition))) [
    | inl e ↦ rw (e, decide) (snapped, k, refl)
    | inr e ↦ rw (e, decide) (asked-phase snapshot result id (enc.marshal_snapshot snapshot) s k)
  ]

  delivered-all :
      (id event payload : String) (now : Time) (destinations : List String)
      → all_of
          (λ d. d.evaluation_id == id && is_pending d.status)
          (map (delivery_to fl enc r id event payload now) destinations)
        ≡ true
  delivered-all id event payload now [] = refl
  delivered-all id event payload now (d ∷ ds) =
      ground (arith, eq_refl id, delivered-all id event payload now ds)

  deliveries-all :
      (incident : Incident) (snapshot : Snapshot) (id event : String) (decision : Decision)
      (status : IncidentStatus) (now : Time)
      → all_of
          (λ d. d.evaluation_id == id && is_pending d.status)
          (deliveries fl enc r incident snapshot id event decision status now)
        ≡ true
  unfolding deliveries
  deliveries-all incident snapshot id event decision status now =
      elim (Bool-cases (not (is_resolved status) && not (notifies decision.action))) [
        | inl e ↦ rw (e, deliveries) refl
        | inr e ↦
            rw (e, deliveries)
              (delivered-all id event (payload_of fl enc r incident snapshot id decision status) now
                r.destinations)
      ]

  commit_request-is_consistent :
      (incident : Incident) (created : Bool) (snapshot : Snapshot) (result : Result)
      (decision : Decision) (decided : Decided fl enc r) (now : Time)
      → is_consistent
          (commit_request fl enc r incident created snapshot result decision decided now)
        ≡ true
  unfolding commit_request renewed
  commit_request-is_consistent incident created snapshot result decision decided now =
      all_four (eqb_ℤ-refl incident.version) (eq_refl incident.id) (eq_refl snapshot.content_hash) (
        deliveries-all (renewed incident snapshot (status_for result) now) snapshot
          (evaluation_id_of fl enc r incident snapshot result)
          (event_type_of created (status_for result)) decision (status_for result) now)

  -- No call came out of order.
  abbrev pub IsOrderly : S → Type 0
  IsOrderly s = is_some (phase s) ≡ true

  observe_rules-phase :
      (m : Metrics S) (status : IncidentStatus) (decision : Decision) (ids : List String) (s : S)
      → r.metrics ≡ some m
      → phase (observe_rules fl enc r m status decision ids s) ≡ phase s
  observe_rules-phase m status decision [] s e = refl
  observe_rules-phase m status decision (id ∷ ids) s e =
      observe_rules-phase m status decision ids _ e ∙ h.observe_incident_transition m _ _ id s e

  observe_transition-phase :
      (status : IncidentStatus) (decision : Decision) (s : S)
      → phase (observe_transition fl enc r status decision s) ≡ phase s
  unfolding observe_transition
  observe_transition-phase status decision s = elim (Option-cases r.metrics) [
    | inl e ↦ rw (e, observe_transition) refl
    | inr (m, e) ↦
        rw (e, observe_transition)
          (observe_rules-phase m status decision
            (if is_empty decision.rule_ids then "none" ∷ [] else decision.rule_ids) s e)
  ]

  committed-phase :
      (status : IncidentStatus) (decision : Decision) (c : Option E × S)
      → IsOrderly c.1
      → IsOrderly (committed fl enc r status decision c).1
  committed-phase status decision (some e, s) k = k
  committed-phase status decision (none, s) k = rw (observe_transition-phase status decision s) k

  commit_decision-phase :
      (incident : Incident) (created : Bool) (snapshot : Snapshot) (result : Result) (now : Time)
      (decided : Decided fl enc r) (d : Option Decision) (s : S)
      → IsAsked s
      → IsOrderly (commit_decision fl enc r incident created snapshot result now decided d s).1
  commit_decision-phase incident created snapshot result now decided none s (p, k, m) = rw k refl
  commit_decision-phase incident created snapshot result now decided (some decision) s (p, k, m) =
      committed-phase (status_for result) decision (r.store.commit request s) (
        rw
          (
            h.commit request s,
            k,
            m,
            commit_request-is_consistent incident created snapshot result decision decided now,
          )
          refl)
    where
      request : CommitRequest fl.F
      request = commit_request fl enc r incident created snapshot result decision decided now

  with_snapshot-phase :
      (incident : Incident) (created : Bool) (snapshot : Snapshot) (result : Result) (now : Time)
      (u : Option E × S)
      → phase u.1 ≡ some snapped
      → IsOrderly (with_snapshot fl enc r incident created snapshot result now u).1
  with_snapshot-phase incident created snapshot result now (some e, s) k = rw k refl
  with_snapshot-phase incident created snapshot result now (none, s) k =
      commit_decision-phase incident created snapshot result now
        (decide fl enc r snapshot result incident.id s).0 _ _
        (decide-phase snapshot result incident.id s k)

  record_incident-phase :
      (incident : Incident) (created : Bool) (snapshot : Snapshot) (result : Result) (now : Time)
      (s : S)
      → on_snapshot (phase s) ≡ some snapped
      → IsOrderly s
      → IsOrderly (record_incident fl enc r incident created snapshot result now s).1
  unfolding record_incident
  record_incident-phase incident created snapshot result now s k o =
      elim (Bool-cases (
        not created
        && incident.content_hash == snapshot.content_hash
        && not (is_recovery result))) [
          | inl e ↦ rw (e, record_incident) o
          | inr e ↦
              rw (e, record_incident)
                (with_snapshot-phase incident created snapshot result now
                  (r.store.upsert_snapshot incident.id snapshot none s)
                  (h.upsert_snapshot incident.id snapshot none s ∙ k))
        ]

  with_upserted-phase :
      (snapshot : Snapshot) (result : Result) (now : Time) (u : Upserted E × S)
      → phase u.1 ≡ some with_incident
      → IsOrderly (with_upserted fl enc r snapshot result now u).1
  with_upserted-phase snapshot result now (upsert_failed e, s) k = rw k refl
  with_upserted-phase snapshot result now (upserted incident fresh, s) k =
      record_incident-phase incident fresh snapshot result now s (rw k refl) (rw k refl)

  pub persist-phase :
      (snapshot : Snapshot) (previous : Option Incident) (result : Result) (now : Time) (s : S)
      → phase s ≡ some idle
      → IsOrderly (persist fl enc r snapshot previous result now s).1
  unfolding persist
  persist-phase snapshot (some previous) result now s k =
      record_incident-phase previous false snapshot result now s (rw k refl) (rw k refl)
  persist-phase snapshot none result now s k =
      with_upserted-phase snapshot result now
        (r.store.upsert_incident (new_incident fl enc r snapshot now) none s)
        (h.upsert_incident _ none s ∙ ap on_incident k)
