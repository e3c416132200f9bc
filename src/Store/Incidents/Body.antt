-- ===== src/Store/Incidents/Body.antt =====
-- evaluations.go: what the body of a commit's transaction does.
use ruleraven.Common.{
  ◌≡◌, refl, sym, ap, ◌∙◌, inl, inr, Bool, true, Option, none, some, List, [], ◌∷◌, ◌++◌, map,
  is_empty, Bool-cases, arith,
}
use mathlib.Core.Path.{subst}
use mathlib.Core.List.{append-nil}
use ruleraven.Controller.Types.{CommitRequest}
use ruleraven.Provider.Question.{Answer}
use ruleraven.Store.Documents.{IncidentDocument, EvaluationDocument, OutboxDocument}
use ruleraven.Store.Mapping.{evaluation_to_document}
use ruleraven.Store.Collection.{
  StoreError, Read, read, no_documents, read_failed, Written, matched, unmatched, write_failed,
  OneUpdated, NoMatch, ReadOutcome, UpdateOutcome, InsertOutcome,
}
use ruleraven.Store.Incidents.{
  Store, has_version, revised, has_identity, delivery_document, revision_of, revise,
  delivered_to_outbox, insert_deliveries, insert_evaluation, commit_unknown, commit_body,
}
use ruleraven.Store.Incidents.Laws.{Documents, IsFresh, IsBody, view_of, IsStore}

map-empty : {A B : Type 0} (f : A → B) (xs : List A) → is_empty xs ≡ true → map f xs ≡ []
map-empty f [] e = refl
map-empty f (x ∷ xs) e = grind (arith, e)

module _ {S F E : Type 0} (st : Store S F E) (incidents : S → List IncidentDocument)
    (evaluations : S → List (EvaluationDocument (Answer F))) (outbox : S → List OutboxDocument)
    (laws : IsStore st incidents evaluations outbox) (request : CommitRequest F) where
  abbrev pub view : S → Documents F
  view = view_of incidents evaluations outbox

  abbrev evaluation : EvaluationDocument (Answer F)
  evaluation = evaluation_to_document request.evaluation request.expires_at

  abbrev delivered : List OutboxDocument
  delivered =
      map (delivery_document request.incident.updated_at request.expires_at) request.deliveries

  abbrev expected : IncidentDocument → Bool
  expected = has_version request.incident.id request.expected_version

  abbrev revision : IncidentDocument → IncidentDocument
  revision = revised request.incident request.expires_at

  -- The incident is revised.
  record IsRevised (old : Documents F) (s : S) : Type 0 where
    fresh : IsFresh request old
    updated : OneUpdated expected revision old.incidents (incidents s)
    same : outbox s ≡ old.outbox

  abbrev pub IsEnded : Documents F → Option (StoreError E) × S → Type 0
  IsEnded old r = IsBody request old r.0 (view r.1)

  outbox-IsEnded :
      (old : Documents F) (s : S) (r : Option E × S)
      → IsRevised old s
      → evaluations s ≡ old.evaluations ++ (evaluation ∷ [])
      → incidents r.1 ≡ incidents s
      → evaluations r.1 ≡ evaluations s
      → InsertOutcome delivered (outbox s) r.0 (outbox r.1)
      → IsEnded old (delivered_to_outbox st r)
  outbox-IsEnded old s (some e, t) h ev keep_in keep_ev out = tt
  outbox-IsEnded old s (none, t) h ev keep_in keep_ev out = inr (record {
    fresh = h.fresh;
    incident = subst (OneUpdated expected revision old.incidents) (sym keep_in) h.updated;
    evaluation = keep_ev ∙ ev;
    deliveries = out ∙ ap (λ o. o ++ delivered) h.same;
  })

  evaluation-IsEnded :
      (old : Documents F) (s : S) (r : Option E × S)
      → IsRevised old s
      → evaluations s ≡ old.evaluations
      → incidents r.1 ≡ incidents s
      → outbox r.1 ≡ outbox s
      → InsertOutcome (evaluation ∷ []) (evaluations s) r.0 (evaluations r.1)
      → IsEnded old (insert_deliveries st request r)
  evaluation-IsEnded old s (some e, t) h ev keep_in keep_out out = tt
  evaluation-IsEnded old s (none, t) h ev keep_in keep_out out =
      elim (Bool-cases (is_empty request.deliveries)) [
        | inl e ↦ rw e (
            inr (record {
              fresh = h.fresh;
              incident = revised_t.updated;
              evaluation = ev_t;
              deliveries =
                  revised_t.same
                  ∙ sym (append-nil old.outbox)
                  ∙ ap (λ ds. old.outbox ++ ds) (sym (map-empty _ request.deliveries e));
            }))
        | inr e ↦ rw e (
            outbox-IsEnded old t (st.outbox.insert_many delivered t) revised_t ev_t
              (laws.outbox_keeps_incidents.insert_many delivered t)
              (laws.outbox_keeps_evaluations.insert_many delivered t)
              (laws.outbox_laws.inserts_many delivered t))
      ]
    where
      revised_t : IsRevised old t
      revised_t = record {
        fresh = h.fresh;
        updated = subst (OneUpdated expected revision old.incidents) (sym keep_in) h.updated;
        same = keep_out ∙ h.same;
      }

      ev_t : evaluations t ≡ old.evaluations ++ (evaluation ∷ [])
      ev_t = out ∙ ap (λ e. e ++ (evaluation ∷ [])) ev

  revision-IsEnded :
      (old : Documents F) (s : S) (w : Written E × S)
      → IsFresh request old
      → view s ≡ old
      → evaluations w.1 ≡ evaluations s
      → outbox w.1 ≡ outbox s
      → UpdateOutcome expected revision (incidents s) w.0 (incidents w.1)
      → IsEnded old (insert_evaluation st request (revision_of st w))
  revision-IsEnded old s (write_failed e, t) fresh same keep_ev keep_out out = tt
  revision-IsEnded old s (unmatched, t) fresh same keep_ev keep_out out =
      (fresh, subst (NoMatch expected) (ap (λ d. d.incidents) same) out.0)
  revision-IsEnded old s (matched, t) fresh same keep_ev keep_out out =
      evaluation-IsEnded old t (st.evaluations.insert_one evaluation t)
        (record {
          fresh = fresh;
          updated =
              subst (λ i. OneUpdated expected revision i (incidents t)) (ap (λ d. d.incidents) same)
                out;
          same = keep_out ∙ ap (λ d. d.outbox) same;
        })
        (keep_ev ∙ ap (λ d. d.evaluations) same)
        (laws.evaluations_keep_incidents.insert_one evaluation t)
        (laws.evaluations_keep_outbox.insert_one evaluation t)
        (laws.evaluation_laws.inserts evaluation t)

  unknown-IsEnded :
      (s : S) (r : Read (EvaluationDocument (Answer F)) E × S)
      → incidents r.1 ≡ incidents s
      → outbox r.1 ≡ outbox s
      → ReadOutcome (has_identity request.evaluation) (evaluations s) r.0 (evaluations r.1)
      → IsEnded (view s) (commit_unknown st request r)
  unfolding revise
  unknown-IsEnded s (read_failed e, t) keep_in keep_out out = tt
  unknown-IsEnded s (read d, t) keep_in keep_out out = inl (
    record { document = d; there = out.0; same = out.1 },
    λ i. record { incidents = keep_in i; evaluations = out.2 i; outbox = keep_out i },
  )
  unknown-IsEnded s (no_documents, t) keep_in keep_out out =
      revision-IsEnded (view s) t (st.incidents.update_one expected revision t) out.0
        (λ i. record { incidents = keep_in i; evaluations = out.1 i; outbox = keep_out i })
        (laws.incidents_keep_evaluations.update_one _ _ t)
        (laws.incidents_keep_outbox.update_one _ _ t) (laws.incident_laws.updates _ _ t)

  pub body-IsEnded : (s : S) → IsEnded (view s) (commit_body st request s)
  unfolding commit_body
  body-IsEnded s =
      unknown-IsEnded s (st.evaluations.find_one (has_identity request.evaluation) s)
        (laws.evaluations_keep_incidents.find_one _ s) (laws.evaluations_keep_outbox.find_one _ s)
        (laws.evaluation_laws.reads _ s)
