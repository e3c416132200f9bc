-- ===== src/Store/Incidents/Creation.antt =====
-- incidents.go: `UpsertIncident` gets the incident of a key or creates it.
use ruleraven.Common.{
  ◌≡◌, refl, sym, ap, ◌∙◌, ◌⊎◌, inl, inr, Bool, true, false, Option, List, [], ◌∷◌, ◌++◌,
  Bool-cases, arith,
}
use mathlib.Core.Path.{subst}
use mathlib.Core.List.{Memᴰ}
use mathlib.Core.List.Memᴰ
use ruleraven.Common.Int.{Time}
use ruleraven.Domain.{Incident}
use ruleraven.Controller.Types.{Upserted, upserted, upsert_failed}
use ruleraven.Store.Documents.{IncidentDocument}
use ruleraven.Store.Mapping.{incident_to_document, incident_from_document}
use ruleraven.Store.RoundTrip.{incident-round_trip}
use ruleraven.Store.Collection.{
  StoreError, bad_request, conflict, early_attempt, IsCollection, Read, read, no_documents,
  read_failed, Written, matched, unmatched, write_failed, Upsert, inserted, there, duplicate_key,
  NoMatch, ReadOutcome, UpdateOutcome, UpsertOutcome,
}
use ruleraven.Store.Updates.{All-mem}
use ruleraven.Store.Incidents.{
  Store, has_key, is_bad_incident, read_back, read_again, after_upsert, upsert_incident,
}

-- What the answer of an upsert says of the incidents before and after it.
abbrev pub IsCreation :
    {E : Type 0}
    → Incident
    → Option Time
    → List IncidentDocument
    → Upserted (StoreError E)
    → List IncidentDocument
    → Type 0
IsCreation v expires_at old (upserted incident true) new =
    (incident ≡ v)
    × NoMatch (has_key v.cluster_id v.key) old
    × (new ≡ old ++ (incident_to_document v expires_at ∷ []))
IsCreation v expires_at old (upserted incident false) new =
    (d : IncidentDocument) × Memᴰ d old
    × (has_key v.cluster_id v.key d ≡ true)
    × (incident ≡ incident_from_document d)
    × (new ≡ old)
IsCreation v expires_at old (upsert_failed bad_request) new =
    (is_bad_incident v ≡ true) × (new ≡ old)
IsCreation v expires_at old (upsert_failed conflict) new = ⊥
IsCreation v expires_at old (upsert_failed early_attempt) new = ⊥
IsCreation v expires_at old (upsert_failed _) new =
    (new ≡ old)
    ⊎ (NoMatch (has_key v.cluster_id v.key) old
        × (new ≡ old ++ (incident_to_document v expires_at ∷ [])))

module _ {S F E : Type 0} (st : Store S F E) (incidents : S → List IncidentDocument)
    (laws : IsCollection st.incidents incidents) (v : Incident) (expires_at : Option Time) where
  abbrev document : IncidentDocument
  document = incident_to_document v expires_at

  abbrev filter : IncidentDocument → Bool
  filter = has_key v.cluster_id v.key

  abbrev IsDone : List IncidentDocument → Upserted (StoreError E) × S → Type 0
  IsDone old r = IsCreation v expires_at old r.0 (incidents r.1)

  -- The one document that matches is the one that was inserted.
  only :
      (old : List IncidentDocument) (d : IncidentDocument)
      → NoMatch filter old
      → filter d ≡ true
      → Memᴰ d (old ++ (document ∷ []))
      → d ≡ document
  only old d n h m = elim (Memᴰ.append_cases old m) [
    | inl before ↦ absurd (clash (All-mem (λ x. filter x ≡ false) old d before n))
    | inr behind ↦ last behind
  ]
    where
      clash : filter d ≡ false → ⊥
      clash c = grind (arith, c, h)

      last : Memᴰ d (document ∷ []) → d ≡ document
      last (Memᴰ.head e) = e
      last (Memᴰ.tail rest) = absurd (Memᴰ.not-nil rest)

  created-IsDone :
      (old : List IncidentDocument) (s : S) (r : Read IncidentDocument E × S)
      → NoMatch filter old
      → incidents s ≡ old ++ (document ∷ [])
      → ReadOutcome filter (incidents s) r.0 (incidents r.1)
      → IsDone old (read_back st true r)
  created-IsDone old s (read_failed e, t) n h out = inr (n, out ∙ h)
  created-IsDone old s (no_documents, t) n h out = inr (n, out.1 ∙ h)
  created-IsDone old s (read d, t) n h out = (
    ap incident_from_document (only old d n out.1 (subst (Memᴰ d) h out.0))
        ∙ incident-round_trip v expires_at,
    n,
    out.2 ∙ h,
  )

  found-IsDone :
      (old : List IncidentDocument) (s : S) (r : Read IncidentDocument E × S)
      → incidents s ≡ old
      → ReadOutcome filter (incidents s) r.0 (incidents r.1)
      → IsDone old (read_back st false r)
  found-IsDone old s (read_failed e, t) h out = inl (out ∙ h)
  found-IsDone old s (no_documents, t) h out = inl (out.1 ∙ h)
  found-IsDone old s (read d, t) h out = (d, subst (Memᴰ d) h out.0, out.1, refl, out.2 ∙ h)

  again-IsDone :
      (old : List IncidentDocument) (s : S) (w : Written E × S)
      → incidents s ≡ old
      → UpdateOutcome filter (λ d. d) (incidents s) w.0 (incidents w.1)
      → IsDone old (read_again st filter w)
  again-IsDone old s (write_failed e, t) h (inl out) = inl (out ∙ h)
  again-IsDone old s (write_failed e, t) h (inr u) = inl (u.updated ∙ sym u.here ∙ h)
  again-IsDone old s (unmatched, t) h out =
      found-IsDone old t (st.incidents.find_one filter t) (out.1 ∙ h) (laws.reads filter t)
  again-IsDone old s (matched, t) h u =
      found-IsDone old t (st.incidents.find_one filter t) (u.updated ∙ sym u.here ∙ h)
        (laws.reads filter t)

  upserted-IsDone :
      (old : List IncidentDocument) (u : Upsert E × S)
      → UpsertOutcome filter document old u.0 (incidents u.1)
      → IsDone old (after_upsert st filter u)
  upserted-IsDone old (inserted, t) out =
      created-IsDone old t (st.incidents.find_one filter t) out.0 out.1 (laws.reads filter t)
  upserted-IsDone old (there, t) out =
      found-IsDone old t (st.incidents.find_one filter t) out (laws.reads filter t)
  upserted-IsDone old (duplicate_key, t) out =
      again-IsDone old t (st.incidents.update_one filter (λ d. d) t) out
        (laws.updates filter (λ d. d) t)
  upserted-IsDone old (Upsert.upsert_failed e, t) out = out

  -- An upsert gets the incident of a key or creates it. It answers that it created the incident only
  -- where none has its cluster and key, with the incident as it was given, and adds only that; it
  -- answers with an incident of that cluster and key where one is there, and changes nothing; a
  -- malformed incident is refused without a write; after an error at most the incident was added.
  pub upsert_incident-IsCreation :
      (s : S)
      → IsCreation v expires_at
          (incidents s)
          (upsert_incident st v expires_at s).0
          (incidents (upsert_incident st v expires_at s).1)
  unfolding upsert_incident
  upsert_incident-IsCreation s = elim (Bool-cases (is_bad_incident v)) [
    | inl b ↦ rw (b, upsert_incident) (b, refl)
    | inr b ↦
        rw (b, upsert_incident)
          (upserted-IsDone (incidents s) (st.incidents.upsert_one filter document s)
            (laws.upserts filter document s))
  ]
