-- ===== src/Store/Incidents/Revised.antt =====
-- incidents.go: `UpdateIncident`, and `updateIncident`, by which a commit revises its incident: the
-- optimistic update of an incident, read off the documents field by field.
use ruleraven.Common.{
  ◌≡◌, refl, ◌⊎◌, inl, inr, true, false, Option, none, some, List, All, All-map, Bool-cases, arith,
  String, ◌==◌, trim_space, eq_iff,
}
use ruleraven.Common.Int.{ℤ, pos, Time, ◌+ℤ◌, ◌≤ℤ◌, eq_of_parts, eqb_ℤ}
use ruleraven.Domain.{Incident}
use ruleraven.Store.Documents.{IncidentDocument}
use ruleraven.Store.Mapping.{source_to_document}
use ruleraven.Store.Collection.{
  StoreError, bad_request, conflict, driver, IsCollection, Written, matched, unmatched,
  write_failed, UpdateOutcome,
}
use ruleraven.Store.Replaced.{OneReplaced, replaced, perhaps_replaced}
use ruleraven.Store.Incidents.{
  Store, has_version, revised, is_bad_incident, revise, revision_of, update_incident,
}

-- The incident's document, at the version that the caller read.
abbrev pub IsExpected : String → ℤ → IncidentDocument → Type 0
IsExpected id version d = (d.id ≡ id) × (d.version ≡ version)

-- The next version of the document, with the incident's source, status, times and content hash; its
-- ID, key, cluster and opening stay.
abbrev pub IsNext : Incident → Option Time → IncidentDocument → IncidentDocument → Type 0
IsNext v expires_at d next = next ≡ record {
  id = d.id;
  incident_key = d.incident_key;
  cluster_id = d.cluster_id;
  source = source_to_document v.source;
  status = v.status;
  opened_at = d.opened_at;
  updated_at = v.updated_at;
  resolved_at = v.resolved_at;
  content_hash = v.content_hash;
  version = d.version +ℤ pos 1;
  expires_at = expires_at;
}

-- Without an ID, a key or a cluster, or with a version that is not positive.
abbrev pub IsImproper : Incident → Type 0
IsImproper v =
    (trim_space v.id == "" ≡ true)
    ⊎ ((trim_space v.key == "" ≡ true)
        ⊎ ((trim_space v.cluster_id == "" ≡ true) ⊎ (v.version ≤ℤ pos 0)))

-- What the answer of an update says of the incidents before and after it.
abbrev pub IsUpdated :
    {E : Type 0}
    → Incident
    → ℤ
    → Option Time
    → List IncidentDocument
    → Option (StoreError E)
    → List IncidentDocument
    → Type 0
IsUpdated v version expires_at old none new =
    OneReplaced (IsExpected v.id version) (IsNext v expires_at) old new
IsUpdated v version expires_at old (some bad_request) new = IsImproper v × (new ≡ old)
IsUpdated v version expires_at old (some conflict) new =
    All (λ d. ¬ (IsExpected v.id version d)) old × (new ≡ old)
IsUpdated v version expires_at old (some (driver e)) new =
    (new ≡ old) ⊎ OneReplaced (IsExpected v.id version) (IsNext v expires_at) old new
IsUpdated v version expires_at old (some _) new = ⊥

has_version-IsExpected :
    (id : String) (version : ℤ) (d : IncidentDocument)
    → has_version id version d ≡ true
    → IsExpected id version d
has_version-IsExpected id version d h =
    (ground (arith, h, eq_iff d.id id), eq_of_parts d.version version (ground (arith, h)))

not-IsExpected :
    (id : String) (version : ℤ) (d : IncidentDocument)
    → has_version id version d ≡ false
    → ¬ (IsExpected id version d)
not-IsExpected id version d h (same, e) = ground (arith, h, (eq_iff d.id id).1 same, same_version e)
  where
    same_version : d.version ≡ version → eqb_ℤ d.version version ≡ true
    same_version k = rw k (ground arith)

revised-IsNext :
    (v : Incident) (expires_at : Option Time) (d : IncidentDocument)
    → IsNext v expires_at d (revised v expires_at d)
unfolding revised
revised-IsNext v expires_at d = refl

module _ {S F E : Type 0} (st : Store S F E) (incidents : S → List IncidentDocument)
    (laws : IsCollection st.incidents incidents) (v : Incident) (version : ℤ)
    (expires_at : Option Time) where
  revision_of-IsUpdated :
      (old : List IncidentDocument) (w : Written E × S)
      → UpdateOutcome (has_version v.id version) (revised v expires_at) old w.0 (incidents w.1)
      → IsUpdated v version expires_at old (revision_of st w).0 (incidents (revision_of st w).1)
  revision_of-IsUpdated old (matched, s) h =
      replaced (has_version v.id version) (revised v expires_at) (IsExpected v.id version)
        (IsNext v expires_at) (has_version-IsExpected v.id version) (revised-IsNext v expires_at) h
  revision_of-IsUpdated old (unmatched, s) h = (
    All-map (λ d. has_version v.id version d ≡ false) (λ d. ¬ (IsExpected v.id version d)) old
        (not-IsExpected v.id version) h.0,
    h.1,
  )
  revision_of-IsUpdated old (write_failed e, s) h =
      perhaps_replaced (has_version v.id version) (revised v expires_at) (IsExpected v.id version)
        (IsNext v expires_at) (has_version-IsExpected v.id version) (revised-IsNext v expires_at) h

  -- An update of an incident is optimistic. It succeeds only by replacing one document that has the
  -- incident's ID and the version the caller expects, by its next version with the incident's source,
  -- status, times and content hash, its key, its cluster and its opening kept. A conflict means that no
  -- document has that ID at that version, an incident without an ID, a key, a cluster or a positive
  -- version is refused, and both change nothing. After an error of the driver at most one such document
  -- is replaced.
  pub update_incident-IsUpdated :
      (s : S)
      → IsUpdated v version expires_at
          (incidents s)
          (update_incident st v version expires_at s).0
          (incidents (update_incident st v version expires_at s).1)
  unfolding update_incident revise is_bad_incident
  update_incident-IsUpdated s = elim (Bool-cases (is_bad_incident v)) [
    | inl b ↦ rw (b, update_incident) (ground (arith, b), refl)
    | inr b ↦
        rw (b, update_incident)
          (revision_of-IsUpdated (incidents s) _
            (laws.updates (has_version v.id version) (revised v expires_at) s))
  ]
