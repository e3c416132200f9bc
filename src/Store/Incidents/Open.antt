-- ===== src/Store/Incidents/Open.antt =====
-- incidents.go and resolution_sweeper.go: `SweepOnce` over `ListOpenIncidents` of the store.
use mathlib.Core.Path.{subst}
use ruleraven.Common.{
  sym, eq_iff, Bool-cases, ◌==◌, ◌≡◌, refl, ◌⊎◌, inl, inr, true, false, Option, none, some, List,
  [], ◌∷◌, ◌++◌, All, All-map, String, equal_fold, arith, map,
}
use mathlib.Core.List.{Memᴰ}
use mathlib.Core.List.Memᴰ
use ruleraven.Domain.{Incident, IncidentStatus, incident_open}
use ruleraven.Kube.{ResourceKey}
use ruleraven.Controller.{Listed, list_failed, listed, sweep_once}
use ruleraven.Controller.Sweep.{
  IsKeyOf, IsSweep, finished, skipped, taken, IsSwept, sweep_once-IsSwept,
}
use ruleraven.Store.Documents.{IncidentDocument}
use ruleraven.Store.Mapping.{incident_from_document}
use ruleraven.Store.Collection.{Listing, documents, find_failed, IsCollection, ListingOutcome}
use ruleraven.Store.Incidents.{Store, is_open, all_from_documents, list_open_incidents}

-- The incidents as the sweeper gets them.
abbrev pub as_listed : {E : Type 0} → Listing Incident E → Listed E
as_listed (documents incidents) = listed incidents
as_listed (find_failed e) = list_failed e

abbrev pub IsEventOf : String → Incident → Type 0
IsEventOf cluster_id i = (i.cluster_id ≡ cluster_id) × (equal_fold i.source.kind "Event" ≡ true)

-- A document of an open incident that is an Event of the cluster.
abbrev pub IsOpenEvent : String → IncidentDocument → Type 0
IsOpenEvent cluster_id d =
    (d.status ≡ incident_open) × IsEventOf cluster_id (incident_from_document d)

-- What a sweep returns, and the keys that it adds, given the documents of the store.
abbrev pub IsOpenSweep :
    {E : Type 0} → String → List IncidentDocument → Option E → List ResourceKey → Type 0
IsOpenSweep cluster_id stored none keys =
    All
      (λ key.
        (d : IncidentDocument) × Memᴰ d stored
        × IsOpenEvent cluster_id d
        × IsKeyOf (incident_from_document d) key)
      keys
    × All
        (λ d.
          (¬ (IsOpenEvent cluster_id d))
          ⊎ ((key : ResourceKey) × Memᴰ key keys × IsKeyOf (incident_from_document d) key))
        stored
IsOpenSweep cluster_id stored (some e) keys = keys ≡ []

is_open-open : (status : IncidentStatus) → is_open status ≡ true → status ≡ incident_open
is_open-open status h = ground (arith, h)

not_open : (status : IncidentStatus) → is_open status ≡ false → ¬ (status ≡ incident_open)
not_open status h e = ground (arith, h, e)

module _ (cluster_id : String) where
  keys-All :
      (P : IncidentDocument → Type 0) (ds : List IncidentDocument) (keys : List ResourceKey)
      → IsSweep cluster_id (map incident_from_document ds) keys
      → All P ds
      → All
          (λ key.
            (d : IncidentDocument) × P d
            × IsEventOf cluster_id (incident_from_document d)
            × IsKeyOf (incident_from_document d) key)
          keys
  keys-All P [] _ finished h = tt
  keys-All P (d ∷ ds) _ (skipped other rest) h = keys-All P ds _ rest h.1
  keys-All P (d ∷ ds) _ (taken same event key rest) h =
      ((d, h.0, (same, event), key), keys-All P ds _ rest h.1)

  abbrev HasKey : List ResourceKey → IncidentDocument → Type 0
  HasKey keys d = (key : ResourceKey) × Memᴰ key keys × IsKeyOf (incident_from_document d) key

  first_key :
      (d : IncidentDocument) (ds : List IncidentDocument) (keys : List ResourceKey)
      → IsSweep cluster_id (map incident_from_document (d ∷ ds)) keys
      → IsEventOf cluster_id (incident_from_document d)
      → HasKey keys d
  first_key d ds _ (skipped (inl foreign) rest) due = absurd (foreign due.0)
  first_key d ds _ (skipped (inr other) rest) due = absurd (clash other)
    where
      clash : equal_fold (incident_from_document d).source.kind "Event" ≡ false → ⊥
      clash e = grind (arith, e, due.1)
  first_key d ds _ (taken {key = k} same event key rest) due = (k, Memᴰ.head refl, key)

  some_key :
      (ds : List IncidentDocument) (keys : List ResourceKey)
      → IsSweep cluster_id (map incident_from_document ds) keys
      → (d : IncidentDocument) → Memᴰ d ds
      → IsEventOf cluster_id (incident_from_document d)
      → HasKey keys d
  some_key [] keys sweep d m due = absurd (Memᴰ.not-nil m)
  some_key (x ∷ ds) keys sweep d (Memᴰ.head e) due = subst (HasKey keys) (sym e) (
      first_key x ds keys sweep
        (subst (λ y. IsEventOf cluster_id (incident_from_document y)) e due))
  some_key (x ∷ ds) _ (skipped other rest) d (Memᴰ.tail m) due = some_key ds _ rest d m due
  some_key (x ∷ ds) _ (taken same event key rest) d (Memᴰ.tail m) due =
      let (k, there, is_key) = some_key ds _ rest d m due in (k, Memᴰ.tail there, is_key)

  -- A key that was added, of a document of the store.
  abbrev IsDueKey : List IncidentDocument → ResourceKey → Type 0
  IsDueKey stored key =
      (d : IncidentDocument) × Memᴰ d stored
      × IsOpenEvent cluster_id d
      × IsKeyOf (incident_from_document d) key

  due_keys :
      (old ds : List IncidentDocument) (keys : List ResourceKey)
      → IsSweep cluster_id (map incident_from_document ds) keys
      → All (λ d. Memᴰ d old × (is_open d.status ≡ true)) ds
      → All (IsDueKey old) keys
  due_keys old ds keys sweep sound =
      All-map
        (λ key.
          (d : IncidentDocument) × (Memᴰ d old × (is_open d.status ≡ true))
          × IsEventOf cluster_id (incident_from_document d)
          × IsKeyOf (incident_from_document d) key)
        (IsDueKey old) keys
        (λ key (d, open_there, event, is_key).
          (d, open_there.0, (is_open-open d.status open_there.1, event), is_key))
        (keys-All (λ d. Memᴰ d old × (is_open d.status ≡ true)) ds keys sweep sound)

  has_key :
      (ds : List IncidentDocument) (keys : List ResourceKey)
      → IsSweep cluster_id (map incident_from_document ds) keys
      → (d : IncidentDocument) → (is_open d.status ≡ false) ⊎ Memᴰ d ds
      → (¬ (IsOpenEvent cluster_id d)) ⊎ HasKey keys d
  has_key ds keys sweep d (inl e) = inl (λ o. not_open d.status e o.0)
  has_key ds keys sweep d (inr m) =
      let i = incident_from_document d in
      elim (Bool-cases (i.cluster_id == cluster_id)) [
        | inl c ↦ elim (Bool-cases (equal_fold i.source.kind "Event")) [
          | inl k ↦ inr (some_key ds keys sweep d m ((eq_iff i.cluster_id cluster_id).0 c, k))
          | inr k ↦ inl (λ o. grind (arith, k, o.1.1))
        ]
        | inr c ↦ inl (λ o. grind (arith, c, (eq_iff i.cluster_id cluster_id).1 o.1.0))
      ]

  open_sweep :
      {E : Type 0} (old new : List IncidentDocument) (r : Listing IncidentDocument E)
      (error : Option E) (keys : List ResourceKey)
      → ListingOutcome (λ d. is_open d.status) old r new
      → IsSwept cluster_id (as_listed (all_from_documents r)) error keys
      → IsOpenSweep cluster_id old error keys
  open_sweep old new (documents ds) error keys (sound, complete, same) (e, sweep) =
      subst (λ x. IsOpenSweep cluster_id old x keys) (sym e)
        (
          due_keys old ds keys sweep sound,
          All-map (λ d. (is_open d.status ≡ false) ⊎ Memᴰ d ds)
              (λ d. (¬ (IsOpenEvent cluster_id d)) ⊎ HasKey keys d) old (has_key ds keys sweep)
              complete,
        )
  open_sweep old new (find_failed x) error keys same (e, none_added) =
      subst (λ x. IsOpenSweep cluster_id old x keys) (sym e) none_added

-- `ListOpenIncidents` as the sweeper calls it.
abbrev pub open_incidents : {S F E : Type 0} → Store S F E → S → Listed E × S
open_incidents st s = (as_listed (list_open_incidents st s).0, (list_open_incidents st s).1)

module _ {S F E : Type 0} (st : Store S F E) (incidents : S → List IncidentDocument)
    (laws : IsCollection st.incidents incidents) (add : ResourceKey → S → S) (cluster_id : String)
    (trace : S → List ResourceKey)
    (adds : (k : ResourceKey) (s : S) → trace (add k s) ≡ trace s ++ (k ∷ [])) where
  -- A sweep over the store, whose listing leaves the queue alone, adds to the queue only keys of
  -- documents whose incident is open, of the sweeper's cluster and of the kind Event, and for every
  -- such document of the store it adds its key, with the namespace, the name and the UID of the
  -- source. Where the listing fails, it adds none.
  pub sweep_once-IsOpenSweep :
      (s : S)
      → trace (list_open_incidents st s).1 ≡ trace s
      → (keys : List ResourceKey) × (trace (sweep_once add cluster_id (open_incidents st) s).1
          ≡ trace s ++ keys)
        × IsOpenSweep cluster_id
            (incidents s)
            (sweep_once add cluster_id (open_incidents st) s).0
            keys
  unfolding list_open_incidents
  sweep_once-IsOpenSweep s h =
      let (keys, added, swept) =
        sweep_once-IsSwept add cluster_id trace adds (open_incidents st) s h in
      (
        keys,
        added,
        open_sweep cluster_id (incidents s) _ _ _ keys (laws.lists (λ d. is_open d.status) s) swept,
      )
