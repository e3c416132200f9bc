-- ===== src/Store/RoundTrip.antt =====
-- mapping.go: what is written to the database is read back.
use ruleraven.Common.{◌≡◌, refl, ap, ap₂, String, Option, none, some, List, [], ◌∷◌, map}
use ruleraven.Common.Int.{Time}
use ruleraven.Store.Documents.{ConditionDocument, EventDocument, SnapshotDocument}
use ruleraven.Domain.{Condition, EventState, Source, Incident, Snapshot}
use ruleraven.Store.Mapping.{
  opt, source_to_document, source_from_document, incident_to_document, incident_from_document,
  condition_to_document, condition_from_document, container_to_document, container_from_document,
  snapshot_to_document, snapshot_from_document, owner_reference_to_document,
  owner_reference_from_document, workload_to_document, workload_from_document, job_to_document,
  job_from_document, event_to_document, event_from_document,
}

opt-opt :
    {A B : Type 0} (f : A → B) (g : B → A) (h : (x : A) → g (f x) ≡ x) (o : Option A)
    → opt g (opt f o) ≡ o
opt-opt f g h none = refl
opt-opt f g h (some x) = ap (λ y. some y) (h x)

map-map :
    {A B : Type 0} (f : A → B) (g : B → A) (h : (x : A) → g (f x) ≡ x) (xs : List A)
    → map g (map f xs) ≡ xs
map-map f g h [] = refl
map-map f g h (x ∷ xs) = ap₂ (λ y ys. y ∷ ys) (h x) (map-map f g h xs)

source-round_trip : (v : Source) → source_from_document (source_to_document v) ≡ v
unfolding source_from_document source_to_document
source-round_trip v =
    ap (λ o. record v { owner = o })
      (opt-opt owner_reference_to_document owner_reference_from_document (λ o. refl) v.owner)

-- The conversions of an incident to a document, with any expiry, and back lose nothing.
pub incident-round_trip :
    (v : Incident) (expires_at : Option Time)
    → incident_from_document (incident_to_document v expires_at) ≡ v
unfolding incident_from_document incident_to_document
incident-round_trip v expires_at = ap (λ s. record v { source = s }) (source-round_trip v.source)

-- The BSON driver between the write and the read: a time is stored as a date, of which it reads back
-- what a date keeps.
module _ (date : Time → Time) where
  abbrev dated_condition : Condition → Condition
  dated_condition c = record c { last_transition_time = date c.last_transition_time }

  abbrev dated_event : EventState → EventState
  dated_event e = record e { last_observed = date e.last_observed }

  -- A snapshot whose times are dates.
  abbrev pub dated : Snapshot → Snapshot
  dated v = record v {
    observed_at = date v.observed_at;
    conditions = map dated_condition v.conditions;
    event = opt dated_event v.event;
  }

  abbrev read_condition : ConditionDocument → ConditionDocument
  read_condition c = record c { last_transition_time = date c.last_transition_time }

  abbrev read_event : EventDocument → EventDocument
  read_event e = record e { last_observed = date e.last_observed }

  -- The document of a snapshot as it is read, of the one that was written.
  abbrev pub read_snapshot : SnapshotDocument → SnapshotDocument
  read_snapshot d = record d {
    observed_at = date d.observed_at;
    snapshot = record d.snapshot {
      observed_at = date d.snapshot.observed_at;
      conditions = map read_condition d.snapshot.conditions;
      event = opt read_event d.snapshot.event;
    };
    expires_at = opt date d.expires_at;
  }

  conditions-round_trip :
      (cs : List Condition)
      → map condition_from_document (map read_condition (map condition_to_document cs))
        ≡ map dated_condition cs
  conditions-round_trip [] = refl
  conditions-round_trip (c ∷ cs) = ap (λ r. dated_condition c ∷ r) (conditions-round_trip cs)

  event-round_trip :
      (e : Option EventState)
      → opt event_from_document (opt read_event (opt event_to_document e)) ≡ opt dated_event e
  event-round_trip none = refl
  event-round_trip (some e) = refl

  -- A snapshot that is written, under any ID and incident and with any expiry, is read back under that
  -- ID and incident with its source, its labels, its containers, its workload and job and its content
  -- hash as they were, and with its conditions in their order. Of its times, when it was observed, its
  -- conditions' transitions, its event's last observation and the expiry, exactly what a date keeps is
  -- read back.
  pub snapshot-dated_round_trip :
      (id incident_id : String) (v : Snapshot) (expires_at : Option Time)
      → snapshot_from_document (read_snapshot (snapshot_to_document id incident_id v expires_at))
        ≡ record {
          id = id;
          incident_id = incident_id;
          snapshot = dated v;
          expires_at = opt date expires_at;
        }
  unfolding snapshot_from_document snapshot_to_document
  snapshot-dated_round_trip id incident_id v expires_at = λ i. record {
    id = id;
    incident_id = incident_id;
    snapshot = record v {
      source = source-round_trip v.source i;
      observed_at = date v.observed_at;
      conditions = conditions-round_trip v.conditions i;
      containers = map-map container_to_document container_from_document (λ c. refl) v.containers i;
      workload = opt-opt workload_to_document workload_from_document (λ w. refl) v.workload i;
      job = opt-opt job_to_document job_from_document (λ j. refl) v.job i;
      event = event-round_trip v.event i;
    };
    expires_at = opt date expires_at;
  }
