-- ===== src/Tests/SweepTests.antt =====
-- A sweep over the incidents of a store in memory.
use ruleraven.Common.{◌≡◌, refl, String, Option, none, some, List, [], ◌∷◌, ◌++◌}
use ruleraven.Common.Int.{ℤ}
use ruleraven.Domain.{Incident, incident_resolved}
use ruleraven.Kube.{ResourceKey}
use ruleraven.Controller.{sweep_once}
use ruleraven.Store.Documents.{IncidentDocument, SnapshotDocument}
use ruleraven.Store.Mapping.{incident_to_document}
use ruleraven.Store.Collection.{StoreError}
use ruleraven.Store.Incidents.{Transacted, transacted, aborted, Store, list_open_incidents}
use ruleraven.Store.Incidents.Open.{IsOpenSweep, open_incidents, sweep_once-IsOpenSweep}
use ruleraven.Tests.Memory.{memory, memory-IsCollection}
use ruleraven.Tests.RuleTests.{open_incident, mount_event}

-- The incidents of a store, and the queue.
record Watched : Type 0 where
  incidents : List IncidentDocument
  queue : List ResourceKey

abbrev put_incidents : List IncidentDocument → Watched → Watched
put_incidents ds s = record s { incidents = ds }

abbrev add_key : ResourceKey → Watched → Watched
add_key key s = record s { queue = s.queue ++ (key ∷ []) }

abbrev ended : Option (StoreError String) × Watched → Transacted String × Watched
ended (none, t) = (transacted, t)
ended (some e, t) = (aborted e, t)

abbrev store : Store Watched ℤ String
store = record {
  incidents = memory (λ s. s.incidents) put_incidents;
  snapshots = memory {D = SnapshotDocument} (λ s. []) (λ ds s. s);
  evaluations = memory (λ s. []) (λ ds s. s);
  outbox = memory (λ s. []) (λ ds s. s);
  new_object_id = λ s. ("1", s);
  with_transaction = λ body s. ended (body s);
}

abbrev open_event : Incident
open_event = record open_incident { source = mount_event.source }

abbrev start : Watched
start = record {
  incidents =
      incident_to_document open_incident none
      ∷ incident_to_document open_event none
      ∷ incident_to_document (record open_event { status = incident_resolved }) none
      ∷ [];
  queue = [];
}

listing_keeps_queue : (list_open_incidents store start).1.queue ≡ start.queue
unfolding list_open_incidents memory
listing_keeps_queue = refl

sweep_once-IsOpenSweep_example :
    (keys : List ResourceKey) × ((sweep_once add_key "prod" (open_incidents store) start).1.queue
      ≡ [] ++ keys)
    × IsOpenSweep "prod" start.incidents
        (sweep_once add_key "prod" (open_incidents store) start).0
        keys
sweep_once-IsOpenSweep_example =
    sweep_once-IsOpenSweep store (λ s. s.incidents)
      (memory-IsCollection (λ s. s.incidents) put_incidents (λ ds s. refl)) add_key "prod"
      (λ s. s.queue) (λ key s. refl) start listing_keeps_queue
