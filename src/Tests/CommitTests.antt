-- ===== src/Tests/CommitTests.antt =====
-- The commit and the upserts of internal/store/mongo on collections in memory.
use ruleraven.Common.{sym, ◌≡◌, refl, String, Option, none, some, List, [], ◌∷◌}
use mathlib.Core.List.{Memᴰ}
use ruleraven.Common.Int.{ℤ, pos, Time, half, ◌+ℤ◌}
use ruleraven.Domain.{Evaluation, incident_resolved}
use ruleraven.Controller.Types.{CommitRequest}
use ruleraven.Provider.Question.{Answer}
use ruleraven.Store.Documents.{
  IncidentDocument, EvaluationDocument, OutboxDocument, SnapshotDocument,
}
use ruleraven.Store.Mapping.{
  incident_to_document, evaluation_to_document, snapshot_to_document, snapshot_from_document,
}
use ruleraven.Store.RoundTrip.{dated, read_snapshot, snapshot-dated_round_trip}
use ruleraven.Store.Collection.{StoreError}
use ruleraven.Store.Incidents.{
  Transacted, transacted, aborted, Store, has_identity, commit, upsert_incident, update_incident,
}
use ruleraven.Store.Incidents.Laws.{Documents, IsKnown, IsCommit, IsStore, TransactionOutcome}
use ruleraven.Store.Incidents.Commit.{commit-IsCommit, commit-known}
use ruleraven.Store.Incidents.Creation.{IsCreation, upsert_incident-IsCreation}
use ruleraven.Store.Incidents.Revised.{IsUpdated, update_incident-IsUpdated}
use ruleraven.Tests.Memory.{memory, memory-IsCollection, memory-Keeps}
use ruleraven.Tests.RuleTests.{open_incident, crashing_pod}
use ruleraven.Tests.StoreTests.{page}
use ruleraven.Tests.DecisionTests.{floor}

abbrev World : Type 0
World = Documents ℤ

abbrev put_incidents : List IncidentDocument → World → World
put_incidents ds s = record s { incidents = ds }

abbrev put_evaluations : List (EvaluationDocument (Answer ℤ)) → World → World
put_evaluations ds s = record s { evaluations = ds }

abbrev put_outbox : List OutboxDocument → World → World
put_outbox ds s = record s { outbox = ds }

-- What fails leaves no trace.
abbrev ended : World → Option (StoreError String) × World → Transacted String × World
ended s (none, t) = (transacted, t)
ended s (some e, t) = (aborted e, s)

abbrev store : Store World ℤ String
store = record {
  incidents = memory (λ s. s.incidents) put_incidents;
  snapshots = memory {D = SnapshotDocument} (λ s. []) (λ ds s. s);
  evaluations = memory (λ s. s.evaluations) put_evaluations;
  outbox = memory (λ s. s.outbox) put_outbox;
  new_object_id = λ s. ("1", s);
  with_transaction = λ body s. ended s (body s);
}

ended-outcome :
    (body : World → Option (StoreError String) × World) (s : World)
    (r : Option (StoreError String) × World)
    → body s ≡ r
    → TransactionOutcome (λ t. t) body s (ended s r).0 (ended s r).1
ended-outcome body s (none, t) e = (s, refl, (λ i. (e i).0), (λ i. (sym e i).1))
ended-outcome body s (some x, t) e = (s, refl, (λ i. (e i).0), refl)

store-IsStore : IsStore store (λ s. s.incidents) (λ s. s.evaluations) (λ s. s.outbox)
store-IsStore = record {
  incident_laws = memory-IsCollection (λ s. s.incidents) put_incidents (λ ds s. refl);
  evaluation_laws = memory-IsCollection (λ s. s.evaluations) put_evaluations (λ ds s. refl);
  outbox_laws = memory-IsCollection (λ s. s.outbox) put_outbox (λ ds s. refl);
  incidents_keep_evaluations =
      memory-Keeps (λ s. s.incidents) put_incidents (λ s. s.evaluations) (λ ds s. refl);
  incidents_keep_outbox =
      memory-Keeps (λ s. s.incidents) put_incidents (λ s. s.outbox) (λ ds s. refl);
  evaluations_keep_incidents =
      memory-Keeps (λ s. s.evaluations) put_evaluations (λ s. s.incidents) (λ ds s. refl);
  evaluations_keep_outbox =
      memory-Keeps (λ s. s.evaluations) put_evaluations (λ s. s.outbox) (λ ds s. refl);
  outbox_keeps_incidents =
      memory-Keeps (λ s. s.outbox) put_outbox (λ s. s.incidents) (λ ds s. refl);
  outbox_keeps_evaluations =
      memory-Keeps (λ s. s.outbox) put_outbox (λ s. s.evaluations) (λ ds s. refl);
  transactions = λ body s. ended-outcome body s (body s) refl;
}

abbrev evaluation : Evaluation (Answer ℤ)
evaluation = record {
  id = "e1";
  incident_id = "i";
  snapshot_hash = "h";
  policy_version = "p";
  rubric_version = "";
  provider_config_hash = "c";
  decision = floor;
  answers = [];
  provider_audit = none;
  created_at = pos 5;
}

abbrev request : CommitRequest ℤ
request = record {
  incident = open_incident;
  expected_version = pos 1;
  evaluation = evaluation;
  deliveries = page ∷ [];
  expires_at = none;
}

abbrev fresh : World
fresh = record {
  incidents = incident_to_document open_incident none ∷ [];
  evaluations = [];
  outbox = [];
}

abbrev empty : World
empty = record { incidents = []; evaluations = []; outbox = [] }

-- The incident was resolved after its evaluation.
abbrev recurring : World
recurring = record {
  incidents = incident_to_document (record open_incident { status = incident_resolved }) none ∷ [];
  evaluations = evaluation_to_document evaluation none ∷ [];
  outbox = [];
}

commit-IsCommit_example :
    IsCommit request fresh (commit store request fresh).0 (commit store request fresh).1
commit-IsCommit_example =
    commit-IsCommit store (λ s. s.incidents) (λ s. s.evaluations) (λ s. s.outbox) store-IsStore
      request fresh

known : IsKnown request recurring
unfolding has_identity evaluation_to_document
known = record {
  document = evaluation_to_document evaluation none;
  there = Memᴰ.head refl;
  same = refl;
}

commit-known_example : (commit store request recurring).1 ≡ recurring
commit-known_example =
    commit-known store (λ s. s.incidents) (λ s. s.evaluations) (λ s. s.outbox) store-IsStore request
      recurring known

upsert_incident-IsCreation_example :
    IsCreation open_incident none []
      (upsert_incident store open_incident none empty).0
      (upsert_incident store open_incident none empty).1.incidents
upsert_incident-IsCreation_example =
    upsert_incident-IsCreation store (λ s. s.incidents)
      (memory-IsCollection (λ s. s.incidents) put_incidents (λ ds s. refl)) open_incident none empty

update_incident-IsUpdated_example :
    IsUpdated open_incident
      (pos 1)
      none
      fresh.incidents
      (update_incident store open_incident (pos 1) none fresh).0
      (update_incident store open_incident (pos 1) none fresh).1.incidents
update_incident-IsUpdated_example =
    update_incident-IsUpdated store (λ s. s.incidents)
      (memory-IsCollection (λ s. s.incidents) put_incidents (λ ds s. refl)) open_incident (pos 1)
      none fresh

-- A date that keeps every second unit of time.
abbrev in_twos : Time → Time
in_twos t = half t +ℤ half t

snapshot-dated_round_trip_example :
    snapshot_from_document
      (read_snapshot in_twos (snapshot_to_document "1" "i" crashing_pod (some (pos 9))))
    ≡ record {
      id = "1";
      incident_id = "i";
      snapshot = dated in_twos crashing_pod;
      expires_at = some (in_twos (pos 9));
    }
snapshot-dated_round_trip_example =
    snapshot-dated_round_trip in_twos "1" "i" crashing_pod (some (pos 9))
