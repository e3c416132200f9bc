-- ===== src/Store/Incidents.antt =====
-- incidents.go, evaluations.go and snapshots.go: the store of incidents, its optimistic updates and its
-- transactional commit. The collections, the generator of object IDs and the transaction are the
-- driver's. The version of an incident is not wrapped, as the database refuses an overflow.
pub mod Laws
pub mod Body
pub mod Commit
pub mod Creation
pub mod Revised
pub mod Open
use ruleraven.Common.{
  String, ◌==◌, Bool, true, false, not, ◌&&◌, ◌||◌, Option, none, some, List, [], ◌∷◌, is_empty,
  map, any, if◌then◌else◌, trim_space,
}
use ruleraven.Common.Int.{ℤ, pos, Time, ◌+ℤ◌, leb_ℤ, eqb_ℤ}
use ruleraven.Domain.{
  Incident, IncidentStatus, incident_open, Snapshot, Evaluation, Notification, NotificationStatus,
  notification_unset, notification_pending,
}
use ruleraven.Controller.Types.{
  CommitRequest, Found, found, no_incident, get_failed, Upserted, upserted, upsert_failed,
  IncidentStore,
}
use ruleraven.Provider.Question.{Answer}
use ruleraven.Store.Documents.{
  IncidentDocument, SnapshotDocument, EvaluationDocument, OutboxDocument,
}
use ruleraven.Store.Mapping.{
  source_to_document, incident_to_document, incident_from_document, StoredSnapshot,
  snapshot_to_document, snapshot_from_document, evaluation_to_document, outbox_to_document,
}
use ruleraven.Store.Collection.{
  StoreError, bad_request, conflict, missing, driver, Collection, Read, read, no_documents,
  read_failed, Written, matched, unmatched, write_failed, Listing, documents, find_failed, Upsert,
  inserted, there, duplicate_key, Stored, stored, duplicate, not_stored,
}

-- How a transaction ends: committed, ended by its body's error, or with an error of the driver, after
-- which it may or may not have been committed.
pub data Transacted (E : Type 0) : Type 0 where
  transacted : Transacted E
  aborted : StoreError E → Transacted E
  lost : E → Transacted E

pub record Store (S F E : Type 0) : Type 0 where
  pub incidents : Collection S IncidentDocument E
  pub snapshots : Collection S SnapshotDocument E
  pub evaluations : Collection S (EvaluationDocument (Answer F)) E
  pub outbox : Collection S OutboxDocument E
  pub new_object_id : S → String × S
  pub with_transaction : (S → Option (StoreError E) × S) → S → Transacted E × S

abbrev pub is_blank : String → Bool
is_blank s = trim_space s == ""

-- `validateIncident`: whether it refuses the incident.
unfoldable pub is_bad_incident : Incident → Bool
is_bad_incident v =
    is_blank v.id || is_blank v.key || is_blank v.cluster_id || leb_ℤ v.version (pos 0)

abbrev pub has_key : String → String → IncidentDocument → Bool
has_key cluster_id key d = d.cluster_id == cluster_id && d.incident_key == key

abbrev pub has_version : String → ℤ → IncidentDocument → Bool
has_version id version d = d.id == id && eqb_ℤ d.version version

abbrev pub is_open : IncidentStatus → Bool
is_open incident_open = true
is_open _ = false

-- `$set` and `$inc`
unfoldable pub revised : Incident → Option Time → IncidentDocument → IncidentDocument
revised v expires_at d = record d {
  source = source_to_document v.source;
  status = v.status;
  updated_at = v.updated_at;
  resolved_at = v.resolved_at;
  content_hash = v.content_hash;
  expires_at = expires_at;
  version = d.version +ℤ pos 1;
}

unfoldable pub has_identity : {A : Type 0} → Evaluation A → EvaluationDocument A → Bool
has_identity v d =
    d.incident_id == v.incident_id
    && d.snapshot_hash == v.snapshot_hash
    && d.policy_version == v.policy_version
    && d.rubric_version == v.rubric_version
    && d.provider_config_hash == v.provider_config_hash

abbrev pub status_or_pending : NotificationStatus → NotificationStatus
status_or_pending notification_unset = notification_pending
status_or_pending status = status

abbrev pub delivery_document : Time → Option Time → Notification → OutboxDocument
delivery_document now expires_at n =
    outbox_to_document (record n { status = status_or_pending n.status }) now expires_at

abbrev pub is_bad_delivery : String → Notification → Bool
is_bad_delivery evaluation_id n = is_blank n.id || not (n.evaluation_id == evaluation_id)

-- What `Commit` refuses before the transaction.
unfoldable pub is_bad_commit : {F : Type 0} → CommitRequest F → Bool
is_bad_commit request =
    is_bad_incident request.incident
    || leb_ℤ request.expected_version (pos 0)
    || is_blank request.evaluation.id
    || not (request.evaluation.incident_id == request.incident.id)
    || any (is_bad_delivery request.evaluation.id) request.deliveries

abbrev pub all_from_documents : {E : Type 0} → Listing IncidentDocument E → Listing Incident E
all_from_documents (documents ds) = documents (map incident_from_document ds)
all_from_documents (find_failed e) = find_failed e

-- A snapshot that is stored, with whether it is this call's.
pub data Snapped (E : Type 0) : Type 0 where
  snapped : StoredSnapshot → Bool → Snapped E
  not_snapped : StoreError E → Snapped E

abbrev pub snapped_as : {E : Type 0} → String → SnapshotDocument → Snapped E
snapped_as candidate d = snapped (snapshot_from_document d) (d.id == candidate)

abbrev pub of_snapshot : String → String → SnapshotDocument → Bool
of_snapshot incident_id content_hash d =
    d.incident_id == incident_id && d.content_hash == content_hash

abbrev pub snapshot_error : {E : Type 0} → Snapped E → Option (StoreError E)
snapshot_error (snapped v created) = none
snapshot_error (not_snapped e) = some e

module _ {S F E : Type 0} (st : Store S F E) where
  abbrev pub gotten : Read IncidentDocument E × S → Found (StoreError E) × S
  gotten (read d, s) = (found (incident_from_document d), s)
  gotten (no_documents, s) = (no_incident, s)
  gotten (read_failed e, s) = (get_failed (driver e), s)

  unfoldable pub get_incident : String → String → S → Found (StoreError E) × S
  get_incident cluster_id key s =
      if is_blank cluster_id || is_blank key
      then (get_failed bad_request, s)
      else gotten (st.incidents.find_one (has_key cluster_id key) s)

  unfoldable pub list_open_incidents : S → Listing Incident E × S
  list_open_incidents s =
      let r = st.incidents.find (λ d. is_open d.status) s in (all_from_documents r.0, r.1)

  -- `ErrNoDocuments` is an error like any other here.
  abbrev pub read_back : Bool → Read IncidentDocument E × S → Upserted (StoreError E) × S
  read_back created (read d, s) = (upserted (incident_from_document d) created, s)
  read_back created (no_documents, s) = (upsert_failed missing, s)
  read_back created (read_failed e, s) = (upsert_failed (driver e), s)

  abbrev pub read_again : (IncidentDocument → Bool) → Written E × S → Upserted (StoreError E) × S
  read_again filter (write_failed e, s) = (upsert_failed (driver e), s)
  read_again filter (_, s) = read_back false (st.incidents.find_one filter s)

  -- After a duplicate key the update is tried again without the upsert, so that it changes nothing.
  abbrev pub after_upsert : (IncidentDocument → Bool) → Upsert E × S → Upserted (StoreError E) × S
  after_upsert filter (inserted, s) = read_back true (st.incidents.find_one filter s)
  after_upsert filter (there, s) = read_back false (st.incidents.find_one filter s)
  after_upsert filter (duplicate_key, s) =
      read_again filter (st.incidents.update_one filter (λ d. d) s)
  after_upsert filter (Upsert.upsert_failed e, s) = (upsert_failed (driver e), s)

  unfoldable pub upsert_incident : Incident → Option Time → S → Upserted (StoreError E) × S
  upsert_incident v expires_at s =
      if is_bad_incident v
      then (upsert_failed bad_request, s)
      else after_upsert (has_key v.cluster_id v.key) (
          st.incidents.upsert_one (has_key v.cluster_id v.key) (incident_to_document v expires_at)
            s)

  abbrev pub revision_of : Written E × S → Option (StoreError E) × S
  revision_of (matched, s) = (none, s)
  revision_of (unmatched, s) = (some conflict, s)
  revision_of (write_failed e, s) = (some (driver e), s)

  unfoldable pub revise : Incident → ℤ → Option Time → S → Option (StoreError E) × S
  revise v expected_version expires_at s =
      revision_of
        (st.incidents.update_one (has_version v.id expected_version) (revised v expires_at) s)

  unfoldable pub update_incident : Incident → ℤ → Option Time → S → Option (StoreError E) × S
  update_incident v expected_version expires_at s =
      if is_bad_incident v then (some bad_request, s) else revise v expected_version expires_at s

  abbrev pub delivered_to_outbox : Option E × S → Option (StoreError E) × S
  delivered_to_outbox (none, s) = (none, s)
  delivered_to_outbox (some e, s) = (some (driver e), s)

  abbrev pub insert_deliveries : CommitRequest F → Option E × S → Option (StoreError E) × S
  insert_deliveries request (some e, s) = (some (driver e), s)
  insert_deliveries request (none, s) =
      if is_empty request.deliveries
      then (none, s)
      else delivered_to_outbox (
          st.outbox.insert_many
            (map (delivery_document request.incident.updated_at request.expires_at)
              request.deliveries)
            s)

  abbrev pub insert_evaluation :
      CommitRequest F → Option (StoreError E) × S → Option (StoreError E) × S
  insert_evaluation request (some e, s) = (some e, s)
  insert_evaluation request (none, s) =
      insert_deliveries request
        (st.evaluations.insert_one (evaluation_to_document request.evaluation request.expires_at) s)

  -- The body of the transaction: nothing is written where the evaluation is there already.
  abbrev pub commit_unknown :
      CommitRequest F → Read (EvaluationDocument (Answer F)) E × S → Option (StoreError E) × S
  commit_unknown request (read d, s) = (none, s)
  commit_unknown request (read_failed e, s) = (some (driver e), s)
  commit_unknown request (no_documents, s) =
      insert_evaluation request
        (revise request.incident request.expected_version request.expires_at s)

  unfoldable pub commit_body : CommitRequest F → S → Option (StoreError E) × S
  commit_body request s =
      commit_unknown request (st.evaluations.find_one (has_identity request.evaluation) s)

  abbrev pub commit_result : Transacted E × S → Option (StoreError E) × S
  commit_result (transacted, s) = (none, s)
  commit_result (aborted e, s) = (some e, s)
  commit_result (lost e, s) = (some (driver e), s)

  unfoldable pub commit : CommitRequest F → S → Option (StoreError E) × S
  commit request s =
      if is_bad_commit request
      then (some bad_request, s)
      else commit_result (st.with_transaction (commit_body request) s)

  abbrev pub snapshot_read : String → Read SnapshotDocument E × S → Snapped E × S
  snapshot_read candidate (read d, s) = (snapped_as candidate d, s)
  snapshot_read candidate (no_documents, s) = (not_snapped missing, s)
  snapshot_read candidate (read_failed e, s) = (not_snapped (driver e), s)

  abbrev pub snapshot_stored :
      (SnapshotDocument → Bool) → String → Stored SnapshotDocument E × S → Snapped E × S
  snapshot_stored filter candidate (stored d, s) = (snapped_as candidate d, s)
  snapshot_stored filter candidate (duplicate, s) =
      snapshot_read candidate (st.snapshots.find_one filter s)
  snapshot_stored filter candidate (not_stored e, s) = (not_snapped (driver e), s)

  abbrev pub snapshot_with : String → Snapshot → Option Time → String × S → Snapped E × S
  snapshot_with incident_id v expires_at (candidate, s) =
      snapshot_stored (of_snapshot incident_id v.content_hash) candidate (
        st.snapshots.find_one_and_upsert (of_snapshot incident_id v.content_hash)
          (snapshot_to_document candidate incident_id v expires_at) s)

  unfoldable pub upsert_snapshot : String → Snapshot → Option Time → S → Snapped E × S
  upsert_snapshot incident_id v expires_at s =
      if is_blank incident_id || is_blank v.content_hash
      then (not_snapped bad_request, s)
      else snapshot_with incident_id v expires_at (st.new_object_id s)

  -- The store as the reconciler sees it.
  abbrev pub incident_store : IncidentStore S F (StoreError E)
  incident_store = record {
    get_incident = get_incident;
    upsert_incident = upsert_incident;
    upsert_snapshot = λ incident_id v expires_at s.
        let r = upsert_snapshot incident_id v expires_at s in (snapshot_error r.0, r.1);
    commit = commit;
  }
