-- ===== src/Store/Incidents/Laws.antt =====
-- evaluations.go: what a commit has to do to the incidents, the evaluations and the outbox, and what it
-- relies on of the collections and of a transaction.
use ruleraven.Common.{◌≡◌, ◌⊎◌, true, false, Option, none, some, List, [], ◌∷◌, ◌++◌, map}
use mathlib.Core.List.{Memᴰ}
use ruleraven.Controller.Types.{CommitRequest}
use ruleraven.Provider.Question.{Answer}
use ruleraven.Store.Documents.{IncidentDocument, EvaluationDocument, OutboxDocument}
use ruleraven.Store.Mapping.{evaluation_to_document}
use ruleraven.Store.Collection.{
  StoreError, bad_request, conflict, driver, IsCollection, Keeps, OneUpdated, NoMatch,
}
use ruleraven.Store.Incidents.{
  Transacted, transacted, aborted, lost, Store, has_version, revised, has_identity,
  delivery_document, is_bad_commit,
}

-- The documents of the database that a commit is about.
pub record Documents (F : Type 0) : Type 0 where
  pub incidents : List IncidentDocument
  pub evaluations : List (EvaluationDocument (Answer F))
  pub outbox : List OutboxDocument

-- An evaluation with the identity of the request's is there already.
pub record IsKnown {F : Type 0} (request : CommitRequest F) (old : Documents F) : Type 0 where
  pub document : EvaluationDocument (Answer F)
  pub there : Memᴰ document old.evaluations
  pub same : has_identity request.evaluation document ≡ true

abbrev pub IsFresh : {F : Type 0} → CommitRequest F → Documents F → Type 0
IsFresh request old = NoMatch (has_identity request.evaluation) old.evaluations

-- The commit in full: the incident of the expected version is revised, the evaluation is added and so
-- is every delivery.
pub record IsApplied {F : Type 0} (request : CommitRequest F) (old new : Documents F) : Type 0 where
  pub fresh : IsFresh request old
  pub incident :
      OneUpdated
        (has_version request.incident.id request.expected_version)
        (revised request.incident request.expires_at)
        old.incidents
        new.incidents
  pub evaluation :
      new.evaluations
      ≡ old.evaluations ++ (evaluation_to_document request.evaluation request.expires_at ∷ [])
  pub deliveries :
      new.outbox
      ≡ old.outbox
        ++ map (delivery_document request.incident.updated_at request.expires_at) request.deliveries

-- What the answer of a commit says of the documents before and after it.
abbrev pub IsCommit :
    {F E : Type 0} → CommitRequest F → Documents F → Option (StoreError E) → Documents F → Type 0
IsCommit request old none new =
    (is_bad_commit request ≡ false)
    × ((IsKnown request old × (new ≡ old)) ⊎ IsApplied request old new)
IsCommit request old (some bad_request) new = (is_bad_commit request ≡ true) × (new ≡ old)
IsCommit request old (some conflict) new =
    IsFresh request old
    × NoMatch (has_version request.incident.id request.expected_version) old.incidents
    × (new ≡ old)
IsCommit request old (some (driver e)) new = (new ≡ old) ⊎ IsApplied request old new
IsCommit request old (some _) new = ⊥

-- What the body of the transaction does where it does not fail, and why it fails with a conflict.
abbrev pub IsBody :
    {F E : Type 0} → CommitRequest F → Documents F → Option (StoreError E) → Documents F → Type 0
IsBody request old none new = (IsKnown request old × (new ≡ old)) ⊎ IsApplied request old new
IsBody request old (some conflict) new =
    IsFresh request old
    × NoMatch (has_version request.incident.id request.expected_version) old.incidents
IsBody request old (some (driver e)) new = Unit
IsBody request old (some _) new = ⊥

abbrev pub view_of :
    {S F : Type 0}
    → (S → List IncidentDocument)
    → (S → List (EvaluationDocument (Answer F)))
    → (S → List OutboxDocument)
    → S
    → Documents F
view_of incidents evaluations outbox s = record {
  incidents = incidents s;
  evaluations = evaluations s;
  outbox = outbox s;
}

-- A transaction: its body runs on the documents as they are, and either all of its writes count or
-- none do, which of the two is not known after an error of the driver.
abbrev pub TransactionOutcome :
    {S F E : Type 0}
    → (S → Documents F)
    → (S → Option (StoreError E) × S)
    → S
    → Transacted E
    → S
    → Type 0
TransactionOutcome view body s transacted t =
    (at : _) × (view at ≡ view s) × ((body at).0 ≡ none) × (view t ≡ view (body at).1)
TransactionOutcome view body s (aborted e) t =
    (at : _) × (view at ≡ view s) × ((body at).0 ≡ some e) × (view t ≡ view s)
TransactionOutcome view body s (lost e) t =
    (view t ≡ view s)
    ⊎ ((at : _) × (view at ≡ view s) × ((body at).0 ≡ none) × (view t ≡ view (body at).1))

pub record IsStore {S F E : Type 0} (st : Store S F E) (incidents : S → List IncidentDocument)
    (evaluations : S → List (EvaluationDocument (Answer F))) (outbox : S → List OutboxDocument)
    : Type 0 where
  pub incident_laws : IsCollection st.incidents incidents
  pub evaluation_laws : IsCollection st.evaluations evaluations
  pub outbox_laws : IsCollection st.outbox outbox
  pub incidents_keep_evaluations : Keeps st.incidents evaluations
  pub incidents_keep_outbox : Keeps st.incidents outbox
  pub evaluations_keep_incidents : Keeps st.evaluations incidents
  pub evaluations_keep_outbox : Keeps st.evaluations outbox
  pub outbox_keeps_incidents : Keeps st.outbox incidents
  pub outbox_keeps_evaluations : Keeps st.outbox evaluations
  pub transactions :
      (body : S → Option (StoreError E) × S) (s : S)
      → TransactionOutcome
          (view_of incidents evaluations outbox)
          body
          s
          (st.with_transaction body s).0
          (st.with_transaction body s).1
