-- ===== src/Store/Incidents/Commit.antt =====
-- evaluations.go: a commit does what it has to, and all of it or nothing.
use ruleraven.Common.{
  ◌≡◌, refl, sym, ◌⊎◌, inl, inr, false, Option, none, some, List, Bool-cases, arith,
}
use mathlib.Core.Path.{subst}
use ruleraven.Controller.Types.{CommitRequest}
use ruleraven.Provider.Question.{Answer}
use ruleraven.Store.Documents.{IncidentDocument, EvaluationDocument, OutboxDocument}
use ruleraven.Store.Collection.{StoreError, bad_request, conflict, early_attempt, missing, driver}
use ruleraven.Store.Updates.{All-mem}
use ruleraven.Store.Incidents.{
  Transacted, transacted, aborted, lost, Store, has_identity, is_bad_commit, commit_body,
  commit_result, commit,
}
use ruleraven.Store.Incidents.Body.{body-IsEnded}
use ruleraven.Store.Incidents.Laws.{
  Documents, IsKnown, IsFresh, IsApplied, IsCommit, IsBody, view_of, TransactionOutcome, IsStore,
}

module _ {S F E : Type 0} (st : Store S F E) (incidents : S → List IncidentDocument)
    (evaluations : S → List (EvaluationDocument (Answer F))) (outbox : S → List OutboxDocument)
    (laws : IsStore st incidents evaluations outbox) (request : CommitRequest F) where
  abbrev view : S → Documents F
  view = view_of incidents evaluations outbox

  -- What the body did where it did not fail is what the transaction did.
  ended-IsBody :
      (s t at : S)
      → view at ≡ view s
      → (commit_body st request at).0 ≡ none
      → view t ≡ view (commit_body st request at).1
      → IsBody {E = E} request (view s) none (view t)
  ended-IsBody s t at same ok out =
      subst (λ o. IsBody {E = E} request o none (view t)) same
        (subst (IsBody {E = E} request (view at) none) (sym out) (
          subst (λ o. IsBody request (view at) o (view (commit_body st request at).1)) ok
            (body-IsEnded st incidents evaluations outbox laws request at)))

  aborted-IsCommit :
      (e : StoreError E) (old new last : Documents F)
      → IsBody request old (some e) last
      → new ≡ old
      → IsCommit request old (some e) new
  aborted-IsCommit bad_request old new last h out = absurd h
  aborted-IsCommit early_attempt old new last h out = h
  aborted-IsCommit missing old new last h out = h
  aborted-IsCommit conflict old new last h out = (h.0, h.1, out)
  aborted-IsCommit (driver e) old new last h out = inl out

  commit_result-IsCommit :
      (s : S) (r : Transacted E × S)
      → is_bad_commit request ≡ false
      → TransactionOutcome view (commit_body st request) s r.0 r.1
      → IsCommit request (view s) (commit_result st r).0 (view (commit_result st r).1)
  commit_result-IsCommit s (transacted, t) g (at, same, ok, out) =
      (g, ended-IsBody s t at same ok out)
  commit_result-IsCommit s (aborted e, t) g (at, same, ko, out) =
      aborted-IsCommit e (view s) (view t) (view (commit_body st request at).1)
        (subst (λ o. IsBody {E = E} request o (some e) (view (commit_body st request at).1)) same
          (subst (λ o. IsBody request (view at) o (view (commit_body st request at).1)) ko
            (body-IsEnded st incidents evaluations outbox laws request at)))
        out
  commit_result-IsCommit s (lost e, t) g (inl out) = inl out
  commit_result-IsCommit s (lost e, t) g (inr (at, same, ok, out)) =
      either (ended-IsBody s t at same ok out)
    where
      either :
          IsBody {E = E} request (view s) none (view t)
          → (view t ≡ view s) ⊎ IsApplied request (view s) (view t)
      either (inl h) = inl h.1
      either (inr h) = inr h

  -- A commit is all or nothing, and does only what its answer says. It succeeds either because an
  -- evaluation with the same identity is there already, and then changes nothing, or by revising the
  -- incident of the expected version and adding the evaluation and every delivery at once. A conflict
  -- means that no incident has that version, and changes nothing; a malformed request is refused
  -- without a write; after an error of the driver all of it has happened or none of it.
  pub commit-IsCommit :
      (s : S) → IsCommit request (view s) (commit st request s).0 (view (commit st request s).1)
  unfolding commit
  commit-IsCommit s = elim (Bool-cases (is_bad_commit request)) [
    | inl b ↦ rw (b, commit) (b, refl)
    | inr b ↦
        rw (b, commit)
          (commit_result-IsCommit s (st.with_transaction (commit_body st request) s) b
            (laws.transactions (commit_body st request) s))
  ]

  unchanged :
      (old new : Documents F) (o : Option (StoreError E))
      → IsKnown request old
      → IsCommit request old o new
      → new ≡ old
  unchanged old new none k (g, inl h) = h.1
  unchanged old new none k (g, inr h) = absurd (clash h.fresh)
    where
      clash : IsFresh request old → ⊥
      clash f = grind (
        arith,
        k.same,
        All-mem (λ d. has_identity request.evaluation d ≡ false) old.evaluations k.document k.there
            f,
      )
  unchanged old new (some bad_request) k h = h.1
  unchanged old new (some early_attempt) k h = absurd h
  unchanged old new (some missing) k h = absurd h
  unchanged old new (some conflict) k h = h.2
  unchanged old new (some (driver e)) k (inl h) = h
  unchanged old new (some (driver e)) k (inr h) = absurd (clash h.fresh)
    where
      clash : IsFresh request old → ⊥
      clash f = grind (
        arith,
        k.same,
        All-mem (λ d. has_identity request.evaluation d ≡ false) old.evaluations k.document k.there
            f,
      )

  -- Where an evaluation with the identity of the request's is there already, a commit changes nothing
  -- of the incidents, the evaluations and the outbox, whatever the request says of the incident.
  pub commit-known : (s : S) → IsKnown request (view s) → view (commit st request s).1 ≡ view s
  commit-known s k = unchanged (view s) _ (commit st request s).0 k (commit-IsCommit s)
