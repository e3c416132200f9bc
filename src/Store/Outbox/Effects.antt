-- ===== src/Store/Outbox/Effects.antt =====
-- What each operation of the outbox does to the documents, on every branch.
use ruleraven.Common.{◌≡◌, refl, ◌⊎◌, inl, inr, Bool, false, List, Bool-cases}
use ruleraven.Notify.Dispatcher.{ClaimRequest, CompleteRequest, RescheduleRequest}
use ruleraven.Store.Documents.{OutboxDocument}
use ruleraven.Store.Collection.{
  Collection, IsCollection, Read, read, no_documents, read_failed, Written, matched, unmatched,
  write_failed, OneUpdated,
}
use ruleraven.Store.Updates.{Effect, update-Effect, claim-Effect}
use ruleraven.Store.Outbox.{
  is_due, due_before, due_before_order, leased, is_held, finished, released, claim_of, is_bad_claim,
  claim_delivery, written_of, is_bad_completion, complete_delivery, is_bad_reschedule, is_early,
  reschedule_delivery,
}

-- An operation that may refuse its request at once, and otherwise writes.
abbrev pub Guarded : {D : Type 0} → Bool → (D → Bool) → (D → D) → List D → List D → Type 0
Guarded refused filter update old new =
    (new ≡ old) ⊎ ((refused ≡ false) × OneUpdated filter update old new)

guard :
    {D : Type 0} {refused : Bool} {filter : D → Bool} {update : D → D} {old new : List D}
    → refused ≡ false
    → Effect filter update old new
    → Guarded refused filter update old new
guard g (inl e) = inl e
guard g (inr u) = inr (g, u)

module _ {S E : Type 0} (outbox : Collection S OutboxDocument E) (docs : S → List OutboxDocument)
    (laws : IsCollection outbox docs) where
  claim_of-docs : (r : Read OutboxDocument E × S) → docs (claim_of outbox r).1 ≡ docs r.1
  claim_of-docs (read d, s) = refl
  claim_of-docs (no_documents, s) = refl
  claim_of-docs (read_failed e, s) = refl

  written_of-docs : (w : Written E × S) → docs (written_of outbox w).1 ≡ docs w.1
  written_of-docs (matched, s) = refl
  written_of-docs (unmatched, s) = refl
  written_of-docs (write_failed e, s) = refl

  pub claim_delivery-Guarded :
      (request : ClaimRequest) (s : S)
      → Guarded
          (is_bad_claim request)
          (is_due request.now)
          (leased request)
          (docs s)
          (docs (claim_delivery outbox request s).1)
  unfolding claim_delivery
  claim_delivery-Guarded request s = elim (Bool-cases (is_bad_claim request)) [
    | inl b ↦ rw (b, claim_delivery) (inl refl)
    | inr b ↦
        rw
          (
            b,
            claim_delivery,
            claim_of-docs
                (outbox.find_one_and_update (is_due request.now) (leased request) due_before s),
          )
          (guard refl (
            claim-Effect (is_due request.now) (leased request) due_before (docs s) _ _
              (laws.claims (is_due request.now) (leased request) due_before s due_before_order)))
  ]

  pub complete_delivery-Guarded :
      (request : CompleteRequest) (s : S)
      → Guarded
          (is_bad_completion request)
          (is_held request.id request.worker_id)
          (finished request)
          (docs s)
          (docs (complete_delivery outbox request s).1)
  unfolding complete_delivery
  complete_delivery-Guarded request s = elim (Bool-cases (is_bad_completion request)) [
    | inl b ↦ rw (b, complete_delivery) (inl refl)
    | inr b ↦
        rw
          (
            b,
            complete_delivery,
            written_of-docs
                (outbox.update_one (is_held request.id request.worker_id) (finished request) s),
          )
          (guard refl (
            update-Effect (is_held request.id request.worker_id) (finished request) (docs s) _ _
              (laws.updates (is_held request.id request.worker_id) (finished request) s)))
  ]

  pub reschedule_delivery-Guarded :
      (request : RescheduleRequest) (s : S)
      → Guarded
          (is_bad_reschedule request)
          (is_held request.id request.worker_id)
          (released request)
          (docs s)
          (docs (reschedule_delivery outbox request s).1)
  unfolding reschedule_delivery
  reschedule_delivery-Guarded request s = elim (Bool-cases (is_bad_reschedule request)) [
    | inl b ↦ rw (b, reschedule_delivery) (inl refl)
    | inr b ↦ elim (Bool-cases (is_early request)) [
      | inl e ↦ rw (b, e, reschedule_delivery) (inl refl)
      | inr e ↦
          rw
            (
              b,
              e,
              reschedule_delivery,
              written_of-docs
                  (outbox.update_one (is_held request.id request.worker_id) (released request) s),
            )
            (guard refl (
              update-Effect (is_held request.id request.worker_id) (released request) (docs s) _ _
                (laws.updates (is_held request.id request.worker_id) (released request) s)))
    ]
  ]
