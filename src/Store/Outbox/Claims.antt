-- ===== src/Store/Outbox/Claims.antt =====
-- What the answers of the outbox mean: which delivery a claim hands out, and when a completion or a
-- rescheduling succeeds.
use ruleraven.Common.{
  ◌≡◌, refl, inl, inr, Bool, true, false, Option, none, some, List, All, Bool-cases, Option-cases,
  arith,
}
use mathlib.Core.List.{Memᴰ}
use ruleraven.Common.Int.{Time, leb_ℤ}
use ruleraven.Notify.Dispatcher.{
  ClaimRequest, CompleteRequest, RescheduleRequest, Claim, claimed, not_found, claim_failed,
}
use ruleraven.Store.Documents.{OutboxDocument}
use ruleraven.Store.Mapping.{delivery_from_document}
use ruleraven.Store.Collection.{
  StoreError, bad_request, missing, conflict, early_attempt, driver, Collection, IsCollection, Read,
  read, no_documents, read_failed, Written, matched, unmatched, write_failed, OneUpdated, NoMatch,
  UpdateOutcome, FirstUpdated, ClaimOutcome,
}
use ruleraven.Store.Updates.{Effect, All-mem}
use ruleraven.Store.Outbox.{
  is_due, due_before, due_before_order, leased, is_held, finished, released, claim_of, is_bad_claim,
  claim_delivery, written_of, is_bad_completion, complete_delivery, is_bad_reschedule, is_early,
  reschedule_delivery,
}
use ruleraven.Store.Outbox.Invariant.{IsWellFormed, is_final}
use ruleraven.Store.Outbox.Reach.{Call, Reach, Reach-IsWellFormed}

-- What a claim's answer says of the documents before and after it.
abbrev pub IsClaim :
    {E : Type 0}
    → ClaimRequest
    → List OutboxDocument
    → Claim (StoreError E)
    → List OutboxDocument
    → Type 0
IsClaim request old (claimed delivery) new =
    (is_bad_claim request ≡ false)
    × (d : OutboxDocument) × FirstUpdated (is_due request.now) (leased request) due_before old d new
    × (delivery ≡ delivery_from_document d)
IsClaim request old not_found new = NoMatch (is_due request.now) old × (new ≡ old)
IsClaim request old (claim_failed bad_request) new = (is_bad_claim request ≡ true) × (new ≡ old)
IsClaim request old (claim_failed (driver e)) new =
    Effect (is_due request.now) (leased request) old new
IsClaim request old (claim_failed _) new = ⊥

-- What the answer of a write to a leased document says.
abbrev pub IsSettled :
    {E : Type 0}
    → (refused early : Bool) → (OutboxDocument → Bool)
    → (OutboxDocument → OutboxDocument)
    → List OutboxDocument
    → Option (StoreError E)
    → List OutboxDocument
    → Type 0
IsSettled refused early filter update old none new =
    (refused ≡ false) × (early ≡ false) × OneUpdated filter update old new
IsSettled refused early filter update old (some bad_request) new = (refused ≡ true) × (new ≡ old)
IsSettled refused early filter update old (some early_attempt) new = (early ≡ true) × (new ≡ old)
IsSettled refused early filter update old (some missing) new = ⊥
IsSettled refused early filter update old (some conflict) new = NoMatch filter old × (new ≡ old)
IsSettled refused early filter update old (some (driver e)) new = Effect filter update old new

-- When a document that is not final is due: at its next attempt, or at the end of its lease.
abbrev pub due_at : OutboxDocument → Time
due_at d = elim d.lease_until [ none ↦ d.next_attempt_at | some until ↦ until ]

abbrev pub IsAnswered : {E : Type 0} → Claim (StoreError E) → Type 0
IsAnswered (claimed delivery) = Unit
IsAnswered not_found = ⊥
IsAnswered (claim_failed (driver e)) = Unit
IsAnswered (claim_failed _) = ⊥

due_at-is_due :
    (x : OutboxDocument) (now : Time)
    → IsWellFormed x
    → is_final x.status ≡ false
    → leb_ℤ (due_at x) now ≡ true
    → is_due now x ≡ true
unfolding is_due
due_at-is_due x now w h t = elim (Option-cases x.lease_until) [
  | inl e ↦ ground (arith, e, w.lease_end, w.known, h, t)
  | inr e ↦ ground (arith, e.1, w.lease_end, w.known, h, t)
]

module _ {S E : Type 0} (outbox : Collection S OutboxDocument E) (docs : S → List OutboxDocument)
    (laws : IsCollection outbox docs) where
  claim_of-IsClaim :
      (request : ClaimRequest) (old : List OutboxDocument) (r : Read OutboxDocument E × S)
      → is_bad_claim request ≡ false
      → ClaimOutcome (is_due request.now) (leased request) due_before old r.0 (docs r.1)
      → IsClaim request old (claim_of outbox r).0 (docs (claim_of outbox r).1)
  claim_of-IsClaim request old (read d, s) g h = (g, d, h, refl)
  claim_of-IsClaim request old (no_documents, s) g h = h
  claim_of-IsClaim request old (read_failed e, s) g h = h

  written_of-IsSettled :
      (refused early : Bool) (filter : OutboxDocument → Bool)
      (update : OutboxDocument → OutboxDocument) (old : List OutboxDocument) (w : Written E × S)
      → refused ≡ false
      → early ≡ false
      → UpdateOutcome filter update old w.0 (docs w.1)
      → IsSettled refused early filter update old
          (written_of outbox w).0
          (docs (written_of outbox w).1)
  written_of-IsSettled refused early filter update old (matched, s) g t h = (g, t, h)
  written_of-IsSettled refused early filter update old (unmatched, s) g t h = h
  written_of-IsSettled refused early filter update old (write_failed e, s) g t h = h

  -- A claim hands out the due delivery that comes first by its next attempt and its ID, leased to the
  -- worker and with one attempt more, and touches no other document. It finds nothing only where no
  -- delivery is due, refuses a request without a worker, a time or a duration without any write, and
  -- after an error of the driver at most one due document is leased.
  pub claim_delivery-IsClaim :
      (request : ClaimRequest) (s : S)
      → IsClaim request
          (docs s)
          (claim_delivery outbox request s).0
          (docs (claim_delivery outbox request s).1)
  unfolding claim_delivery
  claim_delivery-IsClaim request s = elim (Bool-cases (is_bad_claim request)) [
    | inl b ↦ rw (b, claim_delivery) (b, refl)
    | inr b ↦
        rw (b, claim_delivery)
          (claim_of-IsClaim request (docs s) _ b
            (laws.claims (is_due request.now) (leased request) due_before s due_before_order))
  ]

  -- A completion succeeds exactly by marking the one document with its ID as delivered while the
  -- worker holds its lease. A worker without the lease gets a conflict and changes nothing, a request
  -- without an ID, a worker or a time is refused without a write, and after an error of the driver at
  -- most that document is marked.
  pub complete_delivery-IsSettled :
      (request : CompleteRequest) (s : S)
      → IsSettled
          (is_bad_completion request)
          false
          (is_held request.id request.worker_id)
          (finished request)
          (docs s)
          (complete_delivery outbox request s).0
          (docs (complete_delivery outbox request s).1)
  unfolding complete_delivery
  complete_delivery-IsSettled request s = elim (Bool-cases (is_bad_completion request)) [
    | inl b ↦ rw (b, complete_delivery) (refl, refl)
    | inr b ↦
        rw (b, complete_delivery)
          (written_of-IsSettled false false (is_held request.id request.worker_id)
            (finished request) (docs s) _ refl refl
            (laws.updates (is_held request.id request.worker_id) (finished request) s))
  ]

  -- A rescheduling succeeds exactly by releasing the one document with its ID while the worker holds
  -- its lease: back to pending at the next attempt after a retryable failure, to failed after a
  -- permanent one. A worker without the lease gets a conflict, a request without an ID, a worker or a
  -- time, or with a next attempt in the past, is refused, and each changes nothing.
  pub reschedule_delivery-IsSettled :
      (request : RescheduleRequest) (s : S)
      → IsSettled
          (is_bad_reschedule request)
          (is_early request)
          (is_held request.id request.worker_id)
          (released request)
          (docs s)
          (reschedule_delivery outbox request s).0
          (docs (reschedule_delivery outbox request s).1)
  unfolding reschedule_delivery
  reschedule_delivery-IsSettled request s = elim (Bool-cases (is_bad_reschedule request)) [
    | inl b ↦ rw (b, reschedule_delivery) (refl, refl)
    | inr b ↦ elim (Bool-cases (is_early request)) [
      | inl e ↦ rw (b, e, reschedule_delivery) (refl, refl)
      | inr e ↦
          rw (b, e, reschedule_delivery)
            (written_of-IsSettled false false (is_held request.id request.worker_id)
              (released request) (docs s) _ refl refl
              (laws.updates (is_held request.id request.worker_id) (released request) s))
    ]
  ]

  answered :
      (request : ClaimRequest) (x : OutboxDocument) (s : S) (c : Claim (StoreError E))
      (new : List OutboxDocument)
      → is_bad_claim request ≡ false
      → is_due request.now x ≡ true
      → Memᴰ x (docs s)
      → IsClaim request (docs s) c new
      → IsAnswered c
  answered request x s (claimed dv) new g due m h = tt
  answered request x s not_found new g due m h =
      absurd (clash (All-mem (λ d. is_due request.now d ≡ false) (docs s) x m h.0))
    where
      clash : is_due request.now x ≡ false → ⊥
      clash c = grind (arith, c, due)
  answered request x s (claim_failed bad_request) new g due m h = grind (arith, h.0, g)
  answered request x s (claim_failed (driver e)) new g due m h = tt
  answered request x s (claim_failed missing) new g due m h = h
  answered request x s (claim_failed conflict) new g due m h = h
  answered request x s (claim_failed early_attempt) new g due m h = h

  -- No delivery is stuck: in every state that calls lead to from a well-formed one, as long as some
  -- delivery is neither delivered nor failed for good, each proper claim from its next attempt or the
  -- end of its lease on is handed a delivery, unless the driver fails.
  pub claim_delivery-live :
      (IsKind : Call → Type 0) (s t : S) (x : OutboxDocument) (request : ClaimRequest)
      → All IsWellFormed (docs s)
      → Reach outbox docs IsKind s t
      → Memᴰ x (docs t)
      → is_final x.status ≡ false
      → is_bad_claim request ≡ false
      → leb_ℤ (due_at x) request.now ≡ true
      → IsAnswered (claim_delivery outbox request t).0
  claim_delivery-live IsKind s t x request w r m h g due =
      answered request x t _ _ g
        (due_at-is_due x request.now
          (All-mem IsWellFormed (docs t) x m (Reach-IsWellFormed outbox docs laws IsKind s t r w)) h
          due)
        m (claim_delivery-IsClaim request t)
