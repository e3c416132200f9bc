-- ===== src/Store/Outbox/Reach.antt =====
-- Sequences of calls on the outbox, in any order and by any workers, and what holds through them.
use ruleraven.Common.{
  ◌≡◌, sym, inl, inr, String, ◌==◌, Bool, true, false, none, some, List, [], ◌∷◌, ◌++◌, map, All,
  All-append, arith,
}
use mathlib.Core.Path.{subst}
use mathlib.Core.List.{Memᴰ}
use mathlib.Core.List.Memᴰ
use ruleraven.Common.Int.{pos, Time, ◌≤ℤ◌, leb_ℤ}
use ruleraven.Domain.{Notification, notification_pending, notification_delivering}
use ruleraven.Notify.Dispatcher.{ClaimRequest, CompleteRequest, RescheduleRequest}
use ruleraven.Store.Documents.{OutboxDocument}
use ruleraven.Store.Mapping.{outbox_to_document}
use ruleraven.Store.Collection.{Collection, IsCollection}
use ruleraven.Store.Updates.{Effect, Effect-All, Effect-mem}
use ruleraven.Store.Outbox.{is_due, is_held, claim_delivery, complete_delivery, reschedule_delivery}
use ruleraven.Store.Outbox.Invariant.{
  IsWellFormed, is_final, leased-IsWellFormed, finished-IsWellFormed, released-IsWellFormed,
  new-IsWellFormed,
}
use ruleraven.Store.Outbox.Effects.{
  Guarded, claim_delivery-Guarded, complete_delivery-Guarded, reschedule_delivery-Guarded,
}

pub data Call : Type 0 where
  claim : ClaimRequest → Call
  complete : CompleteRequest → Call
  reschedule : RescheduleRequest → Call
  deliver : List Notification → Time → Call

abbrev pub IsNew : Notification → Type 0
IsNew n = (n.status ≡ notification_pending) × (pos 0 ≤ℤ n.attempts)

-- The documents of a commit's deliveries.
abbrev pub document_at : Time → Notification → OutboxDocument
document_at now n = outbox_to_document n now none

-- The calls that pass a document over.
abbrev Misses : OutboxDocument → Call → Type 0
Misses x (claim request) = is_due request.now x ≡ false
Misses x (complete request) = is_held request.id request.worker_id x ≡ false
Misses x (reschedule request) = is_held request.id request.worker_id x ≡ false
Misses x (deliver ns now) = Unit

-- A call by a worker that does not hold the lease, or a claim before the lease ends.
abbrev pub IsForeign : String → Time → Call → Type 0
IsForeign owner until (claim request) = leb_ℤ until request.now ≡ false
IsForeign owner until (complete request) = owner == request.worker_id ≡ false
IsForeign owner until (reschedule request) = owner == request.worker_id ≡ false
IsForeign owner until (deliver ns now) = Unit

foreign-Misses :
    (x : OutboxDocument) (until : Time) (c : Call)
    → x.status ≡ notification_delivering
    → x.lease_until ≡ some until
    → IsForeign x.lease_owner until c
    → Misses x c
unfolding is_due is_held
foreign-Misses x until (claim request) st le f = ground (arith, st, le, f)
foreign-Misses x until (complete request) st le f = ground (arith, st, le, f)
foreign-Misses x until (reschedule request) st le f = ground (arith, st, le, f)
foreign-Misses x until (deliver ns now) st le f = tt

final-Misses : (x : OutboxDocument) (c : Call) → is_final x.status ≡ true → Misses x c
unfolding is_due is_held
final-Misses x (claim request) h = ground (arith, h)
final-Misses x (complete request) h = ground (arith, h)
final-Misses x (reschedule request) h = ground (arith, h)
final-Misses x (deliver ns now) h = tt

Guarded-Effect :
    {D : Type 0} {refused : Bool} {filter : D → Bool} {update : D → D} {old new : List D}
    → Guarded refused filter update old new
    → Effect filter update old new
Guarded-Effect (inl e) = inl e
Guarded-Effect (inr g) = inr g.1

Guarded-All :
    {D : Type 0} (P : D → Type 0) {refused : Bool} {filter : D → Bool} {update : D → D}
    {old new : List D}
    → (refused ≡ false → (d : D) → filter d ≡ true → P d → P (update d))
    → Guarded refused filter update old new
    → All P old
    → All P new
Guarded-All P keeps (inl e) h = subst (All P) (sym e) h
Guarded-All P keeps (inr g) h = Effect-All P (keeps g.0) (inr g.1) h

new-All :
    (ns : List Notification) (now : Time)
    → All IsNew ns
    → All IsWellFormed (map (document_at now) ns)
new-All [] now h = tt
new-All (n ∷ ns) now h = (new-IsWellFormed n now none h.0.0 h.0.1, new-All ns now h.1)

module _ {S E : Type 0} (outbox : Collection S OutboxDocument E)
    (docs : S → List OutboxDocument) where
  abbrev pub Step : Call → S → S → Type 0
  Step (claim request) s t = t ≡ (claim_delivery outbox request s).1
  Step (complete request) s t = t ≡ (complete_delivery outbox request s).1
  Step (reschedule request) s t = t ≡ (reschedule_delivery outbox request s).1
  Step (deliver ns now) s t = All IsNew ns × (docs t ≡ docs s ++ map (document_at now) ns)

  -- Any number of steps, by calls of a kind.
  pub data Reach (IsKind : Call → Type 0) (s : S) : S → Type 0 where
    here : Reach IsKind s s
    next : {t u : S} → Reach IsKind s t → (c : Call) → IsKind c → Step c t u → Reach IsKind s u

  module _ (laws : IsCollection outbox docs) where
    Step-IsWellFormed :
        (c : Call) (s t : S) → Step c s t → All IsWellFormed (docs s) → All IsWellFormed (docs t)
    Step-IsWellFormed (claim request) s t e h =
        subst (λ u. All IsWellFormed (docs u)) (sym e)
          (Guarded-All IsWellFormed (λ g d. leased-IsWellFormed request d g)
            (claim_delivery-Guarded outbox docs laws request s) h)
    Step-IsWellFormed (complete request) s t e h =
        subst (λ u. All IsWellFormed (docs u)) (sym e)
          (Guarded-All IsWellFormed (λ g d held. finished-IsWellFormed request d)
            (complete_delivery-Guarded outbox docs laws request s) h)
    Step-IsWellFormed (reschedule request) s t e h =
        subst (λ u. All IsWellFormed (docs u)) (sym e)
          (Guarded-All IsWellFormed (λ g. released-IsWellFormed request)
            (reschedule_delivery-Guarded outbox docs laws request s) h)
    Step-IsWellFormed (deliver ns now) s t e h =
        subst (All IsWellFormed) (sym e.1)
          (All-append IsWellFormed (docs s) _ h (new-All ns now e.0))

    Step-mem :
        (x : OutboxDocument) (c : Call) (s t : S)
        → Misses x c
        → Step c s t
        → Memᴰ x (docs s)
        → Memᴰ x (docs t)
    Step-mem x (claim request) s t f e m =
        subst (λ u. Memᴰ x (docs u)) (sym e)
          (Effect-mem x f (Guarded-Effect (claim_delivery-Guarded outbox docs laws request s)) m)
    Step-mem x (complete request) s t f e m =
        subst (λ u. Memᴰ x (docs u)) (sym e)
          (Effect-mem x f (Guarded-Effect (complete_delivery-Guarded outbox docs laws request s)) m)
    Step-mem x (reschedule request) s t f e m =
        subst (λ u. Memᴰ x (docs u)) (sym e)
          (Effect-mem x f (Guarded-Effect (reschedule_delivery-Guarded outbox docs laws request s))
            m)
    Step-mem x (deliver ns now) s t f e m =
        subst (Memᴰ x) (sym e.1) (Memᴰ.append_left (map (document_at now) ns) m)

    -- Every document of the outbox stays well formed through any sequence of claims, completions,
    -- reschedulings and new deliveries, whichever of them fail: a lease has its owner and its end
    -- exactly while the delivery is on its way, and a time of delivery exactly once it is delivered.
    pub Reach-IsWellFormed :
        (IsKind : Call → Type 0) (s t : S)
        → Reach IsKind s t
        → All IsWellFormed (docs s)
        → All IsWellFormed (docs t)
    Reach-IsWellFormed IsKind s t here h = h
    Reach-IsWellFormed IsKind s u (next {t} r c k st) h =
        Step-IsWellFormed c t u st (Reach-IsWellFormed IsKind s t r h)

    -- A delivery that was delivered, or that failed for good, is never touched again by any sequence
    -- of calls: its document stays as it is.
    pub Reach-final :
        (IsKind : Call → Type 0) (x : OutboxDocument) (s t : S)
        → Reach IsKind s t
        → is_final x.status ≡ true
        → Memᴰ x (docs s)
        → Memᴰ x (docs t)
    Reach-final IsKind x s t here h m = m
    Reach-final IsKind x s u (next {t} r c k st) h m =
        Step-mem x c t u (final-Misses x c h) st (Reach-final IsKind x s t r h m)

    -- A lease is exclusive: until it ends, no sequence of calls in which the other workers complete,
    -- reschedule and claim as they like, in any order, changes the leased document.
    pub Reach-lease :
        (x : OutboxDocument) (until : Time) (s t : S)
        → Reach (IsForeign x.lease_owner until) s t
        → x.status ≡ notification_delivering
        → x.lease_until ≡ some until
        → Memᴰ x (docs s)
        → Memᴰ x (docs t)
    Reach-lease x until s t here st le m = m
    Reach-lease x until s u (next {t} r c k e) st le m =
        Step-mem x c t u (foreign-Misses x until c st le k) e (Reach-lease x until s t r st le m)
