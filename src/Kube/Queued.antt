-- ===== src/Kube/Queued.antt =====
-- event_handler.go: which keys reach the queue.
use ruleraven.Common.{
  ◌⊎◌, inl, inr, ◌≡◌, refl, ◌==◌, true, false, not, ◌||◌, Option, none, some, Bool-cases, arith,
}
use ruleraven.Kube.{ResourceKey, is_valid}
use ruleraven.Kube.Handler.{
  Metadata, Object, Handed, live, tombstone, object_kind, EventHandler, watched, key_with, key_for,
  added, enqueue, on_delete,
}

-- A key in the queue is one that a worker accepts, of a namespace that is watched.
pub record IsQueued (h : EventHandler) (o : Object) (k : ResourceKey) : Type 0 where
  pub running : h.stopped ≡ false
  pub valid : is_valid k ≡ true
  pub namespace : watched h k.namespace ≡ true
  pub kind : k.kind ≡ object_kind o
  pub metadata : o.metadata ≡ some (record { namespace = k.namespace; name = k.name; uid = k.uid })

-- The world after a callback: as it was, or with one such key added.
abbrev pub IsAdded : {S : Type 0} → (ResourceKey → S → S) → EventHandler → Object → S → S → Type 0
IsAdded add h o s t = (t ≡ s) ⊎ ((k : ResourceKey) × IsQueued h o k × (t ≡ add k s))

abbrev pub object_of : Handed → Object
object_of (live o) = o
object_of (tombstone o) = o

module _ {S : Type 0} (add : ResourceKey → S → S) where
  with-IsAdded :
      (h : EventHandler) (o : Object) (m : Option Metadata) (s : S)
      → h.stopped ≡ false
      → o.metadata ≡ m
      → IsAdded add h o s (added add (key_with h o m) s)
  unfolding is_valid
  with-IsAdded h o none s r e = inl refl
  with-IsAdded h o (some m) s r e = elim (Bool-cases (m.name == "" || m.uid == "")) [
    | inl a ↦ rw a (inl refl)
    | inr a ↦ elim (Bool-cases (not (watched h m.namespace))) [
      | inl b ↦ rw (a, b) (inl refl)
      | inr b ↦ elim (Bool-cases (object_kind o == "")) [
        | inl c ↦ rw (a, b, c) (inl refl)
        | inr c ↦
            rw (a, b, c)
              (inr (
                record {
                  kind = object_kind o;
                  namespace = m.namespace;
                  name = m.name;
                  uid = m.uid;
                },
                record {
                  running = r;
                  valid = ground (arith, a, c);
                  namespace = ground (arith, b);
                  kind = refl;
                  metadata = e;
                },
                refl,
              ))
      ]
    ]
  ]

  enqueue-IsAdded : (h : EventHandler) (o : Object) (s : S) → IsAdded add h o s (enqueue add h o s)
  unfolding enqueue key_for
  enqueue-IsAdded h o s = elim (Bool-cases (h.stopped || not h.has_queue)) [
    | inl a ↦ rw (a, enqueue, key_for) (inl refl)
    | inr a ↦ rw (a, enqueue, key_for) (with-IsAdded h o o.metadata s (ground (arith, a)) refl)
  ]

  -- A callback of an informer adds at most one key, and only while the handler runs: that of the object
  -- that it is handed, itself or in a tombstone, of a namespace that is watched, and one that the
  -- reconciler does not refuse.
  pub on_delete-IsAdded :
      (h : EventHandler) (handed : Handed) (s : S)
      → IsAdded add h (object_of handed) s (on_delete add h handed s)
  unfolding on_delete
  on_delete-IsAdded h (live o) s = enqueue-IsAdded h o s
  on_delete-IsAdded h (tombstone o) s = enqueue-IsAdded h o s
