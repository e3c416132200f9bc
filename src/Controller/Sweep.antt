-- ===== src/Controller/Sweep.antt =====
-- What one sweep adds to the queue, read from a trace of the keys that were added.
use ruleraven.Common.{
  ◌≡◌, refl, sym, ap, ◌∙◌, String, Option, none, some, List, [], ◌∷◌, ◌++◌, Bool-cases, inl, inr,
  ◌⊎◌, true, false, equal_fold, arith, eq_iff,
}
use ruleraven.Domain.{Incident}
use ruleraven.Kube.{ResourceKey}
use ruleraven.Controller.{
  swept, key_of, enqueue, Listed, list_failed, listed, swept_all, sweep_once,
}

abbrev pub IsKeyOf : Incident → ResourceKey → Type 0
IsKeyOf i key =
    (key.kind ≡ "Event")
    × (key.namespace ≡ i.source.namespace)
    × (key.name ≡ i.source.name)
    × (key.uid ≡ i.source.uid)

-- The keys of those of the listed incidents that are Events of the cluster, in their order.
pub data IsSweep (cluster_id : String) : List Incident → List ResourceKey → Type 0 where
  finished : IsSweep cluster_id [] []
  skipped :
      {i : Incident} {incidents : List Incident} {keys : List ResourceKey}
      → (¬ (i.cluster_id ≡ cluster_id)) ⊎ (equal_fold i.source.kind "Event" ≡ false)
      → IsSweep cluster_id incidents keys
      → IsSweep cluster_id (i ∷ incidents) keys
  taken :
      {i : Incident} {incidents : List Incident} {key : ResourceKey} {keys : List ResourceKey}
      → i.cluster_id ≡ cluster_id
      → equal_fold i.source.kind "Event" ≡ true
      → IsKeyOf i key
      → IsSweep cluster_id incidents keys
      → IsSweep cluster_id (i ∷ incidents) (key ∷ keys)

-- What a sweep returns, and the keys it adds.
abbrev pub IsSwept : {E : Type 0} → String → Listed E → Option E → List ResourceKey → Type 0
IsSwept cluster_id (list_failed e) error keys = (error ≡ some e) × (keys ≡ [])
IsSwept cluster_id (listed incidents) error keys =
    (error ≡ none) × IsSweep cluster_id incidents keys

append_assoc : (xs ys zs : List ResourceKey) → (xs ++ ys) ++ zs ≡ xs ++ (ys ++ zs)
append_assoc [] ys zs = refl
append_assoc (x ∷ xs) ys zs = ap (λ r. x ∷ r) (append_assoc xs ys zs)

append_nil : (xs : List ResourceKey) → xs ++ [] ≡ xs
append_nil [] = refl
append_nil (x ∷ xs) = ap (λ r. x ∷ r) (append_nil xs)

module _ {S : Type 0} (add : ResourceKey → S → S) (cluster_id : String)
    (trace : S → List ResourceKey)
    (adds : (k : ResourceKey) (s : S) → trace (add k s) ≡ trace s ++ (k ∷ [])) where
  -- What the loop adds to the queue.
  abbrev Added : List Incident → S → Type 0
  Added incidents s =
      (keys : List ResourceKey) × (trace (enqueue add cluster_id incidents s) ≡ trace s ++ keys)
      × IsSweep cluster_id incidents keys

  add_first :
      (i : Incident) (incidents : List Incident) (s : S)
      → swept cluster_id i ≡ true
      → Added incidents (add (key_of i.source) s)
      → Added (i ∷ incidents) s
  unfolding enqueue
  add_first i incidents s e (keys, h, k) = (
    key_of i.source ∷ keys,
    rw (e, enqueue)
        (h
          ∙ ap (λ t. t ++ keys) (adds (key_of i.source) s)
          ∙ append_assoc (trace s) (key_of i.source ∷ []) keys),
    taken (ground (arith, e, eq_iff i.cluster_id cluster_id)) (ground (arith, e))
        (refl, refl, refl, refl) k,
  )

  skip_first :
      (i : Incident) (incidents : List Incident) (s : S)
      → swept cluster_id i ≡ false
      → Added incidents s
      → Added (i ∷ incidents) s
  unfolding enqueue
  skip_first i incidents s e (keys, h, k) =
      (keys, rw (e, enqueue) h, skipped (ground (arith, e, eq_iff i.cluster_id cluster_id)) k)

  enqueue-Added : (incidents : List Incident) (s : S) → Added incidents s
  unfolding enqueue
  enqueue-Added [] s = ([], sym (append_nil (trace s)), finished)
  enqueue-Added (i ∷ incidents) s = elim (Bool-cases (swept cluster_id i)) [
    | inl e ↦ add_first i incidents s e (enqueue-Added incidents (add (key_of i.source) s))
    | inr e ↦ skip_first i incidents s e (enqueue-Added incidents s)
  ]

  -- A sweep whose listing leaves the queue alone adds to the queue, in the order of the listing, one
  -- key for each listed incident that is of its cluster and of the kind Event, with the namespace, the
  -- name and the UID of its source, and none for any other. Where the listing fails, it adds none and
  -- returns the listing's error.
  pub sweep_once-IsSwept :
      {E : Type 0} (list_open_incidents : S → Listed E × S) (s : S)
      → trace (list_open_incidents s).1 ≡ trace s
      → (keys : List ResourceKey) × (trace (sweep_once add cluster_id list_open_incidents s).1
          ≡ trace s ++ keys)
        × IsSwept cluster_id
            (list_open_incidents s).0
            (sweep_once add cluster_id list_open_incidents s).0
            keys
  unfolding sweep_once
  sweep_once-IsSwept {E} list_open_incidents s h = by_listing (list_open_incidents s) h
    where
      by_listing :
          (r : Listed E × S)
          → trace r.1 ≡ trace s
          → (keys : List ResourceKey) × (trace (swept_all add cluster_id r).1 ≡ trace s ++ keys)
            × IsSwept cluster_id r.0 (swept_all add cluster_id r).0 keys
      by_listing (list_failed e, t) k = ([], k ∙ sym (append_nil (trace s)), (refl, refl))
      by_listing (listed incidents, t) k =
          let (keys, h, sweep) = enqueue-Added incidents t in
          (keys, h ∙ ap (λ q. q ++ keys) k, (refl, sweep))
