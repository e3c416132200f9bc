-- ===== src/Notify/Dispatcher/Table.antt =====
-- dispatcher.go: the table of notifiers that `NewDispatcher` collects.
use ruleraven.Common.{
  sym, All-map, eq_refl, ◌≢◌, ◌≡◌, refl, String, false, Option, none, some, List, [], ◌∷◌,
  Bool-cases, Option-cases, inl, inr, arith, ◌==◌, All, trim_space, eq_iff,
}
use mathlib.Core.Path.{subst}
use ruleraven.Common.Maps.{Map, insert, lookup, lookup-insert}
use ruleraven.Notify.Envelope.{Notifier}
use ruleraven.Notify.Dispatcher.{refusal, with_notifier, collect}

module _ {S : Type 0} where
  -- Every notifier stands under its own name, which is not blank.
  abbrev pub Named : Map (Notifier S) → Type 0
  Named m = All (λ kn. (kn.0 ≡ kn.1.name) × (trim_space kn.0 == "" ≡ false)) m

  insert-Named :
      (k : String) (n : Notifier S) (m : Map (Notifier S))
      → k ≡ n.name
      → trim_space k == "" ≡ false
      → Named m
      → Named (insert k n m)
  unfolding insert
  insert-Named k n [] e h t = ((e, h), tt)
  insert-Named k n ((j, w) ∷ m) e h t = elim (Bool-cases (j == k)) [
    | inl b ↦ rw b ((e, h), t.1)
    | inr b ↦ rw b (t.0, insert-Named k n m e h t.1)
  ]

  with_notifier-Named :
      {E : Type 0} (o : Option (Notifier S)) (m : Map (Notifier S))
      → refusal S E o m ≡ none
      → Named m
      → Named (with_notifier S E o m)
  with_notifier-Named none m h t = absurd (grind (arith, h))
  with_notifier-Named (some n) m h t = insert-Named n.name n m refl (ground (arith, h)) t

  abbrev pub OtherName : String → Option (Notifier S) → Type 0
  OtherName name none = ⊥
  OtherName name (some n) = name == n.name ≡ false

  -- All there, with names that are not blank and that differ from each other.
  abbrev pub DistinctNotifiers : List (Option (Notifier S)) → Type 0
  DistinctNotifiers [] = Unit
  DistinctNotifiers (none ∷ ns) = ⊥
  DistinctNotifiers (some n ∷ ns) =
      (trim_space n.name == "" ≡ false) × All (OtherName n.name) ns × DistinctNotifiers ns

  -- Its name leads to it.
  abbrev pub IsFound : Map (Notifier S) → Option (Notifier S) → Type 0
  IsFound m none = ⊥
  IsFound m (some n) = lookup n.name m ≡ some n

  abbrev IsFresh : Map (Notifier S) → Option (Notifier S) → Type 0
  IsFresh m none = ⊥
  IsFresh m (some n) = lookup n.name m ≡ none

  -- What is fresh after a notifier was added is fresh before, and has another name.
  fresh_before :
      (n : Notifier S) (m : Map (Notifier S)) (o : Option (Notifier S))
      → IsFresh (insert n.name n m) o
      → IsFresh m o × OtherName n.name o
  fresh_before n m none h = absurd h
  fresh_before n m (some x) h = elim (Bool-cases (n.name == x.name)) [
    | inl b ↦ absurd (ground (arith, h, b, lookup-insert n.name x.name n m))
    | inr b ↦ (ground (arith, h, b, lookup-insert n.name x.name n m), b)
  ]

  refusal-IsFresh :
      {E : Type 0} (n : Notifier S) (m : Map (Notifier S))
      → refusal S E (some n) m ≡ none
      → lookup n.name m ≡ none
  refusal-IsFresh n m h = elim (Option-cases (lookup n.name m)) [
    | inl e ↦ e
    | inr (x, e) ↦ absurd (ground (arith, h, e))
  ]

  kept_by_insert :
      (x : Notifier S) (m : Map (Notifier S)) (k : String) (n : Notifier S)
      → lookup x.name m ≡ none
      → lookup k m ≡ some n
      → lookup k (insert x.name x m) ≡ some n
  kept_by_insert x m k n h t = elim (Bool-cases (x.name == k)) [
    | inl b ↦ absurd (clash (subst (λ i. lookup i m ≡ none) ((eq_iff x.name k).0 b) h))
    | inr b ↦ ground (arith, t, b, lookup-insert x.name k x m)
  ]
    where
      clash : lookup k m ≡ none → ⊥
      clash c = grind (arith, c, t)

module _ {S : Type 0} (E : Type 0) where
  pub collect-Named :
      (ns : List (Option (Notifier S))) (m : Map (Notifier S))
      → Named m
      → Named (collect S E ns m).1
  unfolding collect
  collect-Named [] m t = t
  collect-Named (n ∷ ns) m t = elim (Option-cases (refusal S E n m)) [
    | inl e ↦
        rw (e, collect) (collect-Named ns (with_notifier S E n m) (with_notifier-Named n m e t))
    | inr (x, e) ↦ rw (e, collect) t
  ]

  -- A list that is collected without an error begins with a notifier that is not refused.
  collect-none :
      (ns : List (Option (Notifier S))) (m : Map (Notifier S))
      → (collect S E (none ∷ ns) m).0 ≢ none
  unfolding collect
  collect-none ns m h = grind (arith, h)

  collect-some :
      (n : Notifier S) (ns : List (Option (Notifier S))) (m : Map (Notifier S))
      → (collect S E (some n ∷ ns) m).0 ≡ none
      → (refusal S E (some n) m ≡ none)
        × (collect S E (some n ∷ ns) m ≡ collect S E ns (insert n.name n m))
  unfolding collect
  collect-some n ns m h = elim (Option-cases (refusal S E (some n) m)) [
    | inl e ↦ (e, rw (e, collect) refl)
    | inr (x, e) ↦ absurd (let k = rw (e, collect) at h in grind (arith, k))
  ]

  pub collect-DistinctNotifiers :
      (ns : List (Option (Notifier S))) (m : Map (Notifier S))
      → (collect S E ns m).0 ≡ none
      → DistinctNotifiers ns × All (IsFresh m) ns
  collect-DistinctNotifiers [] m h = (tt, tt)
  collect-DistinctNotifiers (none ∷ ns) m h = absurd (collect-none ns m h)
  collect-DistinctNotifiers (some n ∷ ns) m h =
      let (e, step) = collect-some n ns m h in
      let (distinct, fresh) = collect-DistinctNotifiers ns (insert n.name n m) (rw step at h) in
      (
        (
          ground (arith, e),
          All-map (IsFresh (insert n.name n m)) (OtherName n.name) ns
              (λ o f. (fresh_before n m o f).1) fresh,
          distinct,
        ),
        (
          refusal-IsFresh {E = E} n m e,
          All-map (IsFresh (insert n.name n m)) (IsFresh m) ns (λ o f. (fresh_before n m o f).0)
              fresh,
        ),
      )

  -- What the table has stays in it.
  collect-kept :
      (ns : List (Option (Notifier S))) (m : Map (Notifier S)) (k : String) (n : Notifier S)
      → (collect S E ns m).0 ≡ none
      → lookup k m ≡ some n
      → lookup k (collect S E ns m).1 ≡ some n
  unfolding collect
  collect-kept [] m k n h t = t
  collect-kept (none ∷ ns) m k n h t = absurd (collect-none ns m h)
  collect-kept (some x ∷ ns) m k n h t =
      let (e, step) = collect-some x ns m h in
      rw step (
        collect-kept ns (insert x.name x m) k n (rw step at h)
          (kept_by_insert x m k n (refusal-IsFresh {E = E} x m e) t))

  pub collect-IsFound :
      (ns : List (Option (Notifier S))) (m : Map (Notifier S))
      → (collect S E ns m).0 ≡ none
      → All (IsFound (collect S E ns m).1) ns
  collect-IsFound [] m h = tt
  collect-IsFound (none ∷ ns) m h = absurd (collect-none ns m h)
  collect-IsFound (some n ∷ ns) m h =
      let (e, step) = collect-some n ns m h in
      let there : lookup n.name (insert n.name n m) ≡ some n =
        ground (arith, eq_refl n.name, lookup-insert n.name n.name n m) in
      subst (λ r. All (IsFound r.1) (some n ∷ ns)) (sym step)
        (
          collect-kept ns (insert n.name n m) n.name n (rw step at h) there,
          collect-IsFound ns (insert n.name n m) (rw step at h),
        )
