-- ===== src/Tests/Memory.antt =====
-- A collection in memory, with which the laws of the database's collections hold.
use ruleraven.Common.{
  ◌⊎◌, arith, String, ◌≡◌, refl, sym, ap, inl, inr, Bool, true, false, Option, none, some, List, [],
  ◌∷◌, ◌++◌, All, All-map, Bool-cases, if◌then◌else◌,
}
use mathlib.Core.Path.{subst}
use mathlib.Core.List.{Memᴰ}
use mathlib.Core.List.Memᴰ
use ruleraven.Common.Sort.{IsOrder}
use ruleraven.Store.Collection.{
  Read, read, no_documents, documents, Written, matched, unmatched, Upsert, inserted, there, Stored,
  stored, Collection, OneUpdated, NoMatch, UpdateOutcome, ClaimOutcome, ReadOutcome, UpsertOutcome,
  IsCollection, Keeps,
}

abbrev never : {D : Type 0} → D → D → Bool
never a b = false

never_order : {D : Type 0} → IsOrder (never {D = D})
never_order = record { asymm = λ x y h. refl; false_trans = λ x y z h k. refl }

module _ {D : Type 0} (filter : D → Bool) (before : D → D → Bool) where
  abbrev Place : Type 0
  Place = Option (List D × (D × List D))

  abbrev past : D → Place → Place
  past x none = none
  past x (some (front, (target, back))) = some (x ∷ front, (target, back))

  abbrev better : D → List D → Place → Place
  better x xs none = some ([], (x, xs))
  better x xs (some (front, (target, back))) =
      if before target x then some (x ∷ front, (target, back)) else some ([], (x, xs))

  -- The first of the documents that pass the filter, in the order.
  unfoldable pub pick : List D → Place
  pick [] = none
  pick (x ∷ xs) = let rest = pick xs in if filter x then better x xs rest else past x rest

  abbrev IsPick : List D → Place → Type 0
  IsPick docs none = NoMatch filter docs
  IsPick docs (some (front, (target, back))) =
      (docs ≡ front ++ (target ∷ back))
      × (filter target ≡ true)
      × All (λ d. filter d ≡ true → before d target ≡ false) docs

  past-IsPick :
      (x : D) (xs : List D) (p : Place)
      → filter x ≡ false
      → IsPick xs p
      → IsPick (x ∷ xs) (past x p)
  past-IsPick x xs none h k = (h, k)
  past-IsPick x xs (some (front, (target, back))) h k =
      (ap (λ l. x ∷ l) k.0, k.1, (λ c. grind (arith, h, c), k.2))

  module _ (o : IsOrder before) where
    irreflexive : (x : D) → before x x ≡ false
    irreflexive x = elim (Bool-cases (before x x)) [ inl e ↦ o.asymm x x e | inr e ↦ e ]

    better-IsPick :
        (x : D) (xs : List D) (p : Place)
        → filter x ≡ true
        → IsPick xs p
        → IsPick (x ∷ xs) (better x xs p)
    better-IsPick x xs none h k = (
      refl,
      h,
      (λ c. irreflexive x, All-map (λ d. filter d ≡ false) _ xs (λ d e c. grind (arith, e, c)) k),
    )
    better-IsPick x xs (some (front, (target, back))) h k = elim (Bool-cases (before target x)) [
      | inl e ↦ rw e (ap (λ l. x ∷ l) k.0, k.1, (λ c. o.asymm target x e, k.2))
      | inr e ↦ rw e (
        refl,
        h,
        (
          λ c. irreflexive x,
          All-map (λ d. filter d ≡ true → before d target ≡ false) _ xs
              (λ d f c. o.false_trans x target d e (f c)) k.2,
        ),
      )
    ]

    pub pick-IsPick : (docs : List D) → IsPick docs (pick docs)
    unfolding pick
    pick-IsPick [] = tt
    pick-IsPick (x ∷ xs) = elim (Bool-cases (filter x)) [
      | inl e ↦ rw e (better-IsPick x xs (pick xs) e (pick-IsPick xs))
      | inr e ↦ rw e (past-IsPick x xs (pick xs) e (pick-IsPick xs))
    ]

abbrev passing : {D : Type 0} → (D → Bool) → List D → List D
passing filter [] = []
passing filter (x ∷ xs) = if filter x then x ∷ passing filter xs else passing filter xs

module _ {D : Type 0} (filter : D → Bool) where
  passing-All :
      (docs ds : List D)
      → ((d : D) → Memᴰ d ds → Memᴰ d docs)
      → All (λ d. Memᴰ d docs × (filter d ≡ true)) (passing filter ds)
  passing-All docs [] h = tt
  passing-All docs (x ∷ xs) h = elim (Bool-cases (filter x)) [
    | inl e ↦ rw e ((h x (Memᴰ.head refl), e), passing-All docs xs (λ d m. h d (Memᴰ.tail m)))
    | inr e ↦ rw e (passing-All docs xs (λ d m. h d (Memᴰ.tail m)))
  ]

  passing-first : (x : D) (xs : List D) → filter x ≡ true → Memᴰ x (passing filter (x ∷ xs))
  passing-first x xs e = rw e (Memᴰ.head refl)

  passing-rest :
      (x : D) (xs : List D) (d : D) → Memᴰ d (passing filter xs) → Memᴰ d (passing filter (x ∷ xs))
  passing-rest x xs d m = elim (Bool-cases (filter x)) [
    | inl e ↦ rw e (Memᴰ.tail m)
    | inr e ↦ rw e m
  ]

  none_missing : (ds : List D) → All (λ d. (filter d ≡ false) ⊎ Memᴰ d (passing filter ds)) ds
  none_missing [] = tt
  none_missing (x ∷ xs) = (
    elim (Bool-cases (filter x)) [ inl e ↦ inr (passing-first x xs e) | inr e ↦ inl e ],
    All-map (λ d. (filter d ≡ false) ⊎ Memᴰ d (passing filter xs))
        (λ d. (filter d ≡ false) ⊎ Memᴰ d (passing filter (x ∷ xs))) xs one_more (none_missing xs),
  )
    where
      one_more :
          (d : D)
          → (filter d ≡ false) ⊎ Memᴰ d (passing filter xs)
          → (filter d ≡ false) ⊎ Memᴰ d (passing filter (x ∷ xs))
      one_more d (inl e) = inl e
      one_more d (inr m) = inr (passing-rest x xs d m)

module _ {S D : Type 0} (get : S → List D) (put : List D → S → S) where
  abbrev found_in : S → Option (List D × (D × List D)) → Read D String × S
  found_in s none = (no_documents, s)
  found_in s (some (front, (target, back))) = (read target, s)

  abbrev updated_in : (D → D) → S → Option (List D × (D × List D)) → Written String × S
  updated_in update s none = (unmatched, s)
  updated_in update s (some (front, (target, back))) =
      (matched, put (front ++ (update target ∷ back)) s)

  abbrev claimed_in : (D → D) → S → Option (List D × (D × List D)) → Read D String × S
  claimed_in update s none = (no_documents, s)
  claimed_in update s (some (front, (target, back))) =
      (read (update target), put (front ++ (update target ∷ back)) s)

  abbrev upserted_in : D → S → Option (List D × (D × List D)) → Upsert String × S
  upserted_in d s none = (inserted, put (get s ++ (d ∷ [])) s)
  upserted_in d s (some place) = (there, s)

  abbrev stored_in : D → S → Option (List D × (D × List D)) → Stored D String × S
  stored_in d s none = (stored d, put (get s ++ (d ∷ [])) s)
  stored_in d s (some (front, (target, back))) = (stored target, s)

  unfoldable pub memory : Collection S D String
  unfolding pick
  memory = record {
    find_one = λ filter s. found_in s (pick filter never (get s));
    find = λ filter s. (documents (passing filter (get s)), s);
    update_one = λ filter update s. updated_in update s (pick filter never (get s));
    upsert_one = λ filter d s. upserted_in d s (pick filter never (get s));
    find_one_and_update =
        λ filter update before s. claimed_in update s (pick filter before (get s));
    find_one_and_upsert = λ filter d s. stored_in d s (pick filter never (get s));
    insert_one = λ d s. (none, put (get s ++ (d ∷ [])) s);
    insert_many = λ ds s. (none, put (get s ++ ds) s);
  }

  module _ (get-put : (ds : List D) (s : S) → get (put ds s) ≡ ds) where
    reads_of :
        (filter : D → Bool) (s : S) (p : Option (List D × (D × List D)))
        → IsPick filter never (get s) p
        → ReadOutcome filter (get s) (found_in s p).0 (get (found_in s p).1)
    reads_of filter s none k = (k, refl)
    reads_of filter s (some (front, (target, back))) k =
        (subst (Memᴰ target) (sym k.0) (Memᴰ.append_right front (Memᴰ.head refl)), k.1, refl)

    one_of :
        (filter : D → Bool) (before : D → D → Bool) (update : D → D) (s : S) (front : List D)
        (target : D) (back : List D)
        → IsPick filter before (get s) (some (front, (target, back)))
        → OneUpdated filter update (get s) (get (put (front ++ (update target ∷ back)) s))
    one_of filter before update s front target back k = record {
      front = front;
      target = target;
      back = back;
      here = k.0;
      passes = k.1;
      updated = get-put (front ++ (update target ∷ back)) s;
    }

    updates_of :
        (filter : D → Bool) (update : D → D) (s : S) (p : Option (List D × (D × List D)))
        → IsPick filter never (get s) p
        → UpdateOutcome filter update
            (get s)
            (updated_in update s p).0
            (get (updated_in update s p).1)
    updates_of filter update s none k = (k, refl)
    updates_of filter update s (some (front, (target, back))) k =
        one_of filter never update s front target back k

    claims_of :
        (filter : D → Bool) (update : D → D) (before : D → D → Bool) (s : S)
        (p : Option (List D × (D × List D)))
        → IsPick filter before (get s) p
        → ClaimOutcome filter update before
            (get s)
            (claimed_in update s p).0
            (get (claimed_in update s p).1)
    unfolding one_of
    claims_of filter update before s none k = (k, refl)
    claims_of filter update before s (some (front, (target, back))) k = record {
      one = one_of filter before update s front target back k;
      after = refl;
      first = k.2;
    }

    upserts_of :
        (filter : D → Bool) (d : D) (s : S) (p : Option (List D × (D × List D)))
        → IsPick filter never (get s) p
        → UpsertOutcome filter d (get s) (upserted_in d s p).0 (get (upserted_in d s p).1)
    upserts_of filter d s none k = (k, get-put (get s ++ (d ∷ [])) s)
    upserts_of filter d s (some place) k = refl

    pub memory-IsCollection : IsCollection memory get
    unfolding memory
    memory-IsCollection = record {
      updates = λ filter update s.
          updates_of filter update s _ (pick-IsPick filter never never_order (get s));
      claims = λ filter update before s o.
          claims_of filter update before s _ (pick-IsPick filter before o (get s));
      reads = λ filter s. reads_of filter s _ (pick-IsPick filter never never_order (get s));
      lists = λ filter s.
          (passing-All filter (get s) (get s) (λ d m. m), none_missing filter (get s), refl);
      upserts =
          λ filter d s. upserts_of filter d s _ (pick-IsPick filter never never_order (get s));
      inserts = λ d s. get-put (get s ++ (d ∷ [])) s;
      inserts_many = λ ds s. get-put (get s ++ ds) s;
    }

  module _ {X : Type 0} (view : S → X)
      (keeps : (ds : List D) (s : S) → view (put ds s) ≡ view s) where
    found_keeps : (s : S) (p : Option (List D × (D × List D))) → view (found_in s p).1 ≡ view s
    found_keeps s none = refl
    found_keeps s (some place) = refl

    updated_keeps :
        (update : D → D) (s : S) (p : Option (List D × (D × List D)))
        → view (updated_in update s p).1 ≡ view s
    updated_keeps update s none = refl
    updated_keeps update s (some (front, (target, back))) =
        keeps (front ++ (update target ∷ back)) s

    pub memory-Keeps : Keeps memory view
    unfolding memory
    memory-Keeps = record {
      find_one = λ filter s. found_keeps s (pick filter never (get s));
      update_one = λ filter update s. updated_keeps update s (pick filter never (get s));
      insert_one = λ d s. keeps (get s ++ (d ∷ [])) s;
      insert_many = λ ds s. keeps (get s ++ ds) s;
    }
