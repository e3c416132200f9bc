-- ===== src/Store/Collection.antt =====
-- What the store uses of a MongoDB collection: the calls, over documents D, a world S and the
-- driver's errors E, and the laws that the driver documents for them. A failed write may or may not
-- have been applied.
use mathlib.Core.List.{Memᴰ}
use ruleraven.Common.Sort.{IsOrder}
use ruleraven.Common.{◌≡◌, ◌⊎◌, Bool, true, false, Option, none, some, List, [], ◌∷◌, ◌++◌, All}

-- A document, none, or an error.
pub data Read (D E : Type 0) : Type 0 where
  read : D → Read D E
  no_documents : Read D E
  read_failed : E → Read D E

pub data Listing (D E : Type 0) : Type 0 where
  documents : List D → Listing D E
  find_failed : E → Listing D E

-- Whether an update matched a document.
pub data Written (E : Type 0) : Type 0 where
  matched unmatched : Written E
  write_failed : E → Written E

-- Whether an upsert inserted its document.
pub data Upsert (E : Type 0) : Type 0 where
  inserted there : Upsert E
  duplicate_key : Upsert E
  upsert_failed : E → Upsert E

-- The document that an upsert finds or inserts.
pub data Stored (D E : Type 0) : Type 0 where
  stored : D → Stored D E
  duplicate : Stored D E
  not_stored : E → Stored D E

-- What the store's operations fail with; `driver` is an error of the database driver, `missing` that
-- what was just written is not read back.
pub data StoreError (E : Type 0) : Type 0 where
  bad_request conflict early_attempt missing : StoreError E
  driver : E → StoreError E

pub record Collection (S D E : Type 0) : Type 0 where
  pub find_one : (D → Bool) → S → Read D E × S
  pub find : (D → Bool) → S → Listing D E × S
  pub update_one : (D → Bool) → (D → D) → S → Written E × S
  pub upsert_one : (D → Bool) → D → S → Upsert E × S
  -- The first match in an order, as it is after the update.
  pub find_one_and_update : (D → Bool) → (D → D) → (D → D → Bool) → S → Read D E × S
  pub find_one_and_upsert : (D → Bool) → D → S → Stored D E × S
  pub insert_one : D → S → Option E × S
  pub insert_many : List D → S → Option E × S

module _ {D : Type 0} where
  -- One document that passes the filter is replaced by its update, and no other is touched.
  pub record OneUpdated (filter : D → Bool) (update : D → D) (old new : List D) : Type 0 where
    pub front : List D
    pub target : D
    pub back : List D
    pub here : old ≡ front ++ (target ∷ back)
    pub passes : filter target ≡ true
    pub updated : new ≡ front ++ (update target ∷ back)

  -- No document passes the filter.
  abbrev pub NoMatch : (D → Bool) → List D → Type 0
  NoMatch filter docs = All (λ d. filter d ≡ false) docs

  abbrev pub UpdateOutcome :
      {E : Type 0} → (D → Bool) → (D → D) → List D → Written E → List D → Type 0
  UpdateOutcome filter update old matched new = OneUpdated filter update old new
  UpdateOutcome filter update old unmatched new = NoMatch filter old × (new ≡ old)
  UpdateOutcome filter update old (write_failed e) new =
      (new ≡ old) ⊎ OneUpdated filter update old new

  -- The update of the first match, which is what is read.
  pub record FirstUpdated (filter : D → Bool) (update : D → D) (before : D → D → Bool)
      (old : List D) (doc : D) (new : List D) : Type 0 where
    pub one : OneUpdated filter update old new
    pub after : doc ≡ update one.target
    pub first : All (λ d. filter d ≡ true → before d one.target ≡ false) old

  abbrev pub ClaimOutcome :
      {E : Type 0} → (D → Bool) → (D → D) → (D → D → Bool) → List D → Read D E → List D → Type 0
  ClaimOutcome filter update before old (read d) new = FirstUpdated filter update before old d new
  ClaimOutcome filter update before old no_documents new = NoMatch filter old × (new ≡ old)
  ClaimOutcome filter update before old (read_failed e) new =
      (new ≡ old) ⊎ OneUpdated filter update old new

  abbrev pub ReadOutcome : {E : Type 0} → (D → Bool) → List D → Read D E → List D → Type 0
  ReadOutcome filter old (read d) new = Memᴰ d old × (filter d ≡ true) × (new ≡ old)
  ReadOutcome filter old no_documents new = NoMatch filter old × (new ≡ old)
  ReadOutcome filter old (read_failed e) new = new ≡ old

  -- The documents that are listed are those that pass the filter, in some order.
  abbrev pub ListingOutcome : {E : Type 0} → (D → Bool) → List D → Listing D E → List D → Type 0
  ListingOutcome filter old (documents ds) new =
      All (λ d. Memᴰ d old × (filter d ≡ true)) ds
      × All (λ d. (filter d ≡ false) ⊎ Memᴰ d ds) old
      × (new ≡ old)
  ListingOutcome filter old (find_failed e) new = new ≡ old

  abbrev pub UpsertOutcome : {E : Type 0} → (D → Bool) → D → List D → Upsert E → List D → Type 0
  UpsertOutcome filter d old inserted new = NoMatch filter old × (new ≡ old ++ (d ∷ []))
  UpsertOutcome filter d old there new = new ≡ old
  UpsertOutcome filter d old duplicate_key new = new ≡ old
  UpsertOutcome filter d old (upsert_failed e) new =
      (new ≡ old) ⊎ (NoMatch filter old × (new ≡ old ++ (d ∷ [])))

  -- Of many documents, those up to the first that fails are inserted.
  abbrev pub InsertOutcome : {E : Type 0} → List D → List D → Option E → List D → Type 0
  InsertOutcome ds old none new = new ≡ old ++ ds
  InsertOutcome ds old (some e) new =
      (front : List D) × (back : List D) × (ds ≡ front ++ back) × (new ≡ old ++ front)

-- The laws of the calls, over a view of the documents.
pub record IsCollection {S D E : Type 0} (c : Collection S D E) (docs : S → List D) : Type 0 where
  pub updates :
      (filter : D → Bool) (update : D → D) (s : S)
      → UpdateOutcome filter update
          (docs s)
          (c.update_one filter update s).0
          (docs (c.update_one filter update s).1)
  pub claims :
      (filter : D → Bool) (update : D → D) (before : D → D → Bool) (s : S)
      → IsOrder before
      → ClaimOutcome filter update before
          (docs s)
          (c.find_one_and_update filter update before s).0
          (docs (c.find_one_and_update filter update before s).1)
  pub reads :
      (filter : D → Bool) (s : S)
      → ReadOutcome filter (docs s) (c.find_one filter s).0 (docs (c.find_one filter s).1)
  pub lists :
      (filter : D → Bool) (s : S)
      → ListingOutcome filter (docs s) (c.find filter s).0 (docs (c.find filter s).1)
  pub upserts :
      (filter : D → Bool) (d : D) (s : S)
      → UpsertOutcome filter d
          (docs s)
          (c.upsert_one filter d s).0
          (docs (c.upsert_one filter d s).1)
  pub inserts :
      (d : D) (s : S)
      → InsertOutcome (d ∷ []) (docs s) (c.insert_one d s).0 (docs (c.insert_one d s).1)
  pub inserts_many :
      (ds : List D) (s : S)
      → InsertOutcome ds (docs s) (c.insert_many ds s).0 (docs (c.insert_many ds s).1)

-- The calls on one collection leave what is seen of the others as it is.
pub record Keeps {S D E X : Type 0} (c : Collection S D E) (view : S → X) : Type 0 where
  pub find_one : (filter : D → Bool) (s : S) → view (c.find_one filter s).1 ≡ view s
  pub update_one :
      (filter : D → Bool) (update : D → D) (s : S) → view (c.update_one filter update s).1 ≡ view s
  pub insert_one : (d : D) (s : S) → view (c.insert_one d s).1 ≡ view s
  pub insert_many : (ds : List D) (s : S) → view (c.insert_many ds s).1 ≡ view s
