-- ===== src/Store/Replaced.antt =====
-- What an update of one document is, said of the documents before and after it rather than by the
-- filter and the update that the code gives the database.
use ruleraven.Common.{◌≡◌, ◌⊎◌, inl, inr, Bool, true, List, ◌∷◌, ◌++◌}
use ruleraven.Store.Collection.{OneUpdated}
use ruleraven.Store.Updates.{Effect}

-- One document of a kind is replaced, and no other is touched.
pub record OneReplaced {D : Type 0} (IsOld : D → Type 0) (IsNew : D → D → Type 0) (old new : List D)
    : Type 0 where
  pub front : List D
  pub target : D
  pub result : D
  pub back : List D
  pub here : old ≡ front ++ (target ∷ back)
  pub there : new ≡ front ++ (result ∷ back)
  pub before : IsOld target
  pub after : IsNew target result

module _ {D : Type 0} (filter : D → Bool) (update : D → D) (IsOld : D → Type 0)
    (IsNew : D → D → Type 0) (passes : (d : D) → filter d ≡ true → IsOld d)
    (updates : (d : D) → IsNew d (update d)) where
  unfoldable pub replaced :
      {old new : List D} → OneUpdated filter update old new → OneReplaced IsOld IsNew old new
  replaced u = record {
    front = u.front;
    target = u.target;
    result = update u.target;
    back = u.back;
    here = u.here;
    there = u.updated;
    before = passes u.target u.passes;
    after = updates u.target;
  }

  pub perhaps_replaced :
      {old new : List D}
      → Effect filter update old new
      → (new ≡ old) ⊎ OneReplaced IsOld IsNew old new
  perhaps_replaced (inl e) = inl e
  perhaps_replaced (inr u) = inr (replaced u)
