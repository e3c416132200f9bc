-- ===== src/Store/Updates.antt =====
-- What follows of a write on a collection, whatever came of it.
use ruleraven.Common.{
  ◌≡◌, refl, sym, ◌⊎◌, inl, inr, Bool, true, false, List, [], ◌∷◌, ◌++◌, All, All-append, arith,
}
use mathlib.Core.Path.{subst}
use mathlib.Core.List.{Memᴰ}
use mathlib.Core.List.Memᴰ
use ruleraven.Store.Collection.{
  Read, read, no_documents, read_failed, Written, matched, unmatched, write_failed, OneUpdated,
  NoMatch, UpdateOutcome, ClaimOutcome,
}

module _ {D : Type 0} where
  -- Nothing changed, or one document that passes the filter.
  abbrev pub Effect : (D → Bool) → (D → D) → List D → List D → Type 0
  Effect filter update old new = (new ≡ old) ⊎ OneUpdated filter update old new

  pub update-Effect :
      {E : Type 0} (filter : D → Bool) (update : D → D) (old new : List D) (w : Written E)
      → UpdateOutcome filter update old w new
      → Effect filter update old new
  update-Effect filter update old new matched h = inr h
  update-Effect filter update old new unmatched h = inl h.1
  update-Effect filter update old new (write_failed e) h = h

  pub claim-Effect :
      {E : Type 0} (filter : D → Bool) (update : D → D) (before : D → D → Bool) (old new : List D)
      (r : Read D E)
      → ClaimOutcome filter update before old r new
      → Effect filter update old new
  claim-Effect filter update before old new (read d) h = inr h.one
  claim-Effect filter update before old new no_documents h = inl h.1
  claim-Effect filter update before old new (read_failed e) h = h

  All-front : (P : D → Type 0) (front back : List D) → All P (front ++ back) → All P front
  All-front P [] back h = tt
  All-front P (x ∷ front) back h = (h.0, All-front P front back h.1)

  All-back : (P : D → Type 0) (front back : List D) → All P (front ++ back) → All P back
  All-back P [] back h = h
  All-back P (x ∷ front) back h = All-back P front back h.1

  pub All-mem : (P : D → Type 0) (docs : List D) (x : D) → Memᴰ x docs → All P docs → P x
  All-mem P [] x m h = absurd (Memᴰ.not-nil m)
  All-mem P (y ∷ docs) x (Memᴰ.head e) h = subst P (sym e) h.0
  All-mem P (y ∷ docs) x (Memᴰ.tail m) h = All-mem P docs x m h.1

  pub target-mem :
      {filter : D → Bool} {update : D → D} {old new : List D} (u : OneUpdated filter update old new)
      → Memᴰ u.target old
  target-mem u = subst (Memᴰ u.target) (sym u.here) (Memᴰ.append_right u.front (Memᴰ.head refl))

  pub updated-mem :
      {filter : D → Bool} {update : D → D} {old new : List D} (u : OneUpdated filter update old new)
      → Memᴰ (update u.target) new
  updated-mem {update = update} u =
      subst (Memᴰ (update u.target)) (sym u.updated) (Memᴰ.append_right u.front (Memᴰ.head refl))

  -- A predicate that the update keeps holds of all documents after it.
  pub Effect-All :
      (P : D → Type 0) {filter : D → Bool} {update : D → D} {old new : List D}
      → ((d : D) → filter d ≡ true → P d → P (update d))
      → Effect filter update old new
      → All P old
      → All P new
  Effect-All P keeps (inl e) h = subst (All P) (sym e) h
  Effect-All P {update = update} keeps (inr u) h =
      let split : All P (u.front ++ (u.target ∷ u.back)) = subst (All P) u.here h in
      let rest = All-back P u.front (u.target ∷ u.back) split in
      subst (All P) (sym u.updated) (
        All-append P u.front (update u.target ∷ u.back) (All-front P u.front _ split)
          (keeps u.target u.passes rest.0, rest.1))

  -- A document that the filter passes over is still there.
  pub Effect-mem :
      {filter : D → Bool} {update : D → D} {old new : List D} (x : D)
      → filter x ≡ false
      → Effect filter update old new
      → Memᴰ x old
      → Memᴰ x new
  Effect-mem x h (inl e) m = subst (Memᴰ x) (sym e) m
  Effect-mem {filter} {update} {old} {new} x h (inr u) m =
      subst (Memᴰ x) (sym u.updated) (elim (Memᴰ.append_cases u.front (subst (Memᴰ x) u.here m)) [
        | inl before ↦ Memᴰ.append_left (update u.target ∷ u.back) before
        | inr behind ↦ Memᴰ.append_right u.front (past behind)
      ])
    where
      past : Memᴰ x (u.target ∷ u.back) → Memᴰ x (update u.target ∷ u.back)
      past (Memᴰ.head e) = absurd (clash (subst (λ y. filter y ≡ false) e h))
        where
          clash : filter u.target ≡ false → ⊥
          clash c = grind (arith, c, u.passes)
      past (Memᴰ.tail rest) = Memᴰ.tail rest

  -- Where no document passes the filter, nothing changes.
  pub Effect-NoMatch :
      {filter : D → Bool} {update : D → D} {old new : List D}
      → NoMatch filter old
      → Effect filter update old new
      → new ≡ old
  Effect-NoMatch n (inl e) = e
  Effect-NoMatch {filter} {update} {old} n (inr u) =
      absurd (clash (All-mem (λ d. filter d ≡ false) old u.target (target-mem u) n))
    where
      clash : filter u.target ≡ false → ⊥
      clash c = grind (arith, c, u.passes)
