-- ===== src/Common/Sort.antt =====
-- `sort.Slice` and `sort.Strings`. Go leaves the order of equal elements open; here it is theirs in
-- the list.
pub mod TextOrder
use mathlib.Core.Path.{◌≡◌, refl, sym}
use mathlib.Core.Bool.{Bool, true, false}
use mathlib.Core.Logic.{inl, inr}
use mathlib.Core.List.{List, [], ◌∷◌, Perm}
use mathlib.Core.List.Perm
use native.Mathlib.Omega.{arith}
use Prim.Native.String.{String}
use ruleraven.Common.Tests.{if◌then◌else◌, Bool-cases}
use ruleraven.Common.Lists.{All, All-map}
use ruleraven.Common.Text.{ltb_text}
use TextOrder.{ltb_text-asymm, ltb_text-false_trans}

module _ {ℓ} {A : Type ℓ} (lt : A → A → Bool) where
  unfoldable pub insert_by : A → List A → List A
  insert_by x [] = x ∷ []
  insert_by x (y ∷ ys) = if lt y x then y ∷ insert_by x ys else x ∷ y ∷ ys

  unfoldable pub sort_by : List A → List A
  unfolding insert_by
  sort_by [] = []
  sort_by (x ∷ xs) = insert_by x (sort_by xs)

  -- No element stands after one that it should stand before.
  abbrev pub IsSortedBy : List A → Type 0
  IsSortedBy [] = Unit
  IsSortedBy (x ∷ xs) = All (λ y. lt y x ≡ false) xs × IsSortedBy xs

  insert_by-perm : (x : A) (ys : List A) → Perm (insert_by x ys) (x ∷ ys)
  unfolding insert_by
  insert_by-perm x [] = Perm.refl (x ∷ [])
  insert_by-perm x (y ∷ ys) = elim (Bool-cases (lt y x)) [
    | inl e ↦ rw e (Perm.trans (Perm.cons y (insert_by-perm x ys)) (Perm.swap x y ys))
    | inr e ↦ rw e (Perm.refl (x ∷ y ∷ ys))
  ]

  pub sort_by-perm : (xs : List A) → Perm (sort_by xs) xs
  unfolding sort_by
  sort_by-perm [] = Perm.refl []
  sort_by-perm (x ∷ xs) = Perm.trans (insert_by-perm x (sort_by xs)) (Perm.cons x (sort_by-perm xs))

  insert_by-All {κ} :
      (P : A → Type κ) (x : A) (ys : List A) → P x → All P ys → All P (insert_by x ys)
  unfolding insert_by
  insert_by-All P x [] px h = (px, tt)
  insert_by-All P x (y ∷ ys) px h = elim (Bool-cases (lt y x)) [
    | inl e ↦ rw e (h.0, insert_by-All P x ys px h.1)
    | inr e ↦ rw e (px, h)
  ]

  pub sort_by-All {κ} : (P : A → Type κ) (xs : List A) → All P xs → All P (sort_by xs)
  unfolding sort_by
  sort_by-All P [] h = tt
  sort_by-All P (x ∷ xs) h = insert_by-All P x (sort_by xs) h.0 (sort_by-All P xs h.1)

  insert_by-All_of {κ} :
      (P : A → Type κ) (x : A) (ys : List A) → All P (insert_by x ys) → P x × All P ys
  unfolding insert_by
  insert_by-All_of P x [] h = h
  insert_by-All_of P x (y ∷ ys) h = elim (Bool-cases (lt y x)) [
    | inl e ↦
        let k : P y × All P (insert_by x ys) = rw e at h in
        let (px, rest) = insert_by-All_of P x ys k.1 in (px, (k.0, rest))
    | inr e ↦ let k : P x × (P y × All P ys) = rw e at h in (k.0, k.1)
  ]

  pub sort_by-All_of {κ} : (P : A → Type κ) (xs : List A) → All P (sort_by xs) → All P xs
  unfolding sort_by
  sort_by-All_of P [] h = tt
  sort_by-All_of P (x ∷ xs) h =
      let (px, rest) = insert_by-All_of P x (sort_by xs) h in (px, sort_by-All_of P xs rest)

  -- The two laws of a strict weak order, as `sort` wants them.
  pub record IsOrder : Type ℓ where
    pub asymm : (x y : A) → lt x y ≡ true → lt y x ≡ false
    pub false_trans : (x y z : A) → lt y x ≡ false → lt z y ≡ false → lt z x ≡ false

  module _ (o : IsOrder) where
    insert_by-IsSortedBy : (x : A) (ys : List A) → IsSortedBy ys → IsSortedBy (insert_by x ys)
    unfolding insert_by
    insert_by-IsSortedBy x [] h = (tt, tt)
    insert_by-IsSortedBy x (y ∷ ys) h = elim (Bool-cases (lt y x)) [
      | inl e ↦ rw e (
        insert_by-All (λ z. lt z y ≡ false) x ys (o.asymm y x e) h.0,
        insert_by-IsSortedBy x ys h.1,
      )
      | inr e ↦ rw e (
        (
          e,
          All-map (λ z. lt z y ≡ false) (λ z. lt z x ≡ false) ys (λ z p. o.false_trans x y z e p)
              h.0,
        ),
        h,
      )
    ]

    pub sort_by-IsSortedBy : (xs : List A) → IsSortedBy (sort_by xs)
    unfolding sort_by
    sort_by-IsSortedBy [] = tt
    sort_by-IsSortedBy (x ∷ xs) = insert_by-IsSortedBy x (sort_by xs) (sort_by-IsSortedBy xs)

pub text_order : IsOrder ltb_text
text_order = record { asymm = ltb_text-asymm; false_trans = ltb_text-false_trans }

-- `sort.Strings`
unfoldable pub sort_strings : List String → List String
unfolding sort_by
sort_strings = sort_by ltb_text
