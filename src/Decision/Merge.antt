-- ===== src/Decision/Merge.antt =====
-- `mergeStrings` is the sorted union without the empty text.
use ruleraven.Common.{
  ◌≡◌, refl, String, ◌==◌, eq_iff, false, not, ◌&&◌, ◌||◌, List, [], ◌∷◌, contains, arith, ltb_text,
  Bool-cases, inl, inr,
}
use ruleraven.Common.Sort.{
  sort_by, insert_by, sort_strings, IsSortedBy, sort_by-IsSortedBy, text_order,
}
use ruleraven.Decision.Compose.{add_seen, merge_strings}

contains-insert_by :
    (x : String) (ys : List String) (v : String)
    → contains (insert_by ltb_text x ys) v ≡ (x == v || contains ys v)
unfolding insert_by
contains-insert_by x [] v = refl
contains-insert_by x (y ∷ ys) v = ground (arith, contains-insert_by x ys v)

pub contains-sort_strings :
    (xs : List String) (v : String) → contains (sort_strings xs) v ≡ contains xs v
unfolding sort_strings sort_by
contains-sort_strings [] v = refl
contains-sort_strings (x ∷ xs) v =
    ground (arith, contains-insert_by x (sort_by ltb_text xs) v, contains-sort_strings xs v)

contains-add_seen :
    (seen values : List String) (v : String)
    → contains (add_seen seen values) v ≡ (contains seen v || (not (v == "") && contains values v))
unfolding add_seen
contains-add_seen seen [] v = ground arith
contains-add_seen seen (x ∷ xs) v = ground (
  arith,
  contains-add_seen seen xs v,
  contains-add_seen (x ∷ seen) xs v,
  eq_iff x v,
  eq_iff x "",
  eq_iff v "",
)

-- No text twice.
abbrev pub Distinct : List String → Type 0
Distinct [] = Unit
Distinct (x ∷ xs) = (contains xs x ≡ false) × Distinct xs

add_seen-Distinct : (seen values : List String) → Distinct seen → Distinct (add_seen seen values)
unfolding add_seen
add_seen-Distinct seen [] d = d
add_seen-Distinct seen (x ∷ xs) d = elim (Bool-cases (x == "" || contains seen x)) [
  | inl e ↦ rw e (add_seen-Distinct seen xs d)
  | inr e ↦ rw e (add_seen-Distinct (x ∷ seen) xs (ground (arith, e), d))
]

insert_by-Distinct :
    (x : String) (ys : List String)
    → contains ys x ≡ false
    → Distinct ys
    → Distinct (insert_by ltb_text x ys)
unfolding insert_by
insert_by-Distinct x [] h d = (refl, tt)
insert_by-Distinct x (y ∷ ys) h d =
    ground (arith, contains-insert_by x ys y, insert_by-Distinct x ys, eq_iff x y, eq_iff y x)

sort_strings-Distinct : (xs : List String) → Distinct xs → Distinct (sort_strings xs)
unfolding sort_strings sort_by
sort_strings-Distinct [] d = tt
sort_strings-Distinct (x ∷ xs) d =
    insert_by-Distinct x (sort_by ltb_text xs) (rw (contains-sort_strings xs x) d.0)
      (sort_strings-Distinct xs d.1)

contains-merge :
    (left right : List String) (v : String)
    → contains (merge_strings left right) v
      ≡ (not (v == "") && (contains left v || contains right v))
unfolding merge_strings
contains-merge left right v = ground (
  arith,
  contains-sort_strings (add_seen (add_seen [] left) right) v,
  contains-add_seen (add_seen [] left) right v,
  contains-add_seen [] left v,
)

-- The merge of two lists holds a text exactly when it is not empty and in one of the two, holds
-- none twice, and is sorted.
pub merge_strings_union :
    (left right : List String)
    → ((v : String)
        → contains (merge_strings left right) v
          ≡ (not (v == "") && (contains left v || contains right v)))
      × Distinct (merge_strings left right)
      × IsSortedBy ltb_text (merge_strings left right)
unfolding merge_strings sort_strings
merge_strings_union left right = (
  contains-merge left right,
  sort_strings-Distinct _ (add_seen-Distinct _ right (add_seen-Distinct [] left tt)),
  sort_by-IsSortedBy ltb_text text_order (add_seen (add_seen [] left) right),
)
