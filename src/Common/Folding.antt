-- ===== src/Common/Folding.antt =====
-- Case-insensitive comparison tells constants apart.
use Prim.Native.Nat.{ℕ, suc}
use Prim.Native.String.{String}
use mathlib.Core.Path.{◌≡◌, refl, ap}
use mathlib.Core.Bool.{true, false}
use mathlib.Core.List.{List, [], ◌∷◌}
use native.Mathlib.Omega.{arith}
use ruleraven.Common.Tests.{Bool-cases, eqb}
use ruleraven.Common.Text.{same_codes, equal_fold, folded, lowered, lower_is, codes}
use ruleraven.Common.Lists.{length}
use mathlib.Core.Logic.{inl, inr}

pub same_codes-eq : (a b : List ℕ) → same_codes a b ≡ true → a ≡ b
same_codes-eq [] [] h = refl
same_codes-eq [] (b ∷ bs) h = cc
same_codes-eq (a ∷ r) [] h = cc
same_codes-eq (a ∷ r) (b ∷ bs) h = ground (arith, same_codes-eq r bs)

-- A text that folds like one constant does not fold like another.
pub equal_fold_exclusive :
    (s a b : String) → equal_fold s a ≡ true → equal_fold a b ≡ false → equal_fold s b ≡ false
unfolding equal_fold
equal_fold_exclusive s a b h k = rw (same_codes-eq (folded s) (folded a) h) k

same_length : (s : String) → length (lowered s) ≡ length (folded s)
unfolding lowered folded
same_length String.[] = refl
same_length (String.◌∷◌ c s) = ap suc (same_length s)

-- Texts of different lengths in characters are not the same when lowered.
pub lower_is-length :
    (s t u : String)
    → equal_fold s t ≡ true
    → eqb (length (folded t)) (length (codes u)) ≡ false
    → lower_is s u ≡ false
unfolding equal_fold lower_is
lower_is-length s t u h k = elim (Bool-cases (same_codes (lowered s) (codes u))) [
  | inr e ↦ e
  | inl e ↦
      let p = same_codes-eq (folded s) (folded t) h in
      let q = same_codes-eq (lowered s) (codes u) e in
      ground (arith, k, ap length p, ap length q, same_length s)
]
