-- ===== src/Common/Checks.antt =====
-- Go's way with errors, over a type of errors: `if err := a; err != nil { return err }`.
use mathlib.Core.Path.{◌≡◌, refl}
use mathlib.Core.Bool.{Bool, true, false}
use mathlib.Core.Option.{Option, none, some}
use mathlib.Core.List.{List, [], ◌∷◌}
use native.Mathlib.Omega.{arith}
use ruleraven.Common.Lists.{All}

module _ {E : Type 0} where
  -- `if err := a; err != nil { return err }`, and then `b`
  infixr 20 ◌orelse◌
  abbrev pub ◌orelse◌ : Option E → Option E → Option E
  none orelse b = b
  (some e) orelse b = some e

  abbrev pub fail_if : Bool → E → Option E
  fail_if true e = some e
  fail_if false e = none

  -- `for _, x := range xs { … return err … }`
  unfoldable pub first_error {ℓ} : {A : Type ℓ} → (A → Option E) → List A → Option E
  first_error f [] = none
  first_error f (x ∷ xs) = f x orelse first_error f xs

  pub first_error-All {ℓ} :
      {A : Type ℓ} (f : A → Option E) (xs : List A)
      → first_error f xs ≡ none
      → All (λ x. f x ≡ none) xs
  unfolding first_error
  first_error-All f [] h = tt
  first_error-All f (x ∷ xs) h = (ground (arith, h), first_error-All f xs (ground (arith, h)))

  -- Both of two checks pass.
  pub orelse_none : (a b : Option E) → a orelse b ≡ none → (a ≡ none) × (b ≡ none)
  orelse_none none b h = (refl, h)
  orelse_none (some e) b h = absurd (grind (arith, h))
