-- ===== src/Common/Maps.antt =====
-- Go's maps with string keys, as association lists. The order of the list is the order in which a
-- `range` loop happens to run; a map has each key once (`NodupKeys`).
use Prim.Native.String.{String}
use mathlib.Core.Path.{◌≡◌, refl}
use mathlib.Core.Bool.{false}
use mathlib.Core.Option.{Option, none, some}
use mathlib.Core.List.{List, [], ◌∷◌}
use native.Mathlib.Omega.{arith}
use text.Mathlib.Text.{◌==◌}
use text.Mathlib.TextEquality.{eq_iff}
use ruleraven.Common.Tests.{if◌then◌else◌}
use ruleraven.Common.Text.{contains}

abbrev pub Map {ℓ} : Type ℓ → Type ℓ
Map V = List (String × V)

module _ {ℓ} {V : Type ℓ} where
  -- `v, ok := m[k]`
  unfoldable pub lookup : String → Map V → Option V
  lookup name [] = none
  lookup name ((other, value) ∷ entries) = if other == name then some value else lookup name entries

  -- `m[k] = v`
  unfoldable pub insert : String → V → Map V → Map V
  insert name value [] = (name, value) ∷ []
  insert name value ((other, kept) ∷ entries) =
      if other == name then (name, value) ∷ entries else (other, kept) ∷ insert name value entries

  abbrev pub keys : Map V → List String
  keys [] = []
  keys ((name, _) ∷ entries) = name ∷ keys entries

  abbrev pub NodupKeys : Map V → Type 0
  NodupKeys [] = Unit
  NodupKeys ((name, _) ∷ entries) = (contains (keys entries) name ≡ false) × NodupKeys entries

  pub lookup-insert :
      (name other : String) (value : V) (entries : Map V)
      → lookup other (insert name value entries)
        ≡ (if name == other then some value else lookup other entries)
  unfolding lookup insert
  lookup-insert name other value [] = refl
  lookup-insert name other value ((third, kept) ∷ entries) = ground (
    arith,
    eq_iff name other,
    eq_iff third name,
    eq_iff third other,
    lookup-insert name other value entries,
  )

  pub lookup-none_of_contains :
      (name : String) (entries : Map V)
      → contains (keys entries) name ≡ false
      → lookup name entries ≡ none
  unfolding lookup
  lookup-none_of_contains name [] h = refl
  lookup-none_of_contains name ((other, value) ∷ entries) h =
      ground (arith, lookup-none_of_contains name entries)
