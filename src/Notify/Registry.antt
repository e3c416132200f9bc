-- ===== src/Notify/Registry.antt =====
-- registry.go: the factories of notifiers by their type, over the type of a factory. The lock is not
-- modelled: an operation is one step.
use ruleraven.Common.{
  ◌≡◌, inl, inr, Option-cases, Bool-cases, arith, ◌==◌, Option, none, some, List, is_some, String,
  if◌then◌else◌, trim_space,
}
use ruleraven.Common.Maps.{Map, lookup, insert, keys, lookup-insert}
use ruleraven.Common.Sort.{sort_strings}

pub data RegisterError : Type 0 where
  no_type no_factory : RegisterError
  duplicate_type : String → RegisterError

module _ (F : Type 0) where
  abbrev pub add_factory : String → Option F → Map F → Option RegisterError × Map F
  add_factory type none r = (some no_factory, r)
  add_factory type (some f) r =
      if is_some (lookup type r) then (some (duplicate_type type), r) else (none, insert type f r)

  unfoldable pub register : String → Option F → Map F → Option RegisterError × Map F
  register notifier_type factory r =
      if trim_space notifier_type == ""
      then (some no_type, r)
      else add_factory (trim_space notifier_type) factory r

  -- The factory that `Create` calls; `none` is the unknown type.
  abbrev pub created : String → Map F → Option F
  created notifier_type r = lookup notifier_type r

  abbrev pub types : Map F → List String
  types r = sort_strings (keys r)

  added-lookup :
      (type j : String) (f : F) (r : Map F)
      → (add_factory type (some f) r).0 ≡ none
      → (lookup type r ≡ none)
        × (lookup j (add_factory type (some f) r).1 ≡ (if type == j then some f else lookup j r))
  added-lookup type j f r h = elim (Option-cases (lookup type r)) [
    | inl e ↦ (e, rw (e, add_factory) (lookup-insert type j f r))
    | inr (g, e) ↦ absurd (ground (arith, h, e))
  ]

  -- A registration that succeeds was of a type not yet registered; after it, the trimmed type has
  -- that factory, and every other type has what it had.
  pub register-created :
      (notifier_type j : String) (f : F) (r : Map F)
      → (register notifier_type (some f) r).0 ≡ none
      → (created (trim_space notifier_type) r ≡ none)
        × (created j (register notifier_type (some f) r).1
            ≡ (if trim_space notifier_type == j then some f else created j r))
  unfolding register
  register-created notifier_type j f r h = elim (Bool-cases (trim_space notifier_type == "")) [
    | inl e ↦ absurd (ground (arith, h, e))
    | inr e ↦
        rw (e, register) (added-lookup (trim_space notifier_type) j f r (ground (arith, h, e)))
  ]
