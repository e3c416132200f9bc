-- ===== src/Notify/Dispatcher/Construction.antt =====
-- dispatcher.go: the dispatchers that `NewDispatcher` builds.
use ruleraven.Common.{
  ◌≡◌, Bool, false, ◌||◌, none, some, [], Bool-cases, Option-cases, inl, inr, arith, if◌then◌else◌,
  ◌==◌, All, trim_space,
}
use mathlib.Core.Path.{subst}
use ruleraven.Common.Int.{pos, Time, ltb_ℤ, ◌≤ℤ◌}
use ruleraven.Notify.Dispatcher.{
  OutboxStore, Dispatcher, DispatcherConfig, Built, refused, built, no_clock, bad_limits,
  bad_expiry, collect, built_with, bad_limits_of, new_dispatcher,
}
use ruleraven.Notify.Dispatcher.Bounds.{Limits}
use ruleraven.Notify.Dispatcher.Table.{
  Named, DistinctNotifiers, IsFound, collect-Named, collect-DistinctNotifiers, collect-IsFound,
}

module _ {S E : Type 0} where
  -- A worker and a cluster that are named, and expiries that are not negative.
  abbrev pub IsIdentified : Dispatcher S E → Type 0
  IsIdentified d =
      (trim_space d.worker_id == "" ≡ false)
      × (trim_space d.cluster_id == "" ≡ false)
      × (pos 0 ≤ℤ d.delivered_expiry)
      × (pos 0 ≤ℤ d.failed_expiry)

  -- What `NewDispatcher` demands of a configuration, and what it makes of it.
  abbrev pub IsValid : DispatcherConfig S E → Dispatcher S E → Type 0
  IsValid c d =
      Limits d
      × IsIdentified d
      × DistinctNotifiers c.notifiers
      × Named d.notifiers
      × All (IsFound d.notifiers) c.notifiers

  abbrev BuiltValid : DispatcherConfig S E → Built S E → Type 0
  BuiltValid c (refused e) = Unit
  BuiltValid c (built d) = IsValid c d

  abbrev bad_ids_of : DispatcherConfig S E → Bool
  bad_ids_of c = trim_space c.worker_id == "" || trim_space c.cluster_id == ""

  abbrev bad_expiry_of : DispatcherConfig S E → Bool
  bad_expiry_of c = ltb_ℤ c.delivered_expiry (pos 0) || ltb_ℤ c.failed_expiry (pos 0)

  built_with-IsValid :
      (store : OutboxStore S E) (now : S → Time × S) (c : DispatcherConfig S E)
      → bad_ids_of c ≡ false
      → bad_limits_of S E c ≡ false
      → bad_expiry_of c ≡ false
      → BuiltValid c (built_with S E store now c (collect S E c.notifiers []))
  built_with-IsValid store now c i l x = elim (Option-cases (collect S E c.notifiers []).0) [
    | inl e ↦ rw e (
      ground (arith, l),
      ground (arith, i, x),
      (collect-DistinctNotifiers E c.notifiers [] e).0,
      collect-Named E c.notifiers [] tt,
      collect-IsFound E c.notifiers [] e,
    )
    | inr (r, e) ↦ rw e tt
  ]

  new_dispatcher-BuiltValid : (c : DispatcherConfig S E) → BuiltValid c (new_dispatcher S E c)
  unfolding new_dispatcher
  new_dispatcher-BuiltValid c = elim (Option-cases c.store) [
    | inl e ↦ rw (e, new_dispatcher) tt
    | inr (store, e) ↦
        rw (e, new_dispatcher)
          (elim (Bool-cases (trim_space c.worker_id == "" || trim_space c.cluster_id == "")) [
            | inl b ↦ rw b tt
            | inr b ↦ rw b (by_limits store b)
          ])
  ]
    where
      by_clock :
          (store : OutboxStore S E)
          → bad_ids_of c ≡ false
          → bad_limits_of S E c ≡ false
          → bad_expiry_of c ≡ false
          → BuiltValid c (elim c.now [
            | none ↦ refused no_clock
            | some now ↦ built_with S E store now c (collect S E c.notifiers [])
          ])
      by_clock store i l x = elim (Option-cases c.now) [
        | inl e ↦ rw e tt
        | inr (now, e) ↦ rw e (built_with-IsValid store now c i l x)
      ]

      by_limits :
          (store : OutboxStore S E)
          → bad_ids_of c ≡ false
          → BuiltValid c (
              if bad_limits_of S E c
              then refused bad_limits
              else if ltb_ℤ c.delivered_expiry (pos 0) || ltb_ℤ c.failed_expiry (pos 0)
              then refused bad_expiry
              else elim c.now [
                | none ↦ refused no_clock
                | some now ↦ built_with S E store now c (collect S E c.notifiers [])
              ])
      by_limits store i = elim (Bool-cases (bad_limits_of S E c)) [
        | inl b ↦ rw b tt
        | inr b ↦
            rw b
              (elim (Bool-cases
                (ltb_ℤ c.delivered_expiry (pos 0) || ltb_ℤ c.failed_expiry (pos 0))) [
                  | inl b' ↦ rw b' tt
                  | inr b' ↦ rw b' (by_clock store i b b')
                ])
      ]

  -- A dispatcher that `NewDispatcher` builds has positive workers, lease, attempts and initial
  -- backoff, an initial backoff of at most the maximum, a worker and a cluster that are not blank, and
  -- expiries that are not negative. The configured notifiers are all there, with names that are not
  -- blank and differ from each other, its table finds each of them by its name, and every entry of the
  -- table stands under its notifier's own name.
  pub new_dispatcher-IsValid :
      (c : DispatcherConfig S E) (d : Dispatcher S E) → new_dispatcher S E c ≡ built d → IsValid c d
  new_dispatcher-IsValid c d h = subst (BuiltValid c) h (new_dispatcher-BuiltValid c)
