-- ===== src/Rules/Winning.antt =====
-- The severity that a list of matches, or of containers, ends with.
use ruleraven.Common.{
  ◌≡◌, refl, ◌≤◌, Bool, ◌&&◌, List, [], ◌∷◌, All, any, arith, if◌then◌else◌, inl, inr, ◌⊎◌, ◌∙◌,
}
use ruleraven.Common.Int.{leb_ℤ}
use mathlib.Core.List.{Memᴰ}
use ruleraven.Domain.{
  severity_critical, severity_warning, severity_unset, severity_rank, ContainerState,
}
use ruleraven.Rules.Detect.{Match, Options, is_crash_looping, crash_severity}
use ruleraven.Rules.{worse, highest_severity}

worse-ge :
    (w m : Match)
    → (severity_rank w.severity ≤ severity_rank (worse w m).severity)
      × (severity_rank m.severity ≤ severity_rank (worse w m).severity)
unfolding worse
worse-ge w m = ground arith

worse-cases : (w m : Match) → (worse w m ≡ w) ⊎ (worse w m ≡ m)
unfolding worse
worse-cases w m = ground arith

pub highest_severity-ge :
    (w : Match) (ms : List Match)
    → (severity_rank w.severity ≤ severity_rank (highest_severity w ms).severity)
      × All (λ m. severity_rank m.severity ≤ severity_rank (highest_severity w ms).severity) ms
unfolding highest_severity
highest_severity-ge w [] = (omega arith, tt)
highest_severity-ge w (m ∷ ms) =
    let (a, b) = highest_severity-ge (worse w m) ms in
    (omega (arith, a, worse-ge w m), (omega (arith, a, worse-ge w m), b))

pub highest_severity-mem : (w : Match) (ms : List Match) → Memᴰ (highest_severity w ms) (w ∷ ms)
unfolding highest_severity
highest_severity-mem w [] = Memᴰ.head refl
highest_severity-mem w (m ∷ ms) = place (worse-cases w m) (highest_severity-mem (worse w m) ms)
  where
    place :
        (worse w m ≡ w) ⊎ (worse w m ≡ m)
        → Memᴰ (highest_severity (worse w m) ms) (worse w m ∷ ms)
        → Memᴰ (highest_severity (worse w m) ms) (w ∷ m ∷ ms)
    place c (Memᴰ.head e) = elim c [
      | inl p ↦ Memᴰ.head (e ∙ p)
      | inr p ↦ Memᴰ.tail (Memᴰ.head (e ∙ p))
    ]
    place c (Memᴰ.tail t) = Memᴰ.tail (Memᴰ.tail t)

abbrev pub critically : Options → ContainerState → Bool
critically o c = is_crash_looping o c && leb_ℤ o.crash_loop_critical_threshold c.restart_count

crash_severity-critical :
    (o : Options) (cs : List ContainerState)
    → crash_severity o cs severity_critical ≡ severity_critical
unfolding crash_severity
crash_severity-critical o [] = refl
crash_severity-critical o (c ∷ cs) = ground (arith, crash_severity-critical o cs)

crash_severity-warning :
    (o : Options) (cs : List ContainerState)
    → crash_severity o cs severity_warning
      ≡ (if any (critically o) cs then severity_critical else severity_warning)
unfolding crash_severity
crash_severity-warning o [] = refl
crash_severity-warning o (c ∷ cs) =
    ground (arith, crash_severity-warning o cs, crash_severity-critical o cs)

-- The loop of `podCrashLoop` ends with critical if some container loops at or past the critical
-- threshold, else with warning if some container loops, else with what it began with.
pub crash_severity_lem :
    (o : Options) (cs : List ContainerState)
    → crash_severity o cs severity_unset ≡ (
        if any (critically o) cs
        then severity_critical
        else if any (is_crash_looping o) cs
        then severity_warning
        else severity_unset)
unfolding crash_severity
crash_severity_lem o [] = refl
crash_severity_lem o (c ∷ cs) =
    ground
      (arith, crash_severity_lem o cs, crash_severity-warning o cs, crash_severity-critical o cs)
