-- ===== src/Controller/Sweeper.antt =====
-- resolution_sweeper.go: `NewResolutionSweeper` and `Run`. The ticker and the context are the world's:
-- a wait ends with a tick or with the end of the context. The rounds are bounded by fuel.
use ruleraven.Common.{
  ◌≡◌, refl, ◌<◌, arith, ℕ, zero, suc, String, ◌==◌, Bool, true, false, not, ◌||◌, Option, none,
  some, if◌then◌else◌, trim_space,
}
use ruleraven.Common.Int.{pos, Duration, leb_ℤ}
use ruleraven.Kube.{ResourceKey}
use ruleraven.Controller.{Listed, sweep_once}

-- Whether `NewResolutionSweeper` refuses.
unfoldable pub is_bad_sweeper : (has_store has_queue : Bool) → String → Duration → Bool
is_bad_sweeper has_store has_queue cluster_id interval =
    not has_store || not has_queue || trim_space cluster_id == "" || leb_ℤ interval (pos 0)

-- How `Run` ends; `unfinished` where the fuel is used up.
pub data Swept (E : Type 0) : Type 0 where
  ended : Option E → Swept E
  unfinished : Swept E

module _ {S E : Type 0} (add : ResourceKey → S → S) (cluster_id : String) (list : S → Listed E × S)
    (wait : S → Bool × S) (is_done : S → Bool) where
  abbrev pub after_sweep : (S → Swept E × S) → Option E × S → Swept E × S
  after_sweep rest (some e, s) = (ended (some e), s)
  after_sweep rest (none, s) = rest s

  abbrev pub on_wait : (S → Swept E × S) → Bool × S → Swept E × S
  on_wait rest (false, s) = (ended none, s)
  on_wait rest (true, s) = after_sweep rest (sweep_once add cluster_id list s)

  unfoldable pub sweep_rounds : ℕ → S → Swept E × S
  sweep_rounds zero s = (unfinished, s)
  sweep_rounds (suc fuel) s = on_wait (sweep_rounds fuel) (wait s)

  -- An error of the first sweep is passed over where the context has ended.
  abbrev pub after_first : (S → Swept E × S) → Option E × S → Swept E × S
  after_first rest (none, s) = rest s
  after_first rest (some e, s) = if is_done s then rest s else (ended (some e), s)

  unfoldable pub run_sweeps : ℕ → S → Swept E × S
  run_sweeps fuel s = after_first (sweep_rounds fuel) (sweep_once add cluster_id list s)

  abbrev IsEnded : Swept E × S → Type 0
  IsEnded (ended e, s) = Unit
  IsEnded (unfinished, s) = ⊥

  module _ (left : S → ℕ)
      (ticks : (s : S)
        → (wait s).0 ≡ true
        → left (sweep_once add cluster_id list (wait s).1).1 < left s) where
    after_sweep-IsEnded :
        (rest : S → Swept E × S) (fuel : ℕ) (o : Option E × S)
        → left o.1 < fuel
        → ((s : S) → left s < fuel → IsEnded (rest s))
        → IsEnded (after_sweep rest o)
    after_sweep-IsEnded rest fuel (some e, s) k h = tt
    after_sweep-IsEnded rest fuel (none, s) k h = h s k

    on_wait-IsEnded :
        (rest : S → Swept E × S) (fuel : ℕ) (w : Bool × S)
        → (w.0 ≡ true → left (sweep_once add cluster_id list w.1).1 < fuel)
        → ((s : S) → left s < fuel → IsEnded (rest s))
        → IsEnded (on_wait rest w)
    on_wait-IsEnded rest fuel (false, s) k h = tt
    on_wait-IsEnded rest fuel (true, s) k h =
        after_sweep-IsEnded rest fuel (sweep_once add cluster_id list s) (k refl) h

    -- Where the context ends after finitely many ticks, as many rounds and one more are enough.
    sweep_rounds-IsEnded : (fuel : ℕ) (s : S) → left s < fuel → IsEnded (sweep_rounds fuel s)
    unfolding sweep_rounds
    sweep_rounds-IsEnded zero s k = omega (arith, k)
    sweep_rounds-IsEnded (suc fuel) s k =
        on_wait-IsEnded (sweep_rounds fuel) fuel (wait s) (λ t. omega (arith, ticks s t, k))
          (sweep_rounds-IsEnded fuel)
