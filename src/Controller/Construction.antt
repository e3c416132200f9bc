-- ===== src/Controller/Construction.antt =====
-- reconciler.go: `NewReconciler`. A dependency that may be nil is an option.
use ruleraven.Common.{
  String, ◌==◌, Bool, false, ◌||◌, Option, none, some, List, [], ◌∷◌, if◌then◌else◌, trim_space,
}
use ruleraven.Common.Int.{pos, Time, Duration, leb_ℤ}
use ruleraven.Common.Sort.{sort_strings}
use ruleraven.Domain.{Incident, Snapshot}
use ruleraven.Rules.{Result}
use ruleraven.Provider.Float.{Float64}
use ruleraven.Provider.Contract.{Provider}
use ruleraven.Decision.Compose.{Composer}
use ruleraven.Kube.{ResourceKey}
use ruleraven.Controller.Types.{
  IncidentStore, Resolved, Normalized, Metrics, ProviderLog, Reconciler,
}

pub record Config (S O E : Type 0) (fl : Float64) : Type 0 where
  pub cluster_id : String
  pub resolver : Option (ResourceKey → S → Resolved O E × S)
  pub normalizer : Option (O → Time → Normalized E)
  pub rules : Option (Snapshot → Option Incident → S → Result × S)
  pub store : Option (IncidentStore S fl.F E)
  pub primary : Option (Provider S fl.F E)
  pub fallback : Option (Provider S fl.F E)
  pub composer : Composer fl
  pub provider_config_hash : String
  pub destinations : List String
  pub reconcile_timeout : Duration
  pub event_quiet_period : Duration
  pub now : Option (S → Time × S)
  pub new_id : Option (String → String)
  pub metrics : Option (Metrics S)
  pub log_reconcile : ResourceKey → String → S → S
  pub log_provider : ProviderLog → S → S

pub data ConstructionError : Type 0 where
  no_dependency no_provider no_limits bad_destinations : ConstructionError

pub data Constructed (S O E : Type 0) (fl : Float64) : Type 0 where
  constructed : Reconciler S O E fl → Constructed S O E fl
  not_constructed : ConstructionError → Constructed S O E fl

-- The loop over the sorted destinations, behind the one before.
abbrev pub bad_after : Option String → List String → Bool
bad_after previous [] = false
bad_after none (d ∷ ds) = trim_space d == "" || bad_after (some d) ds
bad_after (some p) (d ∷ ds) = trim_space d == "" || d == p || bad_after (some d) ds

module _ {S O E : Type 0} (fl : Float64) (c : Config S O E fl) where
  abbrev pub reconciler_with :
      (ResourceKey → S → Resolved O E × S)
      → (O → Time → Normalized E)
      → (Snapshot → Option Incident → S → Result × S)
      → IncidentStore S fl.F E
      → Provider S fl.F E
      → (S → Time × S)
      → (String → String)
      → Reconciler S O E fl
  reconciler_with resolve normalize evaluate store primary now new_id = record {
    cluster_id = c.cluster_id;
    resolve = resolve;
    normalize = normalize;
    evaluate = evaluate;
    store = store;
    primary = primary;
    fallback = c.fallback;
    composer = c.composer;
    provider_config_hash = c.provider_config_hash;
    destinations = sort_strings c.destinations;
    timeout = c.reconcile_timeout;
    event_quiet_period = c.event_quiet_period;
    now = now;
    new_id = new_id;
    metrics = c.metrics;
    log_reconcile = c.log_reconcile;
    log_provider = c.log_provider;
  }

  abbrev pub limited :
      (ResourceKey → S → Resolved O E × S)
      → (O → Time → Normalized E)
      → (Snapshot → Option Incident → S → Result × S)
      → IncidentStore S fl.F E
      → Provider S fl.F E
      → Option (S → Time × S)
      → Option (String → String)
      → Constructed S O E fl
  limited resolve normalize evaluate store primary (some now) (some new_id) =
      if leb_ℤ c.reconcile_timeout (pos 0) || leb_ℤ c.event_quiet_period (pos 0)
      then not_constructed no_limits
      else if bad_after none (sort_strings c.destinations)
      then not_constructed bad_destinations
      else constructed (reconciler_with resolve normalize evaluate store primary now new_id)
  limited resolve normalize evaluate store primary _ _ = not_constructed no_limits

  abbrev pub provided :
      (ResourceKey → S → Resolved O E × S)
      → (O → Time → Normalized E)
      → (Snapshot → Option Incident → S → Result × S)
      → IncidentStore S fl.F E
      → Option (Provider S fl.F E)
      → Constructed S O E fl
  provided resolve normalize evaluate store none = not_constructed no_provider
  provided resolve normalize evaluate store (some primary) =
      limited resolve normalize evaluate store primary c.now c.new_id

  abbrev pub equipped :
      Option (ResourceKey → S → Resolved O E × S)
      → Option (O → Time → Normalized E)
      → Option (Snapshot → Option Incident → S → Result × S)
      → Option (IncidentStore S fl.F E)
      → Constructed S O E fl
  equipped (some resolve) (some normalize) (some evaluate) (some store) =
      provided resolve normalize evaluate store c.primary
  equipped _ _ _ _ = not_constructed no_dependency

  unfoldable pub new_reconciler : Constructed S O E fl
  new_reconciler =
      if trim_space c.cluster_id == ""
      then not_constructed no_dependency
      else equipped c.resolver c.normalizer c.rules c.store
