-- ===== src/Tests/ReconcileTests.antt =====
-- The reconciler of internal/controller with a monitor of its calls for a world.
use mathlib.Core.Path.{subst}
use ruleraven.Common.{ap, ◌≡◌, refl, String, true, Option, none, some, is_some, [], ◌∷◌, arith}
use ruleraven.Common.Int.{ℤ, pos}
use ruleraven.Domain.{Snapshot}
use ruleraven.Rules
use ruleraven.Kube.{ResourceKey}
use ruleraven.Provider.Contract.{Provider}
use ruleraven.Controller.Types.{
  IncidentStore, no_incident, upserted, resolved, normalized, Encoding, Reconciler,
}
use ruleraven.Controller.Reconcile.{reconcile}
use ruleraven.Controller.Monitor.{
  Phase, idle, on_incident, on_snapshot, on_ask, on_commit, IsMonitor,
}
use ruleraven.Controller.Orderly.{reconcile_orderly}
use ruleraven.Tests.Fixed.{fixed}
use ruleraven.Tests.RuleTests.{options, mount_event}
use ruleraven.Decision.Compose.{new_composer}

abbrev World : Type 0
World = Option Phase

abbrev store : IncidentStore World ℤ String
store = record {
  get_incident = λ c k s. (no_incident, s);
  upsert_incident = λ v t s. (upserted v true, on_incident s);
  upsert_snapshot = λ id v t s. (none, on_snapshot s);
  commit = λ request s. (none, on_commit request s);
}

abbrev provider : Provider World ℤ String
provider = record {
  name = "primary";
  evaluate = λ request s. (
    (
      record {
        provider = "primary";
        requested_model = "m";
        resolved_model = "m-1";
        provider_request_id = "";
        request_id = "";
        usage = record { input_tokens = pos 1; output_tokens = pos 1 };
        answers = [];
        latency = pos 1;
        attempts = pos 1;
        raw_response_hash = "";
      },
      some "down",
    ),
    on_ask s,
  );
}

abbrev encoding : Encoding
encoding = record {
  marshal_snapshot = λ v. some v.content_hash;
  marshal_payload = λ p. some p.summary;
  marshal_canonical = λ v. some v.source.uid;
  sha256 = λ s. s;
}

abbrev reconciler : Reconciler World Snapshot String fixed
reconciler = record {
  cluster_id = "prod";
  resolve = λ key s. (resolved mount_event, s);
  normalize = λ o now. normalized o;
  evaluate = λ v i s. (Rules.evaluate options (pos 1000) v i, s);
  store = store;
  primary = provider;
  fallback = some provider;
  composer = new_composer fixed;
  provider_config_hash = "c";
  destinations = "ops" ∷ [];
  timeout = pos 10;
  event_quiet_period = pos 10;
  now = λ s. (pos 1000, s);
  new_id = λ s. s;
  metrics = none;
  log_reconcile = λ key o s. s;
  log_provider = λ l s. s;
}

abbrev or_provider : Option (Provider World ℤ String) → Provider World ℤ String
or_provider none = provider
or_provider (some p) = p

reconciler-IsMonitor : IsMonitor fixed reconciler (λ s. s)
reconciler-IsMonitor = record {
  resolve = λ key s. refl;
  evaluate = λ v i s. refl;
  now = λ s. refl;
  get_incident = λ c k s. refl;
  log_reconcile = λ key o s. refl;
  log_provider = λ l s. refl;
  observe_reconcile = λ m o s e. grind (arith, e);
  observe_incident_transition = λ m i v id s e. grind (arith, e);
  observe_provider_request = λ m name model o n s e. grind (arith, e);
  upsert_incident = λ v t s. refl;
  upsert_snapshot = λ id v t s. refl;
  commit = λ request s. refl;
  primary = λ request s. refl;
  fallback =
      λ p request s e. subst (λ q. (q.evaluate request s).1 ≡ on_ask s) (ap or_provider e) refl;
}

abbrev key : ResourceKey
key = record { kind = "Event"; namespace = "shop"; name = "mount"; uid = "u" }

reconcile_orderly_example : is_some (reconcile fixed encoding reconciler key (some idle)).1 ≡ true
reconcile_orderly_example =
    reconcile_orderly fixed encoding reconciler (λ s. s) reconciler-IsMonitor key (some idle) refl
