-- ===== src/Tests/ControllerTests.antt =====
-- internal/controller at a concrete evaluation and a concrete queue.
use ruleraven.Common.{
  ◌≡◌, refl, ◌↔◌, String, true, none, some, is_some, List, [], ◌∷◌, ◌++◌, equal_fold, folded,
}
use ruleraven.Common.Int.{pos}
use ruleraven.Domain.{Incident, incident_resolved, incident_suppressed}
use ruleraven.Rules.{ignored_reason, recovered, all_matches, evaluate}
use ruleraven.Kube.{ResourceKey}
use ruleraven.Controller.{status_for, enqueue, Listed, listed, sweep_once}
use ruleraven.Controller.Status.{status_for-evaluate}
use ruleraven.Controller.Sweep.{IsSwept, sweep_once-IsSwept}
use ruleraven.Tests.RuleTests.{options, crashing_pod, mount_event, open_incident}

abbrev open_event : Incident
open_event = record open_incident { source = mount_event.source }

abbrev list_two : List ResourceKey → Listed String × List ResourceKey
list_two queue = (listed (open_incident ∷ open_event ∷ []), queue)

abbrev append_key : ResourceKey → List ResourceKey → List ResourceKey
append_key key queue = queue ++ (key ∷ [])

sweeps_the_event : sweep_once append_key "prod" list_two [] ≡ (
  none,
  record {
    kind = "Event";
    namespace = mount_event.source.namespace;
    name = mount_event.source.name;
    uid = mount_event.source.uid;
  }
      ∷ [],
)
unfolding sweep_once enqueue equal_fold folded
sweeps_the_event = refl

status_for-evaluate_example :
    (status_for (evaluate options (pos 1000) crashing_pod (some open_incident))
        ≡ incident_suppressed
      ↔ is_some (ignored_reason options crashing_pod) ≡ true)
    × (status_for (evaluate options (pos 1000) crashing_pod (some open_incident))
          ≡ incident_resolved
        ↔ (ignored_reason options crashing_pod ≡ none)
          × (all_matches options (pos 1000) crashing_pod ≡ [])
          × (is_some (recovered (some open_incident)) ≡ true))
status_for-evaluate_example =
    status_for-evaluate options (pos 1000) crashing_pod (some open_incident)

sweep_once-IsSwept_example :
    (keys : List ResourceKey) × ((sweep_once append_key "prod" list_two []).1 ≡ [] ++ keys)
    × IsSwept "prod" (list_two []).0 (sweep_once append_key "prod" list_two []).0 keys
sweep_once-IsSwept_example =
    sweep_once-IsSwept append_key "prod" (λ queue. queue) (λ key queue. refl) list_two [] refl
