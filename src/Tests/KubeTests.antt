-- ===== src/Tests/KubeTests.antt =====
-- internal/kube: an informer's callback on a queue that is a list.
use ruleraven.Common.{true, some, List, [], ◌∷◌, ◌++◌}
use ruleraven.Kube.{ResourceKey}
use ruleraven.Kube.Handler.{Object, tombstone, type_pod, EventHandler, new_event_handler, on_delete}
use ruleraven.Kube.Queued.{IsAdded, on_delete-IsAdded}

abbrev push : ResourceKey → List ResourceKey → List ResourceKey
push k s = s ++ (k ∷ [])

abbrev pod : Object
pod = record {
  own_kind = some "";
  type = type_pod;
  metadata = some (record { namespace = "shop"; name = "web"; uid = "u1" });
}

abbrev handler : EventHandler
handler = new_event_handler (" shop " ∷ "" ∷ []) true

on_delete-IsAdded_example : IsAdded push handler pod [] (on_delete push handler (tombstone pod) [])
on_delete-IsAdded_example = on_delete-IsAdded push handler (tombstone pod) []
