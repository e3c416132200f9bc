-- ===== src/Kube/Handler.antt =====
-- event_handler.go: which informer callbacks put a key into the queue. An object is what the handler
-- asks of it; the queue is a world on which `add` acts.
use ruleraven.Common.{
  String, ◌==◌, Bool, true, false, not, ◌||◌, Option, none, some, List, [], ◌∷◌, is_empty, contains,
  if◌then◌else◌, trim_space,
}
use ruleraven.Kube.{ResourceKey}

-- The Go types that the handler tells apart.
pub data ObjectType : Type 0 where
  type_pod type_event type_deployment type_stateful_set type_daemon_set type_job : ObjectType
  type_other : ObjectType

-- An object: whether it is a `runtime.Object` and of what kind by its own account, its Go type, and
-- its metadata where it has some.
pub record Metadata : Type 0 where
  pub namespace : String
  pub name : String
  pub uid : String

pub record Object : Type 0 where
  pub own_kind : Option String
  pub type : ObjectType
  pub metadata : Option Metadata

-- What a callback is handed: an object, or a tombstone around one.
pub data Handed : Type 0 where
  live tombstone : Object → Handed

abbrev pub kind_of_type : ObjectType → String
kind_of_type type_pod = "Pod"
kind_of_type type_event = "Event"
kind_of_type type_deployment = "Deployment"
kind_of_type type_stateful_set = "StatefulSet"
kind_of_type type_daemon_set = "DaemonSet"
kind_of_type type_job = "Job"
kind_of_type type_other = ""

unfoldable pub object_kind : Object → String
object_kind o = elim o.own_kind [
  | none ↦ kind_of_type o.type
  | some kind ↦ if kind == "" then kind_of_type o.type else kind
]

pub record EventHandler : Type 0 where
  pub namespaces : List String
  pub has_queue : Bool
  pub stopped : Bool

unfoldable pub allowed : List String → List String
allowed [] = []
allowed (n ∷ ns) = let rest = allowed ns in if trim_space n == "" then rest else trim_space n ∷ rest

unfoldable pub new_event_handler : List String → Bool → EventHandler
new_event_handler namespaces has_queue = record {
  namespaces = allowed namespaces;
  has_queue = has_queue;
  stopped = false;
}

unfoldable pub stop : EventHandler → EventHandler
stop h = record h { stopped = true }

abbrev pub watched : EventHandler → String → Bool
watched h namespace = is_empty h.namespaces || contains h.namespaces namespace

abbrev pub key_with : EventHandler → Object → Option Metadata → Option ResourceKey
key_with h o none = none
key_with h o (some m) =
    if m.name == "" || m.uid == ""
    then none
    else if not (watched h m.namespace)
    then none
    else if object_kind o == ""
    then none
    else some (record { kind = object_kind o; namespace = m.namespace; name = m.name; uid = m.uid })

-- The key that `enqueue` adds, if it adds one.
unfoldable pub key_for : EventHandler → Object → Option ResourceKey
key_for h o = if h.stopped || not h.has_queue then none else key_with h o o.metadata

module _ {S : Type 0} (add : ResourceKey → S → S) where
  abbrev pub added : Option ResourceKey → S → S
  added none s = s
  added (some k) s = add k s

  unfoldable pub enqueue : EventHandler → Object → S → S
  enqueue h o s = added (key_for h o) s

  -- `OnAdd` and `OnUpdate`, with the current object.
  unfoldable pub on_change : EventHandler → Object → S → S
  on_change h o s = enqueue h o s

  unfoldable pub on_delete : EventHandler → Handed → S → S
  on_delete h (live o) s = enqueue h o s
  on_delete h (tombstone o) s = enqueue h o s
