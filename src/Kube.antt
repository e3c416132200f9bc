-- ===== src/Kube.antt =====
-- internal/kube: the keys of resources, which informers put into the queue and workers take out of it.
pub mod Fingerprint
pub mod Handler
pub mod Queued
use ruleraven.Common.{String, ◌==◌, Bool, not, ◌||◌, Option, none}
use ruleraven.Common.Int.{pos}
use ruleraven.Domain.{Source}

pub record ResourceKey : Type 0 where
  pub kind : String
  pub namespace : String
  pub name : String
  pub uid : String

-- `Validate`: whether the key has what it needs.
unfoldable pub is_valid : ResourceKey → Bool
is_valid k = not (k.kind == "" || k.name == "" || k.uid == "")

-- The source that a key stands for; what a key does not know is empty.
unfoldable pub source_of : ResourceKey → String → Source
source_of k cluster_id = record {
  cluster_id = cluster_id;
  api_version = "";
  kind = k.kind;
  namespace = k.namespace;
  name = k.name;
  uid = k.uid;
  resource_version = "";
  generation = pos 0;
  owner = none;
}
