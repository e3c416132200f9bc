-- ===== src/Config/Parts.antt =====
-- What the checks of the parts of a configuration guarantee where they pass.
use ruleraven.Common.{
  Option-cases, ◌≡◌, ◌≢◌, refl, ◌⊎◌, inl, inr, String, ◌==◌, Bool, true, false, Option, none, some,
  List, [], ◌∷◌, any, All, contains, arith, Bool-cases, is_empty, lower_is, eq_iff, eq_refl,
}
use mathlib.Core.Path.{subst}
use ruleraven.Common.Int.{pos, ◌≤ℤ◌, ◌<ℤ◌}
use ruleraven.Config.{
  ClusterConfig, ControllerConfig, MongoConfig, DestinationConfig, RetryConfig, HttpConfig, Options,
}
use ruleraven.Config.Validate.{
  Url, administrative_databases, supported_kubernetes_resources, reads_as, resource_errors,
  cluster_errors, controller_errors, variable_errors, require_environment, mongo_errors,
  destination_id_errors, url_errors, retry_errors, is_plain_https, http_errors,
}

-- A variable that the environment has and that is not empty.
abbrev pub InEnvironment : Options → String → Type 0
InEnvironment o name =
    (lookup_env : String → Option String) × (value : String) × (o.lookup_env ≡ some lookup_env)
    × (lookup_env name ≡ some value)
    × (value ≢ "")

-- Supported, and no Secret.
abbrev pub IsWatchable : String → Type 0
IsWatchable r =
    (any (reads_as r) supported_kubernetes_resources ≡ true)
    × (reads_as r "secret" ≡ false)
    × (reads_as r "secrets" ≡ false)

-- A URL over HTTPS to a host that is named, without a user, a query or a fragment.
abbrev pub IsPlainHttps : Option Url → Type 0
IsPlainHttps url =
    (u : Url) × (url ≡ some u)
    × (u.scheme ≡ "https")
    × (u.host ≢ "")
    × (u.has_user ≡ false)
    × (u.raw_query ≡ "")
    × (u.fragment ≡ "")

-- A URL over HTTPS, or over HTTP where that is allowed, to a host that is named.
abbrev pub IsSecure : Option Url → Bool → Type 0
IsSecure url insecure =
    (u : Url) × (url ≡ some u)
    × (u.host == "" ≡ false)
    × ((u.scheme == "https" ≡ true) ⊎ ((u.scheme == "http" ≡ true) × (insecure ≡ true)))

abbrev pub DistinctIds : List DestinationConfig → Type 0
DistinctIds [] = Unit
DistinctIds (d ∷ ds) = All (λ e. d.id == e.id ≡ false) ds × DistinctIds ds

variable_errors_lem :
    (env : Option (String → Option String)) (name : String)
    → variable_errors env name ≡ none
    → (lookup_env : String → Option String) × (value : String) × (env ≡ some lookup_env)
      × (lookup_env name ≡ some value)
      × (value ≢ "")
variable_errors_lem none name h = absurd (grind (arith, h))
variable_errors_lem (some lookup_env) name h = elim (Option-cases (lookup_env name)) [
  | inl e ↦ absurd (ground (arith, h, e))
  | inr (value, e) ↦ (lookup_env, value, refl, e, λ k. ground (arith, h, e, (eq_iff value "").1 k))
]

pub require_environment_lem :
    (name : String) (o : Options) → require_environment name o ≡ none → InEnvironment o name
unfolding require_environment
require_environment_lem name o h = variable_errors_lem o.lookup_env name (ground (arith, h))

pub resource_errors-All :
    (rs seen : List String) → resource_errors rs seen ≡ none → All IsWatchable rs
unfolding resource_errors
resource_errors-All [] seen h = tt
resource_errors-All (r ∷ rs) seen h =
    (ground (arith, h), resource_errors-All rs (r ∷ seen) (ground (arith, h)))

pub url_errors-IsSecure :
    (url : Option Url) (insecure : Bool) → url_errors url insecure ≡ none → IsSecure url insecure
url_errors-IsSecure none insecure h = absurd (grind (arith, h))
url_errors-IsSecure (some u) insecure h = (u, refl, ground (arith, h), ground (arith, h))

fresh_ids :
    (ds : List DestinationConfig) (seen : List String) (id : String)
    → destination_id_errors ds seen ≡ none
    → contains seen id ≡ true
    → All (λ e. id == e.id ≡ false) ds
unfolding destination_id_errors
fresh_ids [] seen id h k = tt
fresh_ids (d ∷ ds) seen id h k = (
  elim (Bool-cases (id == d.id)) [
    | inl e ↦ absurd (clash (subst (λ x. contains seen x ≡ true) ((eq_iff id d.id).0 e) k))
    | inr e ↦ e
  ],
  fresh_ids ds (d.id ∷ seen) id (ground (arith, h)) (ground (arith, k)),
)
  where
    clash : contains seen d.id ≡ true → ⊥
    clash c = ground (arith, h, c)

pub destination_id_errors-DistinctIds :
    (ds : List DestinationConfig) (seen : List String)
    → destination_id_errors ds seen ≡ none
    → DistinctIds ds
unfolding destination_id_errors
destination_id_errors-DistinctIds [] seen h = tt
destination_id_errors-DistinctIds (d ∷ ds) seen h =
    let rest : destination_id_errors ds (d.id ∷ seen) ≡ none = ground (arith, h) in
    (
      fresh_ids ds (d.id ∷ seen) d.id rest (ground (arith, eq_refl d.id)),
      destination_id_errors-DistinctIds ds (d.id ∷ seen) rest,
    )

pub cluster_errors_lem :
    (k : ClusterConfig)
    → cluster_errors k ≡ none
    → (resource_errors k.resources [] ≡ none)
      × (((k.cluster_wide ≡ true) × (k.namespace_only ≡ false))
          ⊎ ((k.cluster_wide ≡ false) × (is_empty k.watch_namespaces ≡ false)))
unfolding cluster_errors
cluster_errors_lem k h = (ground (arith, h), ground (arith, h))

pub mongo_errors_lem :
    (m : MongoConfig) (o : Options)
    → mongo_errors m o ≡ none
    → (any (lower_is m.database) administrative_databases ≡ false)
      × (require_environment m.uri_env o ≡ none)
      × (pos 0 <ℤ m.timeout)
unfolding mongo_errors
mongo_errors_lem m o h = (ground (arith, h), ground (arith, h), ground (arith, h))

pub retry_errors_lem :
    (r : RetryConfig)
    → retry_errors r ≡ none
    → (pos 0 <ℤ r.max_attempts)
      × (pos 0 <ℤ r.initial_backoff)
      × (r.initial_backoff ≤ℤ r.max_backoff)
unfolding retry_errors
retry_errors_lem r h = (ground (arith, h), ground (arith, h), ground (arith, h))

pub http_errors_lem :
    (k : HttpConfig)
    → http_errors k ≡ none
    → (pos 0 <ℤ k.read_timeout) × (pos 0 <ℤ k.write_timeout) × (pos 0 <ℤ k.idle_timeout)
unfolding http_errors
http_errors_lem k h = (ground (arith, h), ground (arith, h), ground (arith, h))

pub controller_errors_lem :
    (k : ControllerConfig)
    → controller_errors k ≡ none
    → (pos 0 <ℤ k.workers)
      × (pos 0 <ℤ k.reconcile_timeout)
      × (pos 0 <ℤ k.max_normalized_state_bytes)
unfolding controller_errors
controller_errors_lem k h = (ground (arith, h), ground (arith, h), ground (arith, h))

pub is_plain_https-IsPlainHttps : (url : Option Url) → is_plain_https url ≡ true → IsPlainHttps url
is_plain_https-IsPlainHttps none h = absurd (grind (arith, h))
is_plain_https-IsPlainHttps (some u) h = (
  u,
  refl,
  ground (arith, h, eq_iff u.scheme "https"),
  λ e. ground (arith, h, (eq_iff u.host "").1 e),
  ground (arith, h),
  ground (arith, h, eq_iff u.raw_query ""),
  ground (arith, h, eq_iff u.fragment ""),
)
