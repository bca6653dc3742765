-- ===== src/Translator/Ingresses.antt =====
-- pkg/managerdriver/translate_ingresses.go: from Ingress resources to virtual hosts. An upstream and
-- a virtual host are shared through caches: the destinations made so far hold the upstream as it was,
-- and the last step gives each the upstream of the cache, as pointers do.
pub mod ServicePorts
pub mod Backends
pub mod Merge
pub mod Resources
pub mod Hosts
pub mod Refresh
pub mod Laws
pub mod Owned
pub mod Owners
use ngrok_operator.Common.{
  ℕ, String, Bool, true, false, ◌&&◌, Option, none, some, List, [], ◌∷◌, ◌++◌, ◌==◌, string_eq,
  lookup, map, first_of, insert, if◌then◌else◌, option_eq, option_beq,
}
use ngrok_operator.Policy.{TrafficPolicy}
use ngrok_operator.Ir.{
  OwningResource, https, IrMappingStrategy, IrPathMatchType, IrUpstream, IrDestination, IrRoute,
  IrVirtualHost,
}
use ngrok_operator.Ir.Service.{key, add_owning_resource, owning_resource_eq}
use ngrok_operator.Translator.Ingresses.Backends.{IngressBackend, Upstreams, ingress_backend_to_ir}
use ngrok_operator.Translator.Ingresses.ServicePorts.{Store, path_type_to_ir}
use ngrok_operator.Translator.Ingresses.Merge.{Json, merge_metadata}
use ngrok_operator.Translator.Ingresses.Resources.{
  IngressPath, IngressRule, NameAnnotation, missing, invalid, named, Ingress, Translator, Reading,
  HostCache, owner,
}
use ngrok_operator.Translator.Ingresses.Hosts.{rule_host}
use ngrok_operator.Translator.Ingresses.Refresh.{refresh_hosts}

path_route : IngressPath → IrDestination → IrRoute
unfolding path_type_to_ir
path_route p d = record {
  http_match_criteria = some (record {
    path = some p.path;
    path_type = some (path_type_to_ir p.path_type);
    headers = [];
    query_params = [];
    method = none;
  });
  traffic_policies = [];
  destinations = d ∷ [];
}

-- A path whose backend does not resolve is left out.
pub ingress_paths_to_ir :
    Store → OwningResource → List IngressPath → Upstreams → List IrRoute × Upstreams
unfolding path_route ingress_backend_to_ir
ingress_paths_to_ir store o [] cache = ([], cache)
ingress_paths_to_ir store o (p ∷ ps) cache = elim (ingress_backend_to_ir store o p.backend cache) [
  | none ↦ ingress_paths_to_ir store o ps cache
  | some (d, cache) ↦
      let rest = ingress_paths_to_ir store o ps cache in (path_route p d ∷ rest.0, rest.1)
]

abbrev pub add_routes : IrVirtualHost → List IrRoute → IrVirtualHost
add_routes v routes = record v { routes = v.routes ++ routes }

pub with_paths :
    Store
    → OwningResource
    → String
    → IrVirtualHost
    → Option (List IngressPath)
    → HostCache
    → Upstreams
    → HostCache × Upstreams
unfolding ingress_paths_to_ir
with_paths store o host v none hosts cache = (insert host v hosts, cache)
with_paths store o host v (some paths) hosts cache =
    let routes = ingress_paths_to_ir store o paths cache in
    (insert host (add_routes v routes.0) hosts, routes.1)

pub with_host :
    Store
    → OwningResource
    → IngressRule
    → Option IrVirtualHost
    → HostCache
    → Upstreams
    → HostCache × Upstreams
unfolding with_paths
with_host store o rule none hosts cache = (hosts, cache)
with_host store o rule (some v) hosts cache = with_paths store o rule.host v rule.http hosts cache

-- One turn of the loop over the rules.
pub rule_to_ir :
    Translator → Ingress → Reading → IngressRule → HostCache → Upstreams → HostCache × Upstreams
unfolding with_host rule_host owner
rule_to_ir t i r rule hosts cache =
    if rule.host == ""
    then (hosts, cache)
    else with_host t.store (owner i) rule (rule_host t i r rule.host (lookup rule.host hosts)) hosts
        cache

pub ingress_to_ir :
    Translator
    → Ingress
    → Reading
    → List IngressRule
    → HostCache
    → Upstreams
    → HostCache × Upstreams
unfolding rule_to_ir
ingress_to_ir t i r [] hosts cache = (hosts, cache)
ingress_to_ir t i r (rule ∷ rules) hosts cache =
    let next = rule_to_ir t i r rule hosts cache in ingress_to_ir t i r rules next.0 next.1

-- The policy that the annotation names, with a reference to it; none is an error.
pub named_policy :
    String → String → Option TrafficPolicy → Option (Option (TrafficPolicy × OwningResource))
named_policy name namespace none = none
named_policy name namespace (some tp) =
    some (some (tp, record { kind = "NgrokTrafficPolicy"; name = name; namespace = namespace }))

pub traffic_policy_from_annotation :
    Store → NameAnnotation → String → Option (Option (TrafficPolicy × OwningResource))
unfolding named_policy
traffic_policy_from_annotation store missing namespace = some none
traffic_policy_from_annotation store invalid namespace = none
traffic_policy_from_annotation store (named name) namespace =
    named_policy name namespace (store.get_traffic_policy name namespace)

some_default : Option (IrDestination × Upstreams) → Option (Option IrDestination × Upstreams)
some_default none = none
some_default (some (d, cache)) = some (some d, cache)

pub default_of :
    Store
    → OwningResource
    → Option IngressBackend
    → Upstreams
    → Option (Option IrDestination × Upstreams)
unfolding some_default ingress_backend_to_ir
default_of store o none cache = some (none, cache)
default_of store o (some b) cache = some_default (ingress_backend_to_ir store o b cache)

-- What follows once the policy and the default backend are read: bindings may still fail, after the
-- upstream of the default backend is in the cache.
pub with_bindings :
    Translator
    → Ingress
    → Option (TrafficPolicy × OwningResource)
    → Option IrDestination
    → Option (List String)
    → HostCache
    → Upstreams
    → HostCache × Upstreams
unfolding ingress_to_ir
with_bindings t i policy d none hosts cache = (hosts, cache)
with_bindings t i policy d (some bindings) hosts cache =
    ingress_to_ir t i (record { default_destination = d; policy = policy; bindings = bindings })
      i.rules hosts cache

pub with_default :
    Translator
    → Ingress
    → Option (TrafficPolicy × OwningResource)
    → Option (Option IrDestination × Upstreams)
    → HostCache
    → Upstreams
    → HostCache × Upstreams
unfolding with_bindings
with_default t i policy none hosts cache = (hosts, cache)
with_default t i policy (some (d, next)) hosts cache =
    with_bindings t i policy d i.bindings hosts next

pub with_policy :
    Translator
    → Ingress
    → Option (Option (TrafficPolicy × OwningResource))
    → HostCache
    → Upstreams
    → HostCache × Upstreams
unfolding with_default default_of owner
with_policy t i none hosts cache = (hosts, cache)
with_policy t i (some policy) hosts cache =
    with_default t i policy (default_of t.store (owner i) i.default_backend cache) hosts cache

-- One turn of the loop over the ingresses.
pub read_ingress : Translator → Ingress → HostCache → Upstreams → HostCache × Upstreams
unfolding with_policy traffic_policy_from_annotation
read_ingress t i hosts cache =
    with_policy t i (traffic_policy_from_annotation t.store i.traffic_policy i.namespace) hosts
      cache

pub read_ingresses : Translator → List Ingress → HostCache → Upstreams → HostCache × Upstreams
unfolding read_ingress
read_ingresses t [] hosts cache = (hosts, cache)
read_ingresses t (i ∷ is) hosts cache =
    let next = read_ingress t i hosts cache in read_ingresses t is next.0 next.1

-- The virtual hosts of the ingresses that the store lists, in the order of their first rule; the
-- code returns them in the order of a Go map, which is any.
unfoldable pub ingresses_to_ir : Translator → List Ingress → List IrVirtualHost
unfolding read_ingresses refresh_hosts
ingresses_to_ir t is = let all = read_ingresses t is [] [] in refresh_hosts all.1 all.0
