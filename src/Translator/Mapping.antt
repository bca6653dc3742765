-- ===== src/Translator/Mapping.antt =====
-- `validateMappingStrategies`: which virtual hosts collapse into one public AgentEndpoint. The Go
-- map from services to virtual hosts is keyed by pointers; a pointer is a position in the list.
pub mod Users
pub mod Laws
pub mod Complete
use ngrok_operator.Common.{
  ℕ, suc, ◌+◌, String, Bool, true, false, ◌&&◌, Option, none, some, List, [], ◌∷◌, ◌++◌, map, ◌==◌,
  nat_eq, string_eq, lookup, insert, length, contains, any, if◌then◌else◌,
}
use ngrok_operator.Ir.{
  IrDestination, IrVirtualHost, IrMappingStrategy, endpoints_collapsed, endpoints_verbose, edges,
}
use ngrok_operator.Ir.Service.{route_keys, default_keys, unique_service_count}

-- The virtual hosts that route to each service.
abbrev pub Users : Type 0
Users = List (String × List ℕ)

pub users_at : Users → String → List ℕ
unfolding lookup
users_at m k = elim (lookup k m) [ none ↦ [] | some s ↦ s ]

-- `set[vhost] = true`
abbrev pub add_user : ℕ → List ℕ → List ℕ
add_user i s = if contains s i then s else s ++ (i ∷ [])

-- One destination of virtual host i.
pub add_service : Users → ℕ → String → Users
unfolding users_at insert
add_service m i k = insert k (add_user i (users_at m k)) m

pub add_services : Users → ℕ → List String → Users
unfolding add_service
add_services m i [] = m
add_services m i (k ∷ ks) = add_services (add_service m i k) i ks

-- The services of a virtual host: those of its routes, then that of its default destination.
unfoldable pub service_keys : IrVirtualHost → List String
unfolding route_keys default_keys
service_keys v = route_keys v.routes ++ default_keys v.default_destination

-- The first loop.
pub collect_users : Users → ℕ → List IrVirtualHost → Users
unfolding add_services service_keys
collect_users m i [] = m
collect_users m i (v ∷ vs) = collect_users (add_services m i (service_keys v)) (i + 1) vs

abbrev pub is_collapsed : IrMappingStrategy → Bool
is_collapsed endpoints_collapsed = true
is_collapsed endpoints_verbose = false
is_collapsed edges = false

unfoldable pub host_at : List IrVirtualHost → ℕ → Option IrVirtualHost
host_at [] i = none
host_at (v ∷ vs) ℕ.zero = some v
host_at (v ∷ vs) (ℕ.suc i) = host_at vs i

abbrev pub collapsed_at : Option IrVirtualHost → Bool
collapsed_at none = false
collapsed_at (some v) = is_collapsed v.mapping_strategy

-- The body of the second loop, for the virtual hosts of one service.
pub is_collapsable : List IrVirtualHost → List ℕ → Bool
unfolding host_at
is_collapsable vs set = any (λ i. length set == 1 && collapsed_at (host_at vs i)) set

pub keys : Users → List String
keys [] = []
keys ((k, _) ∷ m) = k ∷ keys m

-- The second loop, over the keys of the map.
pub mark_collapsable :
    List IrVirtualHost → Users → List String → List (String × Bool) → List (String × Bool)
unfolding is_collapsable users_at insert
mark_collapsable vs users [] m = m
mark_collapsable vs users (k ∷ ks) m =
    mark_collapsable vs users ks
      (if is_collapsable vs (users_at users k) then insert k true m else m)

-- `collapsable, exists := collapsableServices[key]; exists && collapsable`
abbrev pub is_marked : List (String × Bool) → String → Bool
is_marked m k = elim (lookup k m) [ none ↦ false | some b ↦ b ]

-- The routes of one virtual host: the last service that can be collapsed into wins.
pub collapse_routes : List (String × Bool) → List String → Option String → Option String
collapse_routes m [] chosen = chosen
collapse_routes m (k ∷ ks) chosen = collapse_routes m ks (if is_marked m k then some k else chosen)

-- The default destination has one service at most. A service that can be collapsed into is chosen,
-- and the function returns.
pub collapse_default : List (String × Bool) → List String → Option String → Option String × Bool
collapse_default m [] chosen = (chosen, false)
collapse_default m (k ∷ _) chosen = if is_marked m k then (some k, true) else (chosen, false)

-- The body of the third loop: the virtual host, and whether the function returns.
pub collapse_host : List (String × Bool) → IrVirtualHost → IrVirtualHost × Bool
unfolding collapse_routes collapse_default route_keys default_keys unique_service_count lookup
collapse_host m v =
    if is_collapsed v.mapping_strategy
    then (if unique_service_count v == 0
        then (v, false)
        else (let chosen = collapse_routes m (route_keys v.routes) v.collapse_into_service_key in
            let (chosen', stop) = collapse_default m (default_keys v.default_destination) chosen in
            (record v { collapse_into_service_key = chosen' }, stop)))
    else (v, false)

pub collapse_hosts : List (String × Bool) → List IrVirtualHost → List IrVirtualHost
unfolding collapse_host
collapse_hosts m [] = []
collapse_hosts m (v ∷ vs) =
    let (v', stop) = collapse_host m v in v' ∷ (if stop then vs else collapse_hosts m vs)

pub collapsable_services : List IrVirtualHost → List (String × Bool)
unfolding collect_users mark_collapsable keys
collapsable_services vs =
    let users = collect_users [] 0 vs in mark_collapsable vs users (keys users) []

unfoldable pub validate_mapping_strategies : List IrVirtualHost → List IrVirtualHost
unfolding collapsable_services collapse_hosts
validate_mapping_strategies vs = collapse_hosts (collapsable_services vs) vs
