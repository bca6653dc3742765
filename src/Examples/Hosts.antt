-- ===== src/Examples/Hosts.antt =====
-- Virtual hosts: their services and the choice of a service to collapse into.
use ngrok_operator.Common.{
  String, true, Option, none, some, List, [], ◌∷◌, ◌≡◌, ◌≢◌, refl, map, string_eq, nat_eq,
}
use ngrok_operator.Ir.{IrVirtualHost, prefix, endpoints_collapsed}
use ngrok_operator.Ir.Service.{route_keys, default_keys, key}
use ngrok_operator.Translator.Mapping.{
  validate_mapping_strategies, is_collapsed, host_at, service_keys,
}
use ngrok_operator.Translator.Mapping.Users.{users_of}
use ngrok_operator.Translator.Mapping.Laws.{
  forget, validate_mapping_strategies_exclusive, map-forget-validate_mapping_strategies,
}
use ngrok_operator.Translator.Mapping.Complete.{validate_mapping_strategies_complete}
use ngrok_operator.Examples.Data.{shop, blog, host, route, destination}

abbrev hosts : List IrVirtualHost
hosts = shop ∷ (blog ∷ [])

-- The first virtual host has a default destination, the second could collapse into a service.
abbrev with_default : List IrVirtualHost
with_default =
    host "a.test" endpoints_collapsed [] (some (destination "cart" none))
    ∷ (host "b.test" endpoints_collapsed (route prefix "/" (destination "stock" none ∷ []) ∷ [])
          none
        ∷ [])

abbrev choices : List IrVirtualHost → List (Option String)
choices = map (λ (v : IrVirtualHost). v.collapse_into_service_key)

-- Once a default destination has been chosen, later virtual hosts are left as they are.
early_return_test :
    choices (validate_mapping_strategies with_default) ≡ some "cart/shop/cart/80" ∷ (none ∷ [])
unfolding validate_mapping_strategies key
early_return_test = refl

no_default_test :
    choices (validate_mapping_strategies hosts) ≡ some "cart/shop/cart/80" ∷ (none ∷ [])
unfolding validate_mapping_strategies key
no_default_test = refl

-- The collapsed virtual host is at 0, and is the only one that routes to the cart.
validate_mapping_strategies_exclusive_example :
    (users_of "cart/shop/cart/80" 0 hosts ≡ 0 ∷ []) × (is_collapsed endpoints_collapsed ≡ true)
unfolding validate_mapping_strategies host_at key is_collapsed
validate_mapping_strategies_exclusive_example =
    validate_mapping_strategies_exclusive hosts 0
      (record shop { collapse_into_service_key = some "cart/shop/cart/80" }) "cart/shop/cart/80"
      (refl, (refl, tt)) refl refl

map-forget-validate_mapping_strategies_example :
    map forget (validate_mapping_strategies hosts) ≡ map forget hosts
map-forget-validate_mapping_strategies_example = map-forget-validate_mapping_strategies hosts

validate_mapping_strategies_complete_example :
    (v' : IrVirtualHost) × (host_at (validate_mapping_strategies hosts) 0 ≡ some v')
    × (v'.collapse_into_service_key ≢ none)
unfolding host_at is_collapsed service_keys route_keys default_keys key
validate_mapping_strategies_complete_example =
    validate_mapping_strategies_complete hosts 0 shop "cart/shop/cart/80" (refl, (refl, tt)) refl
      refl refl refl
