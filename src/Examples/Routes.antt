-- ===== src/Examples/Routes.antt =====
-- The order of routes and the policy that routes to services.
use ngrok_operator.Common.{none, some, [], ◌∷◌, ◌≡◌, refl, any, lookup, string_eq}
use ngrok_operator.Ir.{IrVirtualHost}
use ngrok_operator.Ir.Service.{key}
use ngrok_operator.Ir.Order.{sort_routes}
use ngrok_operator.Ir.Order.Laws.{IsSortOf, sort_routes-IsSortOf}
use ngrok_operator.Translator.Endpoints.{AgentEndpoint}
use ngrok_operator.Translator.Routing.{build_routing_policy, route_modifies_request, more_than_one}
use ngrok_operator.Translator.Routing.Growth.{Has}
use ngrok_operator.Translator.Routing.Reached.{
  destination_rule, lower_bound, build_routing_policy_reaches,
}
use ngrok_operator.Examples.Data.{env, shop, wide, narrow, destination, upstream, service}

-- The exact path goes before the shorter prefix.
sort_routes_test : sort_routes shop ≡ some (record shop { routes = narrow ∷ (wide ∷ []) })
unfolding sort_routes
sort_routes_test = refl

sort_routes-IsSortOf_example :
    (h' : IrVirtualHost) × (sort_routes shop ≡ some h') × IsSortOf shop h'
sort_routes-IsSortOf_example = sort_routes-IsSortOf shop ((λ e p. cc), ((λ e p. cc), tt))

-- The second destination of the first route.
build_routing_policy_reaches_example :
    (e : AgentEndpoint) × (lookup (key (service "stock")) (build_routing_policy env shop []).1
      ≡ some e)
    × Has
        (destination_rule shop
          (any route_modifies_request shop.routes)
          wide
          (lower_bound (more_than_one wide.destinations) 0 (destination "cart" (some 3) ∷ []))
          (destination "stock" none)
          (service "stock")
          e)
        (build_routing_policy env shop []).0.on_http_request
build_routing_policy_reaches_example =
    build_routing_policy_reaches env shop [] [] wide (narrow ∷ [])
      (destination "cart" (some 3) ∷ []) (destination "stock" none) [] (upstream "stock") refl refl
      refl refl
