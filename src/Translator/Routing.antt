-- ===== src/Translator/Routing.antt =====
-- `buildRoutingPolicy` of pkg/managerdriver/translator.go. The cache of agent endpoints is passed
-- along. A policy is a value, so that an append never writes into a shared slice.
pub mod Growth
pub mod Serves
pub mod Reached
pub mod Conditions
pub mod Chosen
use ngrok_operator.Common.{
  ℕ, ◌+◌, String, Bool, true, false, ◌&&◌, ◌||◌, not, Option, none, some, List, [], ◌∷◌, ◌++◌, ◌==◌,
  nat_eq, string_eq, ltb, length, any, lookup, insert, is_some, if◌then◌else◌,
}
use ngrok_operator.Policy.{
  TrafficPolicy, Rule, Action, ActionType, add_headers, remove_headers, url_rewrite,
  new_traffic_policy, add_rule_on_http_request, add_rule_on_http_response, add_rule_on_tcp_connect,
}
use ngrok_operator.Ir.{
  IrProtocol, IrHttpMatch, IrRoute, IrDestination, IrService, IrVirtualHost, IrUpstream,
}
use ngrok_operator.Ir.Service.{key}
use ngrok_operator.Names.{is_http, is_stream}
use ngrok_operator.Translator.Expressions.{
  append_string_unique, ir_match_criteria_to_tp_expressions,
}
use ngrok_operator.Translator.Weights.{
  weight_of, total_weight, random_number, interval_at, weighted_route_expression,
}
use ngrok_operator.Translator.Endpoints.{Env, AgentEndpoint, collapses_into, build_agent_endpoint}
use ngrok_operator.Translator.Rules.{
  build_endpoint_service_route_rule, build_route_locally_var_rule, capture_rule, random_number_rule,
}

abbrev pub Cache : Type 0
Cache = List (String × AgentEndpoint)

abbrev pub not_matched : String
not_matched = "vars.request_matched_local_svc == false"

abbrev pub more_than_one : List IrDestination → Bool
more_than_one ds = ltb 1 (length ds)

-- A virtual host with exactly one route, which has several destinations.
abbrev pub balances : List IrRoute → Bool
balances (r ∷ []) = more_than_one r.destinations
balances _ = false

-- A rule in the phase of the protocol; on a stream only where it balances.
pub add_route_rule : IrVirtualHost → TrafficPolicy → Rule → TrafficPolicy
add_route_rule v tp rule =
    if is_http v.listener.protocol
    then add_rule_on_http_request tp rule
    else if is_stream v.listener.protocol && balances v.routes
    then add_rule_on_tcp_connect tp rule
    else tp

pub initial_policy : IrVirtualHost → TrafficPolicy
unfolding add_route_rule
initial_policy v =
    if is_some v.collapse_into_service_key
    then add_route_rule v new_traffic_policy
        (build_route_locally_var_rule "Initialize-Local-Service-Match" false)
    else new_traffic_policy

abbrev pub has_some {ℓ} : {A : Type ℓ} → List A → Bool
has_some [] = false
has_some (_ ∷ _) = true

action_modifies_request : Option IrHttpMatch → ActionType → Bool
action_modifies_request none type = false
action_modifies_request (some m) add_headers = has_some m.headers
action_modifies_request (some m) remove_headers = has_some m.headers
action_modifies_request (some m) url_rewrite = is_some m.path
action_modifies_request (some m) _ = false

policies_modify_request : Option IrHttpMatch → List TrafficPolicy → Bool
unfolding action_modifies_request
policies_modify_request criteria = any λ (tp : TrafficPolicy).
    any
      (λ (rule : Rule). any (λ (a : Action). action_modifies_request criteria a.type) rule.actions)
      tp.on_http_request

pub route_modifies_request : IrRoute → Bool
unfolding policies_modify_request
route_modifies_request r =
    policies_modify_request r.http_match_criteria r.traffic_policies
    || any (λ (d : IrDestination). policies_modify_request r.http_match_criteria d.traffic_policies)
        r.destinations

-- More expressions for a rule: those of the route, then that of the weight, if there is one.
abbrev pub with_expressions : List String → Option String → Rule → Rule
with_expressions expressions none rule = record rule {
  expressions = append_string_unique rule.expressions expressions;
}
with_expressions expressions (some weighted) rule = record rule {
  expressions =
      append_string_unique (append_string_unique rule.expressions expressions) (weighted ∷ []);
}

pub add_request_rules : List String → Option String → List Rule → TrafficPolicy → TrafficPolicy
add_request_rules expressions weighted [] tp = tp
add_request_rules expressions weighted (rule ∷ rules) tp =
    add_request_rules expressions weighted rules
      (add_rule_on_http_request tp (with_expressions expressions weighted rule))

pub add_response_rules : List String → Option String → List Rule → TrafficPolicy → TrafficPolicy
add_response_rules expressions weighted [] tp = tp
add_response_rules expressions weighted (rule ∷ rules) tp =
    add_response_rules expressions weighted rules
      (add_rule_on_http_response tp (with_expressions expressions weighted rule))

-- The policies of a route or of a destination; their TCP rules are left out.
pub add_policies : List String → Option String → List TrafficPolicy → TrafficPolicy → TrafficPolicy
unfolding add_request_rules add_response_rules
add_policies expressions weighted [] tp = tp
add_policies expressions weighted (p ∷ ps) tp = add_policies expressions weighted ps (
    add_response_rules expressions weighted p.on_http_response
      (add_request_rules expressions weighted p.on_http_request tp))

pub add_random_number :
    IrVirtualHost → List String → List IrDestination → TrafficPolicy → TrafficPolicy
add_random_number v expressions ds tp =
    let rule = random_number_rule (random_number (total_weight ds)) expressions in
    if more_than_one ds
    then (if is_http v.listener.protocol
        then add_rule_on_http_request tp rule
        else if is_stream v.listener.protocol
        then add_rule_on_tcp_connect tp rule
        else tp)
    else tp

-- The agent endpoint of a service, built where the cache has none.
unfoldable pub cached_endpoint :
    Env → IrVirtualHost → IrService → Cache → Option (AgentEndpoint × Cache)
cached_endpoint env v s cache = elim (lookup (key s) cache) [
  | some e ↦ some (e, cache)
  | none ↦ elim (build_agent_endpoint env v s) [
    | none ↦ none
    | some e ↦ some (e, insert (key s) e cache)
  ]
]

-- The rule that sends a request to a service, before its expressions.
pub route_rule : String → String → IrVirtualHost → IrService → AgentEndpoint → Rule
route_rule local remote v s e =
    if collapses_into v s
    then build_route_locally_var_rule local true
    else build_endpoint_service_route_rule remote e.url

-- What follows the lookup or the build of the agent endpoint of a service.
pub add_endpoint_rule :
    IrVirtualHost
    → List String
    → Option String
    → IrService
    → TrafficPolicy × Cache
    → Option (AgentEndpoint × Cache)
    → TrafficPolicy × Cache
add_endpoint_rule v expressions weighted s (tp, cache) none = (tp, cache)
add_endpoint_rule v expressions weighted s (tp, cache) (some (e, cache')) = (
  add_route_rule v tp (
      with_expressions expressions weighted
        (route_rule "Generated-Local-Service-Route" "Generated-Route" v s e)),
  cache',
)

-- The upstream of a destination; a build that fails is logged and skipped.
pub add_upstream :
    Env
    → IrVirtualHost
    → List String
    → Option String
    → Option IrUpstream
    → TrafficPolicy × Cache
    → TrafficPolicy × Cache
add_upstream env v expressions weighted none (tp, cache) = (tp, cache)
add_upstream env v expressions weighted (some u) (tp, cache) =
    add_endpoint_rule v expressions weighted u.service (tp, cache)
      (cached_endpoint env v u.service cache)

-- The expression for the share of a destination, where there are several.
pub weighted_expression : Bool → ℕ → IrDestination → Option String
unfolding weighted_route_expression interval_at
weighted_expression many lower d =
    if many then some (weighted_route_expression (interval_at lower d)) else none

-- The loop over the destinations, from a lower bound.
pub add_destinations :
    Env
    → IrVirtualHost
    → Bool
    → List String
    → ℕ
    → List IrDestination
    → TrafficPolicy × Cache
    → TrafficPolicy × Cache
add_destinations env v many expressions lower [] (tp, cache) = (tp, cache)
add_destinations env v many expressions lower (d ∷ ds) (tp, cache) =
    let weighted = weighted_expression many lower d in
    add_destinations env v many expressions (if many then lower + weight_of d else lower) ds (
      add_upstream env v expressions weighted d.upstream
        (add_policies expressions weighted d.traffic_policies tp, cache))

pub route_expressions : IrVirtualHost → Bool → IrRoute → List String
route_expressions v from_var r =
    let expressions = ir_match_criteria_to_tp_expressions r.http_match_criteria from_var in
    if is_some v.collapse_into_service_key
    then append_string_unique expressions (not_matched ∷ [])
    else expressions

-- A route with no destination and no policy is logged and skipped.
pub add_route : Env → IrVirtualHost → Bool → IrRoute → TrafficPolicy × Cache → TrafficPolicy × Cache
add_route env v from_var r (tp, cache) =
    if not (has_some r.destinations) && not (has_some r.traffic_policies)
    then (tp, cache)
    else let expressions = route_expressions v from_var r in
      add_destinations env v (more_than_one r.destinations) expressions 0 r.destinations (
        add_random_number v expressions r.destinations
            (add_policies expressions none r.traffic_policies tp),
        cache,
      )

pub add_routes :
    Env → IrVirtualHost → Bool → List IrRoute → TrafficPolicy × Cache → TrafficPolicy × Cache
add_routes env v from_var [] s = s
add_routes env v from_var (r ∷ rs) s = add_routes env v from_var rs (add_route env v from_var r s)

unfoldable pub build_routing_policy : Env → IrVirtualHost → Cache → TrafficPolicy × Cache
build_routing_policy env v cache =
    let captures = any route_modifies_request v.routes in
    let tp = initial_policy v in
    add_routes env v captures v.routes
      (if captures then add_rule_on_http_request tp capture_rule else tp, cache)
