-- ===== src/Translator/Assemble.antt =====
-- `buildDefaultDestinationPolicy` and `IRToEndpoints` of pkg/managerdriver/translator.go. JSON
-- encoding of a policy does not fail and is left out: the endpoint has the policy itself. Two
-- virtual hosts are assumed to share no policy object.
pub mod Published
use ngrok_operator.Common.{
  String, Bool, true, ◌&&◌, not, Option, none, some, List, [], ◌∷◌, ◌==◌, string_eq, lookup, insert,
  is_some, if◌then◌else◌, Eq, ◌≡◌, ◌↔◌, arith, eq_iff,
}
use ngrok_operator.Policy.{
  TrafficPolicy, Rule, new_traffic_policy, add_rule_on_http_request, merge, is_empty,
}
use ngrok_operator.Ir.{IrDestination, IrUpstream, IrVirtualHost, IrTlsTermination}
use ngrok_operator.Names.{is_http}
use ngrok_operator.Translator.Mapping.{validate_mapping_strategies}
use ngrok_operator.Translator.Expressions.{append_string_unique}
use ngrok_operator.Translator.Endpoints.{Env, AgentEndpoint, CloudEndpoint, build_cloud_endpoint}
use ngrok_operator.Translator.Rules.{build_default_404_tp_rule, tls_rule}
use ngrok_operator.Translator.Routing.{
  Cache, has_some, not_matched, cached_endpoint, route_rule, build_routing_policy,
}

pub record NamespacedName : Type 0 where
  pub namespace : String
  pub name : String

unfoldable pub namespaced_name_beq : NamespacedName → NamespacedName → Bool
namespaced_name_beq a b = a.namespace == b.namespace && a.name == b.name

pub namespaced_name_beq_iff : (a b : NamespacedName) → (namespaced_name_beq a b ≡ true) ↔ (a ≡ b)
unfolding namespaced_name_beq
namespaced_name_beq_iff a b = ground (arith, eq_iff a.namespace b.namespace, eq_iff a.name b.name)

instance abbrev pub namespaced_name_eq : Eq NamespacedName
namespaced_name_eq = record { equal = namespaced_name_beq; equal_iff = namespaced_name_beq_iff }

-- Where the virtual host collapses, a rule for what no earlier rule sent to the local service.
unless_matched : IrVirtualHost → Rule → Rule
unless_matched v rule =
    if is_some v.collapse_into_service_key
    then record rule { expressions = append_string_unique rule.expressions (not_matched ∷ []) }
    else rule

-- The loop over the policies of the default destination. The two inner loops set the expressions
-- of copies of the rules, and the copies are dropped: the policies are merged as they are.
pub merge_all : TrafficPolicy → List TrafficPolicy → TrafficPolicy
merge_all tp [] = tp
merge_all tp (p ∷ ps) = merge_all (merge tp (some p)) ps

pub add_default_rule :
    IrVirtualHost
    → IrUpstream
    → TrafficPolicy
    → Option (AgentEndpoint × Cache)
    → Option (TrafficPolicy × Cache)
add_default_rule v u tp none = none
add_default_rule v u tp (some (e, cache')) = some (
  add_rule_on_http_request tp (
      unless_matched v (
        route_rule "Generated-Route-Default-Backend" "Generated-Route-Default-Backend" v u.service
          e)),
  cache',
)

pub add_default_upstream :
    Env → IrVirtualHost → Option IrUpstream → TrafficPolicy → Cache → Option (TrafficPolicy × Cache)
add_default_upstream env v none tp cache = some (tp, cache)
add_default_upstream env v (some u) tp cache =
    add_default_rule v u tp (cached_endpoint env v u.service cache)

unfoldable pub default_destination_policy :
    Env → IrVirtualHost → Option IrDestination → Cache → Option (TrafficPolicy × Cache)
default_destination_policy env v none cache = some (new_traffic_policy, cache)
default_destination_policy env v (some d) cache =
    add_default_upstream env v d.upstream (merge_all new_traffic_policy d.traffic_policies) cache

unfoldable pub build_default_destination_policy :
    Env → IrVirtualHost → Cache → Option (TrafficPolicy × Cache)
build_default_destination_policy env v cache =
    default_destination_policy env v v.default_destination cache

-- The policy of the user, or a new one, with the TLS termination in front.
abbrev pub or_new : Option TrafficPolicy → TrafficPolicy
or_new none = new_traffic_policy
or_new (some tp) = tp

pub terminate : Option IrTlsTermination → TrafficPolicy → TrafficPolicy
terminate none tp = tp
terminate (some t) tp = record tp { on_tcp_connect = tls_rule t ∷ tp.on_tcp_connect }

pub add_fallback : IrVirtualHost → TrafficPolicy → TrafficPolicy
add_fallback v tp =
    if is_http v.listener.protocol
    then add_rule_on_http_request tp (unless_matched v build_default_404_tp_rule)
    else tp

abbrev pub Clouds : Type 0
Clouds = List (NamespacedName × CloudEndpoint)

-- The policy of a collapsed virtual host goes to its agent endpoint, if it is not empty and the
-- endpoint was built.
pub attach_policy : String → TrafficPolicy → Cache → Cache
attach_policy k tp cache = elim (lookup k cache) [
  | none ↦ cache
  | some e ↦
      if not (is_empty tp) then insert k (record e { traffic_policy = some tp }) cache else cache
]

abbrev pub cloud_key : CloudEndpoint → NamespacedName
cloud_key c = record { namespace = c.namespace; name = c.name }

-- The cloud endpoint of a virtual host that does not collapse.
pub add_cloud : Option CloudEndpoint → TrafficPolicy → Clouds → Clouds
add_cloud none tp clouds = clouds
add_cloud (some c) tp clouds =
    insert (cloud_key c)
      (record c { traffic_policy_inline = some tp; traffic_policy_policy = some tp }) clouds

-- Where the policy goes: to the agent endpoint of the service, or to a cloud endpoint.
pub publish_to :
    Env → IrVirtualHost → TrafficPolicy → Option String → Cache × Clouds → Cache × Clouds
publish_to env v tp (some k) (cache, clouds) = (attach_policy k tp cache, clouds)
publish_to env v tp none (cache, clouds) = (cache, add_cloud (build_cloud_endpoint env v) tp clouds)

pub publish : Env → IrVirtualHost → TrafficPolicy → Cache × Clouds → Cache × Clouds
publish env v tp s = publish_to env v tp v.collapse_into_service_key s

-- What follows the default destination; an error there is logged, and the virtual host skipped.
pub finish_host :
    Env
    → IrVirtualHost
    → TrafficPolicy
    → Cache
    → Clouds
    → Option (TrafficPolicy × Cache)
    → Cache × Clouds
finish_host env v tp cache clouds none = (cache, clouds)
finish_host env v tp cache clouds (some (default, cache')) =
    publish env v (add_fallback v (merge tp (some default))) (cache', clouds)

-- The body of the loop over the virtual hosts.
pub translate_host : Env → IrVirtualHost → Cache × Clouds → Cache × Clouds
translate_host env v (cache, clouds) =
    if not (is_some v.traffic_policy) && not (has_some v.routes)
    then (cache, clouds)
    else let base = terminate v.tls_termination (or_new v.traffic_policy) in
      let (routing, cache') = build_routing_policy env v cache in
      finish_host env v (merge base (some routing)) cache' clouds
        (build_default_destination_policy env v cache')

pub translate_hosts : Env → List IrVirtualHost → Cache × Clouds → Cache × Clouds
translate_hosts env [] s = s
translate_hosts env (v ∷ vs) s = translate_hosts env vs (translate_host env v s)

abbrev Agents : Type 0
Agents = List (NamespacedName × AgentEndpoint)

abbrev agent_key : AgentEndpoint → NamespacedName
agent_key e = record { namespace = e.namespace; name = e.name }

-- The agent endpoints by their names.
index_agents : Cache → Agents → Agents
index_agents [] agents = agents
index_agents ((_, e) ∷ cache) agents = index_agents cache (insert (agent_key e) e agents)

pub ir_to_endpoints : Env → List IrVirtualHost → Clouds × Agents
ir_to_endpoints env vs =
    let (cache, clouds) = translate_hosts env (validate_mapping_strategies vs) ([], []) in
    (clouds, index_agents cache [])
