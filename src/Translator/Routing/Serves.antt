-- ===== src/Translator/Routing/Serves.antt =====
-- `buildRoutingPolicy` of pkg/managerdriver/translator.go: the policy and the cache grow, and one
-- upstream is served.
use ngrok_operator.Common.{
  ℕ, ◌+◌, String, Bool, true, Option, none, some, List, [], ◌∷◌, string_eq, lookup, if◌then◌else◌,
  ◌≡◌, ◌≢◌, inl, inr, arith, Option-cases, nat_eq,
}
use ngrok_operator.Policy.{TrafficPolicy, Rule, add_rule_on_http_request}
use ngrok_operator.Ir.{IrDestination, IrService, IrUpstream, IrVirtualHost}
use ngrok_operator.Ir.Service.{key}
use ngrok_operator.Names.{is_http, protocol_string_to_ir_scheme, build_internal_endpoint_url}
use ngrok_operator.Translator.Weights.{weight_of}
use ngrok_operator.Translator.Endpoints.{
  Env, AgentEndpoint, build_agent_endpoint, endpoint_url, build_public_url,
}
use ngrok_operator.Translator.Routing.{
  Cache, add_route_rule, add_policies, cached_endpoint, add_upstream, add_endpoint_rule, route_rule,
  add_destinations, with_expressions, weighted_expression,
}
use ngrok_operator.Translator.Routing.Growth.{
  Has, Has-append_self, Keeps, Keeps-trans, Keeps-refl, Keeps-policies, KeepsCache,
  KeepsCache-trans, KeepsCache-refl, Keeps-route_rule, cached_endpoint_keeps,
}

abbrev pub State : Type 0
State = TrafficPolicy × Cache

pub record Grows (s t : State) : Type 0 where
  pub policy : Keeps s.0 t.0
  pub cache : KeepsCache s.1 t.1

pub Grows-refl : (s : State) → Grows s s
Grows-refl s = record { policy = Keeps-refl s.0; cache = KeepsCache-refl s.1 }

pub Grows-trans : {s t u : State} → Grows s t → Grows t u → Grows s u
Grows-trans g h = record {
  policy = Keeps-trans g.policy h.policy;
  cache = KeepsCache-trans g.cache h.cache;
}

pub Grows-policy : (a b : TrafficPolicy) (c : Cache) → Keeps a b → Grows (a, c) (b, c)
Grows-policy a b c k = record { policy = k; cache = KeepsCache-refl c }

Grows-upstream :
    (env : Env) (v : IrVirtualHost) (es : List String) (w : Option String) (u : Option IrUpstream)
    (tp : TrafficPolicy) (c : Cache)
    → Grows (tp, c) (add_upstream env v es w u (tp, c))
unfolding add_upstream
Grows-upstream env v es w none tp c = Grows-refl (tp, c)
Grows-upstream env v es w (some u) tp c = elim (Option-cases (cached_endpoint env v u.service c)) [
  | inl h ↦ rw h (unfold add_endpoint_rule in Grows-refl (tp, c))
  | inr ((e, c'), h) ↦ rw h (
      unfold add_endpoint_rule in
      let g : Grows (tp, c)
          (
            add_route_rule v tp (
                with_expressions es w
                  (route_rule "Generated-Local-Service-Route" "Generated-Route" v u.service e)),
            c',
          ) =
        record {
          policy = Keeps-route_rule v tp _;
          cache = (cached_endpoint_keeps env v u.service c e c' h).1;
        } in
      g)
]

pub Grows-destinations :
    (env : Env) (v : IrVirtualHost) (many : Bool) (es : List String) (lower : ℕ)
    (ds : List IrDestination) (tp : TrafficPolicy) (c : Cache)
    → Grows (tp, c) (add_destinations env v many es lower ds (tp, c))
unfolding add_destinations
Grows-destinations env v many es lower [] tp c = Grows-refl (tp, c)
Grows-destinations env v many es lower (d ∷ ds) tp c =
    let w = weighted_expression many lower d in
    let tp' = add_policies es w d.traffic_policies tp in
    let s = add_upstream env v es w d.upstream (tp', c) in
    Grows-trans (Grows-policy tp tp' c (Keeps-policies es w d.traffic_policies tp)) (
      Grows-trans (Grows-upstream env v es w d.upstream tp' c)
        (Grows-destinations env v many es (if many then lower + weight_of d else lower) ds s.0 s.1))

-- Where the listener speaks HTTP the build of an endpoint cannot fail.
build_agent_endpoint_some :
    (env : Env) (v : IrVirtualHost) (s : IrService)
    → is_http v.listener.protocol ≡ true
    → build_agent_endpoint env v s ≢ none
unfolding build_agent_endpoint endpoint_url build_public_url build_internal_endpoint_url
    protocol_string_to_ir_scheme
build_agent_endpoint_some env v s h = ground arith

cached_endpoint_some :
    (env : Env) (v : IrVirtualHost) (s : IrService) (c : Cache)
    → is_http v.listener.protocol ≡ true
    → cached_endpoint env v s c ≢ none
unfolding cached_endpoint
cached_endpoint_some env v s c h = ground (arith, build_agent_endpoint_some env v s h)

-- A service has an endpoint in the cache, and the rule made for it is in the policy.
pub record Serves (make : AgentEndpoint → Rule) (k : String) (s : State) : Type 0 where
  pub endpoint : AgentEndpoint
  pub cached : lookup k s.1 ≡ some endpoint
  pub routed : Has (make endpoint) s.0.on_http_request

pub Serves-Grows :
    {make : AgentEndpoint → Rule} {k : String} {s t : State}
    → Serves make k s
    → Grows s t
    → Serves make k t
Serves-Grows p g = record {
  endpoint = p.endpoint;
  cached = g.cache.endpoints _ p.endpoint p.cached;
  routed = g.policy.rules _ p.routed;
}

pub Serves-upstream :
    (env : Env) (v : IrVirtualHost) (es : List String) (w : Option String) (u : IrUpstream)
    (tp : TrafficPolicy) (c : Cache)
    → is_http v.listener.protocol ≡ true
    → Serves
        (λ e.
          with_expressions es w
            (route_rule "Generated-Local-Service-Route" "Generated-Route" v u.service e))
        (key u.service)
        (add_upstream env v es w (some u) (tp, c))
unfolding add_upstream add_endpoint_rule add_route_rule add_rule_on_http_request
Serves-upstream env v es w u tp c h = elim (Option-cases (cached_endpoint env v u.service c)) [
  | inl e ↦ absurd (cached_endpoint_some env v u.service c h e)
  | inr ((e, c'), p) ↦
      rw (p, h)
        (record {
          endpoint = e;
          cached = (cached_endpoint_keeps env v u.service c e c' p).0;
          routed = Has-append_self _ tp.on_http_request;
        })
]
