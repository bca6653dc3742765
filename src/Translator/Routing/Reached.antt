-- ===== src/Translator/Routing/Reached.antt =====
-- `buildRoutingPolicy`: the rule of a destination and the agent endpoint of its service.
use ngrok_operator.Common.{
  ℕ, ◌+◌, String, Bool, true, ◌&&◌, not, none, some, List, [], ◌∷◌, ◌++◌, string_eq, lookup,
  if◌then◌else◌, ◌≡◌, refl, sym, subst, inl, inr, Bool-cases, any, nat_eq,
}
use ngrok_operator.Policy.{TrafficPolicy, Rule, add_rule_on_http_request}
use ngrok_operator.Ir.{IrDestination, IrRoute, IrService, IrUpstream, IrVirtualHost}
use ngrok_operator.Ir.Service.{key}
use ngrok_operator.Names.{is_http}
use ngrok_operator.Translator.Weights.{weight_of}
use ngrok_operator.Translator.Endpoints.{Env, AgentEndpoint}
use ngrok_operator.Translator.Routing.{
  Cache, add_policies, add_random_number, add_upstream, route_rule, add_destinations, add_route,
  add_routes, with_expressions, weighted_expression, route_expressions, more_than_one,
  route_modifies_request, build_routing_policy, has_some, initial_policy,
}
use ngrok_operator.Translator.Rules.{capture_rule}
use ngrok_operator.Translator.Routing.Growth.{Has, Keeps-trans, Keeps-policies, Keeps-random_number}
use ngrok_operator.Translator.Routing.Serves.{
  State, Grows-refl, Grows-trans, Grows-policy, Grows-destinations, Serves-Grows, Serves-upstream,
  Grows, Serves,
}

-- The rule of a destination that begins at a lower bound.
abbrev pub destination_rule :
    IrVirtualHost → Bool → IrRoute → ℕ → IrDestination → IrService → AgentEndpoint → Rule
destination_rule v from_var r lower d s e =
    with_expressions (route_expressions v from_var r)
      (weighted_expression (more_than_one r.destinations) lower d)
      (route_rule "Generated-Local-Service-Route" "Generated-Route" v s e)

has_some-middle :
    (front : List IrDestination) (d : IrDestination) (back : List IrDestination)
    → has_some (front ++ (d ∷ back)) ≡ true
has_some-middle [] d back = refl
has_some-middle (f ∷ front) d back = refl

-- Where the interval of a destination begins, behind the destinations `front`.
abbrev pub lower_bound : Bool → ℕ → List IrDestination → ℕ
lower_bound many lower [] = lower
lower_bound many lower (d ∷ ds) = lower_bound many (if many then lower + weight_of d else lower) ds

module _ (env : Env) (v : IrVirtualHost) (h : is_http v.listener.protocol ≡ true) where
  abbrev rule_for : Bool → List String → ℕ → IrDestination → IrUpstream → AgentEndpoint → Rule
  rule_for many es lower d u e =
      with_expressions es (weighted_expression many lower d)
        (route_rule "Generated-Local-Service-Route" "Generated-Route" v u.service e)

  Serves-destinations :
      (many : Bool) (es : List String) (front : List IrDestination) (lower : ℕ) (d : IrDestination)
      (back : List IrDestination) (u : IrUpstream) (tp : TrafficPolicy) (c : Cache)
      → d.upstream ≡ some u
      → Serves
          (rule_for many es (lower_bound many lower front) d u)
          (key u.service)
          (add_destinations env v many es lower (front ++ (d ∷ back)) (tp, c))
  unfolding add_destinations
  Serves-destinations many es [] lower d back u tp c e =
      let w = weighted_expression many lower d in
      let tp' = add_policies es w d.traffic_policies tp in
      let s = add_upstream env v es w d.upstream (tp', c) in
      Serves-Grows (simp e (Serves-upstream env v es w u tp' c h)) (
        Grows-destinations env v many es (if many then lower + weight_of d else lower) back s.0 s.1)
  Serves-destinations many es (f ∷ front) lower d back u tp c e =
      let w = weighted_expression many lower f in
      let s = add_upstream env v es w f.upstream (add_policies es w f.traffic_policies tp, c) in
      Serves-destinations many es front (if many then lower + weight_of f else lower) d back u s.0
        s.1 e

  abbrev used_route : Bool → IrRoute → TrafficPolicy → TrafficPolicy
  used_route from_var r tp =
      let es = route_expressions v from_var r in
      add_random_number v es r.destinations (add_policies es none r.traffic_policies tp)

  Grows-used :
      (from_var : Bool) (r : IrRoute) (tp : TrafficPolicy) (c : Cache)
      → Grows
          (tp, c)
          (add_destinations env v
            (more_than_one r.destinations)
            (route_expressions v from_var r)
            0
            r.destinations
            (used_route from_var r tp, c))
  Grows-used from_var r tp c =
      let es = route_expressions v from_var r in
      let keeps =
        Keeps-trans (Keeps-policies es none r.traffic_policies tp)
          (Keeps-random_number v es r.destinations (add_policies es none r.traffic_policies tp)) in
      Grows-trans (Grows-policy tp (used_route from_var r tp) c keeps) (
        Grows-destinations env v (more_than_one r.destinations) es 0 r.destinations
          (used_route from_var r tp) c)

  Grows-route :
      (from_var : Bool) (r : IrRoute) (tp : TrafficPolicy) (c : Cache)
      → Grows (tp, c) (add_route env v from_var r (tp, c))
  unfolding add_route
  Grows-route from_var r tp c =
      elim (Bool-cases (not (has_some r.destinations) && not (has_some r.traffic_policies))) [
        | inl skip ↦ rw skip (Grows-refl (tp, c))
        | inr used ↦ rw used (Grows-used from_var r tp c)
      ]

  Grows-routes :
      (from_var : Bool) (rs : List IrRoute) (s : State) → Grows s (add_routes env v from_var rs s)
  unfolding add_routes
  Grows-routes from_var [] s = Grows-refl s
  Grows-routes from_var (r ∷ rs) s =
      Grows-trans (Grows-route from_var r s.0 s.1)
        (Grows-routes from_var rs (add_route env v from_var r s))

  Serves-route :
      (from_var : Bool) (r : IrRoute) (front : List IrDestination) (d : IrDestination)
      (back : List IrDestination) (u : IrUpstream) (tp : TrafficPolicy) (c : Cache)
      → r.destinations ≡ front ++ (d ∷ back)
      → d.upstream ≡ some u
      → Serves
          (destination_rule v from_var r
            (lower_bound (more_than_one r.destinations) 0 front)
            d
            u.service)
          (key u.service)
          (add_route env v from_var r (tp, c))
  unfolding add_route
  Serves-route from_var r front d back u tp c e up =
      let some_destination : has_some r.destinations ≡ true = rw e (has_some-middle front d back) in
      rw some_destination (
        subst
          (λ ds.
            Serves
              (destination_rule v from_var r (lower_bound (more_than_one r.destinations) 0 front) d
                u.service)
              (key u.service)
              (add_destinations env v (more_than_one r.destinations)
                (route_expressions v from_var r) 0 ds (used_route from_var r tp, c)))
          (sym e)
          (Serves-destinations (more_than_one r.destinations) (route_expressions v from_var r) front
            0 d back u (used_route from_var r tp) c up))

  Serves-routes :
      (from_var : Bool) (before : List IrRoute) (r : IrRoute) (after : List IrRoute)
      (front : List IrDestination) (d : IrDestination) (back : List IrDestination) (u : IrUpstream)
      (s : State)
      → r.destinations ≡ front ++ (d ∷ back)
      → d.upstream ≡ some u
      → Serves
          (destination_rule v from_var r
            (lower_bound (more_than_one r.destinations) 0 front)
            d
            u.service)
          (key u.service)
          (add_routes env v from_var (before ++ (r ∷ after)) s)
  unfolding add_routes
  Serves-routes from_var [] r after front d back u s e up =
      Serves-Grows (Serves-route from_var r front d back u s.0 s.1 e up)
        (Grows-routes from_var after (add_route env v from_var r s))
  Serves-routes from_var (b ∷ before) r after front d back u s e up =
      Serves-routes from_var before r after front d back u (add_route env v from_var b s) e up

-- For a virtual host that speaks HTTP or HTTPS, and any destination of any of its routes that has
-- an upstream: the cache has an agent endpoint under the key of the upstream's service, and the
-- policy has a rule for HTTP requests that sends to it (or marks the request as local, where the
-- virtual host collapses into the service), with the expressions of the route and the interval of
-- the destination.
pub build_routing_policy_reaches :
    (env : Env) (v : IrVirtualHost) (cache : Cache) (before : List IrRoute) (r : IrRoute)
    (after : List IrRoute) (front : List IrDestination) (d : IrDestination)
    (back : List IrDestination) (u : IrUpstream)
    → is_http v.listener.protocol ≡ true
    → v.routes ≡ before ++ (r ∷ after)
    → r.destinations ≡ front ++ (d ∷ back)
    → d.upstream ≡ some u
    → (e : AgentEndpoint) × (lookup (key u.service) (build_routing_policy env v cache).1 ≡ some e)
      × Has
          (destination_rule v
            (any route_modifies_request v.routes)
            r
            (lower_bound (more_than_one r.destinations) 0 front)
            d
            u.service
            e)
          (build_routing_policy env v cache).0.on_http_request
unfolding build_routing_policy
build_routing_policy_reaches env v cache before r after front d back u h routes destinations up =
    let captures = any route_modifies_request v.routes in
    let tp = initial_policy v in
    let s : State = (if captures then add_rule_on_http_request tp capture_rule else tp, cache) in
    let served =
      subst
        (λ rs.
          Serves
            (destination_rule v captures r (lower_bound (more_than_one r.destinations) 0 front) d
              u.service)
            (key u.service) (add_routes env v captures rs s))
        (sym routes)
        (Serves-routes env v h captures before r after front d back u s destinations up) in
    (served.endpoint, served.cached, served.routed)
