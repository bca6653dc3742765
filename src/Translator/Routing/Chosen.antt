-- ===== src/Translator/Routing/Chosen.antt =====
-- Which destination of a weighted route of `buildRoutingPolicy` a request goes to.
use ngrok_operator.Common.{
  ℕ, ◌+◌, ◌≤◌, ◌<◌, Bool, true, false, ◌&&◌, not, some, List, [], ◌∷◌, ◌++◌, ltb, leb, lookup, any,
  all, string_eq, is_some, length, if◌then◌else◌, ◌≡◌, refl, arith, ◌∙◌, ap, sym,
}
use ngrok_operator.Ir.{IrDestination, IrRoute, IrService, IrVirtualHost, IrUpstream}
use ngrok_operator.Ir.Service.{key}
use ngrok_operator.Names.{is_http}
use ngrok_operator.Translator.Endpoints.{Env, AgentEndpoint}
use ngrok_operator.Translator.Expressions.Laws.{holds_optional}
use ngrok_operator.Translator.Expressions.Meaning.{
  Engine, EngineLaws, request_matches, are_literals,
}
use ngrok_operator.Translator.Expressions.Matches.{ir_match_criteria_to_tp_expressions_match}
use ngrok_operator.Translator.Expressions.Laws.{ir_match_criteria_to_tp_expressions_hold}
use ngrok_operator.Translator.Weights.{weight_of, total_weight, interval_at}
use ngrok_operator.Translator.Weights.Laws.{interval_holds, choose, chosen_once}
use ngrok_operator.Translator.Routing.{
  Cache, weighted_expression, more_than_one, route_modifies_request, build_routing_policy,
  not_matched,
}
use ngrok_operator.Translator.Routing.Conditions.{destination_rule_applies}
use ngrok_operator.Translator.Routing.Growth.{Has}
use ngrok_operator.Translator.Routing.Reached.{
  destination_rule, lower_bound, build_routing_policy_reaches,
}

-- When the rule of a destination is to apply: the request matches the criteria of the route, has not
-- been sent to the local service (where there is one), and the random number is in its interval.
abbrev pub rule_wanted : Engine → IrVirtualHost → Bool → IrRoute → ℕ → IrDestination → Bool
rule_wanted e v from_var r lower d =
    request_matches e from_var r.http_match_criteria
    && ((if is_some v.collapse_into_service_key then not e.matched_local else true)
        && (if more_than_one r.destinations
            then leb lower e.draw && ltb e.draw (lower + weight_of d)
            else true))

lower_bound-total :
    (lower : ℕ) (ds : List IrDestination) → lower_bound true lower ds ≡ lower + total_weight ds
unfolding total_weight
lower_bound-total lower [] = omega arith
lower_bound-total lower (d ∷ ds) = omega (arith, lower_bound-total (lower + weight_of d) ds)

total_weight-append :
    (xs ys : List IrDestination) → total_weight (xs ++ ys) ≡ total_weight xs + total_weight ys
unfolding total_weight
total_weight-append [] ys = omega arith
total_weight-append (x ∷ xs) ys = omega (arith, total_weight-append xs ys)

module _ (e : Engine) (laws : EngineLaws e) where
  weighted_holds :
      (many : Bool) (lower : ℕ) (d : IrDestination)
      → lower + weight_of d ≤ e.limit
      → holds_optional e.holds (weighted_expression many lower d)
        ≡ (if many then leb lower e.draw && ltb e.draw (lower + weight_of d) else true)
  unfolding weighted_expression interval_at
  weighted_holds false lower d fits = refl
  weighted_holds true lower d fits =
      interval_holds e lower (lower + weight_of d) laws (omega arith) fits

  -- Over an engine that evaluates the forms of text by their documented meaning, for criteria whose
  -- texts are literals, and an interval that fits into the integers of the engine: all expressions of
  -- the rule of a destination hold exactly when the request matches the criteria of the route, was not
  -- sent to the local service before (if the virtual host collapses), and the random number is at least
  -- the lower bound and below the sum of it and the weight of the destination (if there are several).
  pub destination_rule_matches :
      (v : IrVirtualHost) (from_var : Bool) (r : IrRoute) (lower : ℕ) (d : IrDestination)
      (s : IrService) (a : AgentEndpoint)
      → are_literals e r.http_match_criteria ≡ true
      → lower + weight_of d ≤ e.limit
      → all e.holds (destination_rule v from_var r lower d s a).expressions
        ≡ rule_wanted e v from_var r lower d
  destination_rule_matches v from_var r lower d s a l fits =
      let texts = destination_rule_applies e.holds v from_var r lower d s a in
      let criteria =
        sym (ir_match_criteria_to_tp_expressions_hold e.holds r.http_match_criteria from_var)
        ∙ ir_match_criteria_to_tp_expressions_match e laws r.http_match_criteria from_var l in
      let weighted = weighted_holds (more_than_one r.destinations) lower d fits in
      let there : e.holds not_matched ≡ not e.matched_local = laws.local_law in
      texts ∙ rw (criteria, there, weighted) refl

  interval_fits :
      (ds front : List IrDestination) (d : IrDestination) (back : List IrDestination)
      → ds ≡ front ++ (d ∷ back)
      → total_weight ds ≤ e.limit
      → total_weight front + weight_of d ≤ e.limit
  unfolding total_weight
  interval_fits ds front d back parts fits =
      omega (arith, ap total_weight parts, total_weight-append front (d ∷ back), fits)

  -- The expression of a destination of a weighted route says that the number falls to it.
  share_holds :
      (ds front : List IrDestination) (d : IrDestination) (back : List IrDestination)
      → ds ≡ front ++ (d ∷ back)
      → total_weight ds ≤ e.limit
      → holds_optional e.holds (weighted_expression true (lower_bound true 0 front) d)
        ≡ (leb (total_weight front) e.draw && ltb e.draw (total_weight front + weight_of d))
  share_holds ds front d back parts fits =
      let start : lower_bound true 0 front ≡ total_weight front =
        omega (arith, lower_bound-total 0 front) in
      rw start
        (weighted_holds true (total_weight front) d (interval_fits ds front d back parts fits))

  -- One destination of a weighted route whose expression holds, and the rule of the policy for it.
  pub record ServedOnce (env : Env) (v : IrVirtualHost) (cache : Cache) (r : IrRoute) : Type 0 where
    pub front : List IrDestination
    pub chosen : IrDestination
    pub back : List IrDestination
    pub parts : r.destinations ≡ front ++ (chosen ∷ back)
    pub applies :
        holds_optional e.holds (weighted_expression true (lower_bound true 0 front) chosen) ≡ true
    pub only :
        (front' : List IrDestination) (d : IrDestination) (back' : List IrDestination)
        → r.destinations ≡ front' ++ (d ∷ back')
        → holds_optional e.holds (weighted_expression true (lower_bound true 0 front') d) ≡ true
        → length front' ≡ length front
    pub routed :
        (u : IrUpstream)
        → chosen.upstream ≡ some u
        → (a : AgentEndpoint) × (lookup (key u.service) (build_routing_policy env v cache).1
            ≡ some a)
          × Has
              (destination_rule v
                (any route_modifies_request v.routes)
                r
                (lower_bound true 0 front)
                chosen
                u.service
                a)
              (build_routing_policy env v cache).0.on_http_request

  -- Over an engine that evaluates the forms of text by their documented meaning, for a virtual host that
  -- speaks HTTP or HTTPS and a route of it with several destinations, whose weights fit into the integers of the engine: for every
  -- random number below the sum of the weights, the weighted expression of exactly one destination of
  -- the route holds, each with the lower bound that its rule has; and if that destination has an
  -- upstream, the policy has its rule, with the expression, and the cache its agent endpoint.
  pub weighted_route_served :
      (env : Env) (v : IrVirtualHost) (cache : Cache) (before : List IrRoute) (r : IrRoute)
      (after : List IrRoute)
      → is_http v.listener.protocol ≡ true
      → v.routes ≡ before ++ (r ∷ after)
      → total_weight r.destinations ≤ e.limit
      → e.draw < total_weight r.destinations
      → more_than_one r.destinations ≡ true
      → ServedOnce env v cache r
  weighted_route_served env v cache before r after http routes fits drawn many =
      let c = choose e.draw 0 r.destinations (omega arith) (omega (arith, drawn)) in
      record {
        front = c.front;
        chosen = c.chosen;
        back = c.back;
        parts = c.parts;
        applies =
            share_holds r.destinations c.front c.chosen c.back c.parts fits
            ∙ ground (arith, c.holds.from, c.holds.below);
        only = λ front' d back' parts holds.
            let there = sym (share_holds r.destinations front' d back' parts fits) ∙ holds in
            chosen_once e.draw 0 front' d back' c.front c.chosen c.back (sym parts ∙ c.parts)
              (record { from = ground arith; below = ground arith }) c.holds;
        routed = λ u up.
            let bound : lower_bound (more_than_one r.destinations) 0 c.front
                ≡ lower_bound true 0 c.front =
              rw many refl in
            rw (← bound) (
              build_routing_policy_reaches env v cache before r after c.front c.chosen c.back u http
                routes c.parts up);
      }
