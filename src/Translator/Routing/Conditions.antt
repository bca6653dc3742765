-- ===== src/Translator/Routing/Conditions.antt =====
-- When the rule of a destination applies.
use ngrok_operator.Common.{
  ℕ, String, Bool, true, ◌&&◌, Option, none, some, List, [], ◌∷◌, all, is_some, if◌then◌else◌, ◌≡◌,
  arith,
}
use ngrok_operator.Policy.{Rule}
use ngrok_operator.Ir.{IrDestination, IrRoute, IrService, IrVirtualHost}
use ngrok_operator.Translator.Expressions.Laws.{
  all-append_string_unique, holds_optional, criteria_hold, ir_match_criteria_to_tp_expressions_hold,
}
use ngrok_operator.Translator.Expressions.{
  append_string_unique, ir_match_criteria_to_tp_expressions,
}
use ngrok_operator.Translator.Endpoints.{AgentEndpoint}
use ngrok_operator.Translator.Rules.{
  build_endpoint_service_route_rule, build_route_locally_var_rule,
}
use ngrok_operator.Translator.Routing.{
  with_expressions, weighted_expression, route_expressions, more_than_one, not_matched, route_rule,
}
use ngrok_operator.Translator.Routing.Reached.{destination_rule}

module _ (holds : String → Bool) where
  all-with_expressions :
      (es : List String) (w : Option String) (rule : Rule)
      → all holds (with_expressions es w rule).expressions
        ≡ (all holds rule.expressions && (all holds es && holds_optional holds w))
  all-with_expressions es none rule =
      ground (arith, all-append_string_unique holds rule.expressions es)
  all-with_expressions es (some s) rule = ground (
    arith,
    all-append_string_unique holds rule.expressions es,
    all-append_string_unique holds (append_string_unique rule.expressions es) (s ∷ []),
  )

  all-route_expressions :
      (v : IrVirtualHost) (from_var : Bool) (r : IrRoute)
      → all holds (route_expressions v from_var r) ≡ (
          criteria_hold holds from_var r.http_match_criteria
          && (if is_some v.collapse_into_service_key then holds not_matched else true))
  unfolding route_expressions
  all-route_expressions v from_var r =
      let es = ir_match_criteria_to_tp_expressions r.http_match_criteria from_var in
      ground (
        arith,
        all-append_string_unique holds es (not_matched ∷ []),
        ir_match_criteria_to_tp_expressions_hold holds r.http_match_criteria from_var,
      )

  no_expressions :
      (v : IrVirtualHost) (s : IrService) (e : AgentEndpoint)
      → (route_rule "Generated-Local-Service-Route" "Generated-Route" v s e).expressions ≡ []
  unfolding route_rule build_endpoint_service_route_rule build_route_locally_var_rule
  no_expressions v s e = ground arith

  -- Whatever the expressions mean: those of the rule of a destination all hold exactly when the texts
  -- for the criteria of its route do, that for the local service (if the virtual host collapses), and
  -- that for the interval of the destination (if there are several).
  pub destination_rule_applies :
      (v : IrVirtualHost) (from_var : Bool) (r : IrRoute) (lower : ℕ) (d : IrDestination)
      (s : IrService) (e : AgentEndpoint)
      → all holds (destination_rule v from_var r lower d s e).expressions ≡ (
          criteria_hold holds from_var r.http_match_criteria
          && ((if is_some v.collapse_into_service_key then holds not_matched else true)
              && holds_optional holds (weighted_expression (more_than_one r.destinations) lower d)))
  destination_rule_applies v from_var r lower d s e =
      let w = weighted_expression (more_than_one r.destinations) lower d in
      let rule = route_rule "Generated-Local-Service-Route" "Generated-Route" v s e in
      ground (
        arith,
        all-with_expressions (route_expressions v from_var r) w rule,
        all-route_expressions v from_var r,
        no_expressions v s e,
      )
