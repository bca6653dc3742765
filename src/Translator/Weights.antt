-- ===== src/Translator/Weights.antt =====
-- Weighted destinations in `buildRoutingPolicy` of pkg/managerdriver/translator.go: each takes an
-- interval of the random number that the `Gen-Random-Number` rule draws.
pub mod Laws
use ngrok_operator.Common.{
  ℕ, zero, suc, ◌+◌, ◌-◌, String, ◌<>◌, Bool, true, false, Option, none, some, List, [], ◌∷◌, ◌==◌,
  nat_eq, decimal, if◌then◌else◌,
}
use ngrok_operator.Ir.{IrDestination}

-- A destination with no weight gets 1.
unfoldable pub weight_of : IrDestination → ℕ
weight_of d = elim d.weight [ none ↦ 1 | some w ↦ w ]

unfoldable pub total_weight : List IrDestination → ℕ
unfolding weight_of
total_weight [] = 0
total_weight (d ∷ ds) = weight_of d + total_weight ds

-- `%d` of n - 1.
unfoldable pub pred_text : ℕ → String
pred_text zero = "-1"
pred_text (suc n) = decimal n

-- The number that the rule draws.
unfoldable pub random_number : ℕ → String
unfolding pred_text
random_number total = "${rand.int(0," <> pred_text total <> ")}"

-- The interval from `lower` up to, and without, `upper`.
pub record Interval : Type 0 where
  pub lower : ℕ
  pub upper : ℕ

unfoldable pub weighted_route_expression : Interval → String
unfolding pred_text
weighted_route_expression r =
    if r.lower == 0
    then "int(vars.weighted_route_random_num) <= " <> pred_text r.upper
    else "int(vars.weighted_route_random_num) >= "
      <> decimal r.lower
      <> " && int(vars.weighted_route_random_num) <= "
      <> pred_text r.upper

-- The interval of a destination that begins at the current lower bound.
unfoldable pub interval_at : ℕ → IrDestination → Interval
unfolding weight_of
interval_at lower d = record { lower = lower; upper = lower + weight_of d }
