-- ===== src/Translator/Weights/Laws.antt =====
-- Which destination of pkg/managerdriver/translator.go a random number falls to.
use mathlib.Core.List.{head-eq_of_cons-eq, tail-eq_of_cons-eq}
use ngrok_operator.Common.{
  ℕ, zero, suc, ◌+◌, ◌≤◌, ◌<◌, ◌&&◌, List, [], ◌∷◌, ◌++◌, ◌≡◌, refl, arith, ltb, leb, length, ◌==◌,
  nat_eq, Bool-cases, inl, inr, ap, ◌∙◌, false,
}
use ngrok_operator.Ir.{IrDestination}
use ngrok_operator.Translator.Expressions.Meaning.{Engine, EngineLaws}
use ngrok_operator.Translator.Weights.{
  weight_of, total_weight, pred_text, weighted_route_expression,
}

-- The text of an interval means that the random number lies in it.
pub interval_holds :
    (e : Engine) (lower upper : ℕ)
    → EngineLaws e
    → lower ≤ upper
    → upper ≤ e.limit
    → e.holds (weighted_route_expression (record { lower = lower; upper = upper }))
      ≡ (leb lower e.draw && ltb e.draw upper)
unfolding weighted_route_expression pred_text
interval_holds e zero zero laws h k = ground (arith, laws.no_number)
interval_holds e zero (suc n) laws h k = ground (arith, laws.at_most n)
interval_holds e (suc m) zero laws h k = absurd (omega arith)
interval_holds e (suc m) (suc n) laws h k =
    let positive : (suc m == 0) ≡ false = ground arith in
    let last : (leb (suc m) e.draw && leb e.draw n) ≡ (leb (suc m) e.draw && ltb e.draw (suc n)) =
      ground arith in
    rw positive (laws.between (suc m) n (omega (arith, h, k)) (omega (arith, k)) ∙ last)

-- The destination between the two parts of a list has the number, counted from a lower bound.
pub record IsChosen (n lower : ℕ) (front : List IrDestination) (d : IrDestination) : Type 0 where
  pub from : lower + total_weight front ≤ n
  pub below : n < lower + total_weight front + weight_of d

pub record Choice (n lower : ℕ) (ds : List IrDestination) : Type 0 where
  pub front : List IrDestination
  pub chosen : IrDestination
  pub back : List IrDestination
  pub parts : ds ≡ front ++ (chosen ∷ back)
  pub holds : IsChosen n lower front chosen

pub choose :
    (n lower : ℕ) (ds : List IrDestination)
    → lower ≤ n
    → n < lower + total_weight ds
    → Choice n lower ds
unfolding total_weight
choose n lower [] h k = absurd (omega arith)
choose n lower (d ∷ ds) h k = elim (Bool-cases (ltb n (lower + weight_of d))) [
  | inl here ↦ record {
    front = [];
    chosen = d;
    back = ds;
    parts = refl;
    holds = record { from = omega arith; below = ground arith };
  }
  | inr later ↦
      let rest = choose n (lower + weight_of d) ds (ground arith) (omega arith) in
      record {
        front = d ∷ rest.front;
        chosen = rest.chosen;
        back = rest.back;
        parts = ap (λ xs. d ∷ xs) rest.parts;
        holds = record {
          from = omega (arith, rest.holds.from);
          below = omega (arith, rest.holds.below);
        };
      }
]

pub chosen_once :
    (n lower : ℕ) (f : List IrDestination) (d : IrDestination) (b f' : List IrDestination)
    (d' : IrDestination) (b' : List IrDestination)
    → f ++ (d ∷ b) ≡ f' ++ (d' ∷ b')
    → IsChosen n lower f d
    → IsChosen n lower f' d'
    → length f ≡ length f'
unfolding total_weight
chosen_once n lower [] d b [] d' b' same h h' = refl
chosen_once n lower [] d b (x ∷ f') d' b' same h h' =
    absurd (omega (arith, h.below, h'.from, ap weight_of (head-eq_of_cons-eq same)))
chosen_once n lower (x ∷ f) d b [] d' b' same h h' =
    absurd (omega (arith, h.from, h'.below, ap weight_of (head-eq_of_cons-eq same)))
chosen_once n lower (x ∷ f) d b (y ∷ f') d' b' same h h' =
    let first = ap weight_of (head-eq_of_cons-eq same) in
    omega (
      arith,
      chosen_once n (lower + weight_of x) f d b f' d' b' (tail-eq_of_cons-eq same)
          (record { from = omega (arith, h.from); below = omega (arith, h.below) })
          (record { from = omega (arith, h'.from, first); below = omega (arith, h'.below, first) }),
    )
