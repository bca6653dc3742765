-- ===== src/Translator/Expressions/Laws.antt =====
-- The expressions of a rule, all of which are to hold, against the criteria of a route.
use ngrok_operator.Common.{
  String, Bool, true, ◌&&◌, Option, none, some, List, [], ◌∷◌, ◌++◌, string_eq, contains, all, ◌≡◌,
  refl, arith, eq_iff, Bool-cases, inl, inr,
}
use ngrok_operator.Ir.{IrHttpMatch, IrHeaderMatch}
use ngrok_operator.Translator.Expressions.{
  append_unique, append_string_unique, append_optional, add_matches, path_of, method_of,
  header_expression, query_expression, ir_match_criteria_to_tp_expressions,
}

module _ (holds : String → Bool) where
  all-contains :
      (xs : List String) (s : String) → contains xs s ≡ true → all holds xs ≡ true → holds s ≡ true
  all-contains [] s c h = cc
  all-contains (x ∷ xs) s c h = ground (arith, eq_iff x s, all-contains xs s)

  all-append : (xs ys : List String) → all holds (xs ++ ys) ≡ (all holds xs && all holds ys)
  all-append [] ys = refl
  all-append (x ∷ xs) ys = ground (arith, all-append xs ys)

  -- The old items are among the items so far, so that an item that is left out is among them.
  all-append_unique :
      (old existing items : List String)
      → (all holds existing ≡ true → all holds old ≡ true)
      → all holds (append_unique old existing items) ≡ (all holds existing && all holds items)
  unfolding append_unique
  all-append_unique old existing [] sub = ground arith
  all-append_unique old existing (s ∷ items) sub = elim (Bool-cases (contains old s)) [
    | inl here ↦
        rw here (ground (arith, all-append_unique old existing items sub, all-contains old s here))
    | inr new ↦
        let more : all holds (existing ++ (s ∷ [])) ≡ (all holds existing && (holds s && true)) =
          all-append existing (s ∷ []) in
        rw new (
          ground (
            arith,
            more,
            all-append_unique old (existing ++ (s ∷ [])) items (λ h. sub (ground arith)),
          ))
  ]

  -- Whatever the expressions mean, all items hold after an append exactly when all old and all new
  -- ones hold.
  pub all-append_string_unique :
      (xs ys : List String)
      → all holds (append_string_unique xs ys) ≡ (all holds xs && all holds ys)
  unfolding append_string_unique
  all-append_string_unique xs ys = all-append_unique xs xs ys (λ h. h)

  abbrev pub holds_optional : Option String → Bool
  holds_optional none = true
  holds_optional (some e) = holds e

  all-append_optional :
      (xs : List String) (o : Option String)
      → all holds (append_optional xs o) ≡ (all holds xs && holds_optional o)
  all-append_optional xs none = ground arith
  all-append_optional xs (some e) = ground (arith, all-append_string_unique xs (e ∷ []))

  all-add_matches :
      (expression : IrHeaderMatch → Option String) (xs : List String) (hs : List IrHeaderMatch)
      → all holds (add_matches expression xs hs)
        ≡ (all holds xs && all (λ h. holds_optional (expression h)) hs)
  unfolding add_matches
  all-add_matches expression xs [] = ground arith
  all-add_matches expression xs (h ∷ hs) = ground (
    arith,
    all-add_matches expression (append_optional xs (expression h)) hs,
    all-append_optional xs (expression h),
  )

  -- The texts for the criteria of a route, condition by condition.
  abbrev pub criteria_hold : Bool → Option IrHttpMatch → Bool
  criteria_hold from_var none = true
  criteria_hold from_var (some m) =
      holds_optional (path_of from_var m)
      && (all (λ h. holds_optional (header_expression from_var h)) m.headers
          && (all (λ q. holds_optional (query_expression from_var q)) m.query_params
              && holds_optional (method_of m)))

  -- Whatever the expressions mean, the list that is generated for the criteria of a route holds exactly
  -- when the single texts for the path, the headers, the query parameters and the method do.
  pub ir_match_criteria_to_tp_expressions_hold :
      (m : Option IrHttpMatch) (from_var : Bool)
      → all holds (ir_match_criteria_to_tp_expressions m from_var) ≡ criteria_hold from_var m
  unfolding ir_match_criteria_to_tp_expressions
  ir_match_criteria_to_tp_expressions_hold none from_var = refl
  ir_match_criteria_to_tp_expressions_hold (some m) from_var =
      let a = append_optional [] (path_of from_var m) in
      let b = add_matches (header_expression from_var) a m.headers in
      let c = add_matches (query_expression from_var) b m.query_params in
      ground (
        arith,
        all-append_optional c (method_of m),
        all-add_matches (query_expression from_var) b m.query_params,
        all-add_matches (header_expression from_var) a m.headers,
        all-append_optional [] (path_of from_var m),
      )
