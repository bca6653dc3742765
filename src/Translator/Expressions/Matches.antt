-- ===== src/Translator/Expressions/Matches.antt =====
-- `irMatchCriteriaToTPExpressions` of pkg/managerdriver/translator.go against the requests that match
-- the criteria of a route.
use ngrok_operator.Common.{
  String, Bool, true, false, Option, none, some, List, [], ◌∷◌, string_eq, nat_eq, option_eq, all,
  ◌≡◌, refl, arith, ◌∙◌,
}
use ngrok_operator.Ir.{IrHttpMatch, IrHeaderMatch, IrPathMatchType, IrStringValueType}
use ngrok_operator.Translator.Expressions.{
  path_expression, typed_path, exact_path, prefix_path, value_test, header_source, query_source,
  path_of, method_of, header_expression, query_expression, method_expression,
  ir_match_criteria_to_tp_expressions,
}
use ngrok_operator.Translator.Expressions.Laws.{
  holds_optional, ir_match_criteria_to_tp_expressions_hold,
}
use ngrok_operator.Translator.Expressions.Meaning.{
  Engine, EngineLaws, seen, path_matches, value_matches, method_matches, request_matches,
  optional_literal, literals, are_literals,
}

module _ (e : Engine) (laws : EngineLaws e) where
  typed_path_matches :
      (b : Bool) (t : IrPathMatchType) (p : String)
      → e.is_literal p ≡ true
      → e.holds (typed_path b t p) ≡ path_matches (seen e b) (some t) (some p)
  unfolding typed_path exact_path prefix_path
  typed_path_matches false IrPathMatchType.exact p l = laws.exact_path_law false p l
  typed_path_matches true IrPathMatchType.exact p l = laws.exact_path_law true p l
  typed_path_matches false IrPathMatchType.prefix p l = laws.prefix_path_law false p l
  typed_path_matches true IrPathMatchType.prefix p l = laws.prefix_path_law true p l
  typed_path_matches false IrPathMatchType.regex p l = laws.prefix_path_law false p l
  typed_path_matches true IrPathMatchType.regex p l = laws.prefix_path_law true p l
  typed_path_matches false (IrPathMatchType.other_path_type _) p l = laws.prefix_path_law false p l
  typed_path_matches true (IrPathMatchType.other_path_type _) p l = laws.prefix_path_law true p l

  header_matches :
      (b : Bool) (n v : String) (t : IrStringValueType)
      → e.is_literal n ≡ true
      → e.is_literal v ≡ true
      → holds_optional e.holds (value_test (header_source b) n t v)
        ≡ value_matches e.matches ((seen e b).header n) t v
  unfolding value_test header_source
  header_matches false n v IrStringValueType.exact l k = laws.header_law false n v l k
  header_matches true n v IrStringValueType.exact l k = laws.header_law true n v l k
  header_matches false n v IrStringValueType.regex l k = laws.header_regex_law false n v l k
  header_matches true n v IrStringValueType.regex l k = laws.header_regex_law true n v l k
  header_matches b n v (IrStringValueType.other_value_type _) l k = refl

  query_matches :
      (b : Bool) (n v : String) (t : IrStringValueType)
      → e.is_literal n ≡ true
      → e.is_literal v ≡ true
      → holds_optional e.holds (value_test (query_source b) n t v)
        ≡ value_matches e.matches ((seen e b).query_param n) t v
  unfolding value_test query_source
  query_matches false n v IrStringValueType.exact l k = laws.query_law false n v l k
  query_matches true n v IrStringValueType.exact l k = laws.query_law true n v l k
  query_matches false n v IrStringValueType.regex l k = laws.query_regex_law false n v l k
  query_matches true n v IrStringValueType.regex l k = laws.query_regex_law true n v l k
  query_matches b n v (IrStringValueType.other_value_type _) l k = refl

  all_headers_match :
      (b : Bool) (hs : List IrHeaderMatch)
      → literals e hs ≡ true
      → all (λ h. holds_optional e.holds (header_expression b h)) hs
        ≡ all (λ h. value_matches e.matches ((seen e b).header h.name) h.value_type h.value) hs
  unfolding header_expression
  all_headers_match b [] l = refl
  all_headers_match b (h ∷ hs) l =
      let first = header_matches b h.name h.value h.value_type (ground arith) (ground arith) in
      let rest = all_headers_match b hs (ground arith) in rw (first, rest) refl

  all_params_match :
      (b : Bool) (hs : List IrHeaderMatch)
      → literals e hs ≡ true
      → all (λ h. holds_optional e.holds (query_expression b h)) hs
        ≡ all (λ h. value_matches e.matches ((seen e b).query_param h.name) h.value_type h.value) hs
  unfolding query_expression
  all_params_match b [] l = refl
  all_params_match b (h ∷ hs) l =
      let first = query_matches b h.name h.value h.value_type (ground arith) (ground arith) in
      let rest = all_params_match b hs (ground arith) in rw (first, rest) refl

  path_holds :
      (b : Bool) (m : IrHttpMatch) (p : Option String) (t : Option IrPathMatchType)
      → m.path ≡ p
      → m.path_type ≡ t
      → optional_literal e p ≡ true
      → holds_optional e.holds (path_of b m) ≡ path_matches (seen e b) t p
  unfolding path_expression typed_path prefix_path
  path_holds b m none t at kind l = rw at refl
  path_holds b m (some p) (some t) at kind l = rw (at, kind) (typed_path_matches b t p l)
  path_holds false m (some p) none at kind l = rw (at, kind) (laws.prefix_path_law false p l)
  path_holds true m (some p) none at kind l = rw (at, kind) (laws.prefix_path_law true p l)

  method_holds :
      (m : IrHttpMatch) (s : Option String)
      → m.method ≡ s
      → optional_literal e s ≡ true
      → holds_optional e.holds (method_of m) ≡ method_matches e.request s
  unfolding method_expression
  method_holds m none at l = rw at refl
  method_holds m (some s) at l = rw at (laws.method_law s l)

  -- Over an engine that evaluates the forms of text by their documented meaning, and for criteria whose
  -- texts are literals of its language: all expressions that are generated for the criteria of a route
  -- hold on a request exactly when its path is the one of the criteria, or begins with it (where its
  -- type is not `Exact`), every header and query parameter has the value or matches the regular
  -- expression, and the method is the same; path, headers and parameters are those of the request as it
  -- was captured where the expressions read variables. A header or parameter with an unknown type of
  -- value adds no condition.
  pub ir_match_criteria_to_tp_expressions_match :
      (m : Option IrHttpMatch) (from_var : Bool)
      → are_literals e m ≡ true
      → all e.holds (ir_match_criteria_to_tp_expressions m from_var) ≡ request_matches e from_var m
  ir_match_criteria_to_tp_expressions_match none from_var l =
      ir_match_criteria_to_tp_expressions_hold e.holds none from_var
  ir_match_criteria_to_tp_expressions_match (some m) from_var l =
      let p = path_holds from_var m m.path m.path_type refl refl (ground arith) in
      let hs = all_headers_match from_var m.headers (ground arith) in
      let qs = all_params_match from_var m.query_params (ground arith) in
      let method = method_holds m m.method refl (ground arith) in
      let texts = ir_match_criteria_to_tp_expressions_hold e.holds (some m) from_var in
      texts ∙ rw (p, hs, qs, method) refl
