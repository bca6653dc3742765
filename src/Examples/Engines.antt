-- ===== src/Examples/Engines.antt =====
-- An engine that knows two literals and the integers up to 2, on a request for /a/b whose path was /a
-- before it was rewritten.
use ngrok_operator.Common.{
  ℕ, zero, suc, ◌≤◌, ◌<◌, String, ◌<>◌, Bool, true, false, ◌&&◌, ◌||◌, none, some, List, [], ◌∷◌,
  ◌==◌, string_eq, decimal, all, contains, leb, if◌then◌else◌, ◌≡◌, refl, arith, subst, sym,
  ==_path, Bool-cases, inl, inr,
}
use ngrok_operator.Ir.{
  prefix, IrRoute, IrHttpMatch, IrVirtualHost, endpoints_collapsed, IrStringValueType,
}
use ngrok_operator.Translator.Expressions.{ir_match_criteria_to_tp_expressions}
use ngrok_operator.Translator.Expressions.Meaning.{
  Request, Engine, EngineLaws, exact_text, prefix_text, value_text, regex_text, headers_text,
  query_params_text, passes, seen, begins_with,
}
use ngrok_operator.Translator.Expressions.Matches.{ir_match_criteria_to_tp_expressions_match}
use ngrok_operator.Translator.Routing.Chosen.{
  ServedOnce, destination_rule_matches, weighted_route_served,
}
use ngrok_operator.Translator.Routing.Reached.{destination_rule}
use ngrok_operator.Names.{chars}
use ngrok_operator.Examples.Data.{env, host, destination, path_match, service, endpoint}

abbrev first : String
first = "/a"

abbrev second : String
second = "x-team"

abbrev rewritten : Request
rewritten = record {
  path = "/a/b";
  method = "GET";
  header = λ n. if n == second then some first else none;
  query_param = λ n. none;
}

abbrev true_texts : List String
true_texts =
    exact_text true first
    ∷ prefix_text true first
    ∷ prefix_text false first
    ∷ value_text (headers_text false) second first
    ∷ value_text (headers_text true) second first
    ∷ regex_text (headers_text false) second first
    ∷ regex_text (headers_text true) second first
    ∷ "vars.request_matched_local_svc == false"
    ∷ "int(vars.weighted_route_random_num) <= 1"
    ∷ "int(vars.weighted_route_random_num) >= 0 && int(vars.weighted_route_random_num) <= 1"
    ∷ "int(vars.weighted_route_random_num) >= 1 && int(vars.weighted_route_random_num) <= 1"
    ∷ []

abbrev engine : Engine
engine = record {
  holds = contains true_texts;
  is_literal = λ s. s == first || s == second;
  matches = λ value pattern. value == pattern;
  request = rewritten;
  captured = record rewritten { path = "/a" };
  matched_local = false;
  draw = 1;
  limit = 2;
}

-- A statement for both literals, for all pairs of them, and for both values of a test.
for_literals :
    (P : String → Type 0) → P first → P second → (s : String) → engine.is_literal s ≡ true → P s
for_literals P p q s l = elim (Bool-cases (s == first)) [
  | inl e ↦ subst P (sym (==_path s first e)) p
  | inr e ↦ subst P (sym (==_path s second (ground arith))) q
]

for_pairs :
    (P : String → String → Type 0)
    → P first first
    → P first second
    → P second first
    → P second second
    → (s t : String) → engine.is_literal s ≡ true
    → engine.is_literal t ≡ true
    → P s t
for_pairs P a b c d s t l k =
    for_literals (λ x. P x t) (for_literals (P first) a b t k) (for_literals (P second) c d t k) s l

for_both : (P : Bool → Type 0) → P false → P true → (b : Bool) → P b
for_both P p q false = p
for_both P p q true = q

for_all_pairs :
    (P : Bool → String → String → Type 0)
    → P false first first
    → P false first second
    → P false second first
    → P false second second
    → P true first first
    → P true first second
    → P true second first
    → P true second second
    → (b : Bool) (s t : String) → engine.is_literal s ≡ true
    → engine.is_literal t ≡ true
    → P b s t
for_all_pairs P a b c d a' b' c' d' false = for_pairs (P false) a b c d
for_all_pairs P a b c d a' b' c' d' true = for_pairs (P true) a' b' c' d'

abbrev HeaderAt : Bool → String → String → Type 0
HeaderAt b n v =
    engine.holds (value_text (headers_text b) n v) ≡ passes (λ s. s == v) ((seen engine b).header n)

abbrev HeaderRegexAt : Bool → String → String → Type 0
HeaderRegexAt b n v =
    engine.holds (regex_text (headers_text b) n v)
    ≡ passes (λ s. engine.matches s v) ((seen engine b).header n)

abbrev QueryAt : Bool → String → String → Type 0
QueryAt b n v =
    engine.holds (value_text (query_params_text b) n v)
    ≡ passes (λ s. s == v) ((seen engine b).query_param n)

abbrev QueryRegexAt : Bool → String → String → Type 0
QueryRegexAt b n v =
    engine.holds (regex_text (query_params_text b) n v)
    ≡ passes (λ s. engine.matches s v) ((seen engine b).query_param n)

engine-at_most :
    (k : ℕ)
    → k < 2
    → engine.holds ("int(vars.weighted_route_random_num) <= " <> decimal k) ≡ leb 1 k
unfolding decimal
engine-at_most zero h = refl
engine-at_most (suc zero) h = refl
engine-at_most (suc (suc k)) h = absurd (omega arith)

engine-between :
    (j k : ℕ)
    → j ≤ 2
    → k < 2
    → engine.holds (
        "int(vars.weighted_route_random_num) >= "
        <> decimal j
        <> " && int(vars.weighted_route_random_num) <= "
        <> decimal k)
      ≡ (leb j 1 && leb 1 k)
unfolding decimal
engine-between zero zero h g = refl
engine-between zero (suc zero) h g = refl
engine-between (suc zero) zero h g = refl
engine-between (suc zero) (suc zero) h g = refl
engine-between (suc (suc zero)) zero h g = refl
engine-between (suc (suc zero)) (suc zero) h g = refl
engine-between (suc (suc (suc j))) k h g = absurd (omega arith)
engine-between j (suc (suc k)) h g = absurd (omega arith)

engine-EngineLaws : EngineLaws engine
engine-EngineLaws = record {
  exact_path_law =
      for_both
        (λ b.
          (p : String)
          → engine.is_literal p ≡ true
          → engine.holds (exact_text b p) ≡ ((seen engine b).path == p))
        (for_literals (λ p. engine.holds (exact_text false p) ≡ ("/a/b" == p)) refl refl)
        (for_literals (λ p. engine.holds (exact_text true p) ≡ ("/a" == p)) refl refl);
  prefix_path_law =
      for_both
        (λ b.
          (p : String)
          → engine.is_literal p ≡ true
          → engine.holds (prefix_text b p) ≡ begins_with (chars p) (chars (seen engine b).path))
        (for_literals
          (λ p. engine.holds (prefix_text false p) ≡ begins_with (chars p) (chars "/a/b")) refl
          refl)
        (for_literals (λ p. engine.holds (prefix_text true p) ≡ begins_with (chars p) (chars "/a"))
          refl refl);
  header_law = for_all_pairs HeaderAt refl refl refl refl refl refl refl refl;
  header_regex_law = for_all_pairs HeaderRegexAt refl refl refl refl refl refl refl refl;
  query_law = for_all_pairs QueryAt refl refl refl refl refl refl refl refl;
  query_regex_law = for_all_pairs QueryRegexAt refl refl refl refl refl refl refl refl;
  method_law =
      for_literals (λ m. engine.holds ("req.method == '" <> m <> "'") ≡ ("GET" == m)) refl refl;
  local_law = refl;
  no_number = refl;
  at_most = engine-at_most;
  between = engine-between;
}

-- The team of a request, below a path.
abbrev team : IrHttpMatch
team = record (path_match prefix "/a") {
  headers = record { name = "x-team"; value = "/a"; value_type = IrStringValueType.exact } ∷ [];
}

ir_match_criteria_to_tp_expressions_match_example :
    all engine.holds (ir_match_criteria_to_tp_expressions (some team) false) ≡ true
ir_match_criteria_to_tp_expressions_match_example =
    ir_match_criteria_to_tp_expressions_match engine engine-EngineLaws (some team) false refl

-- Two destinations of the same weight.
abbrev shared : IrRoute
shared = record {
  http_match_criteria = some team;
  traffic_policies = [];
  destinations = destination "cart" none ∷ (destination "stock" none ∷ []);
}

abbrev split : IrVirtualHost
split = host "split.test" endpoints_collapsed (shared ∷ []) none

destination_rule_matches_example :
    all engine.holds
      (destination_rule split false shared 1
        (destination "stock" none)
        (service "stock")
        endpoint).expressions
    ≡ true
unfolding ngrok_operator.Translator.Weights.weight_of
destination_rule_matches_example =
    destination_rule_matches engine engine-EngineLaws split false shared 1
      (destination "stock" none) (service "stock") endpoint refl (omega arith)

weighted_route_served_example : ServedOnce engine engine-EngineLaws env split [] shared
unfolding ngrok_operator.Translator.Weights.total_weight ngrok_operator.Translator.Weights.weight_of
weighted_route_served_example =
    weighted_route_served engine engine-EngineLaws env split [] [] shared [] refl refl (omega arith)
      (omega arith) refl
