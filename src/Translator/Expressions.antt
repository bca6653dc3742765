-- ===== src/Translator/Expressions.antt =====
-- `irMatchCriteriaToTPExpressions` of pkg/managerdriver/translator.go and `appendStringUnique` of
-- pkg/managerdriver/utils.go: what a rule must match, as texts that are all to hold.
pub mod Laws
pub mod Meaning
pub mod Matches
use ngrok_operator.Common.{
  String, ◌<>◌, Bool, true, false, Option, none, some, List, [], ◌∷◌, ◌++◌, string_eq, contains,
  if◌then◌else◌,
}
use ngrok_operator.Ir.{IrHttpMatch, IrHeaderMatch, IrPathMatchType, IrStringValueType}

-- The second loop of `appendStringUnique`. The set of old items does not grow.
append_unique : List String → List String → List String → List String
append_unique old existing [] = existing
append_unique old existing (s ∷ items) =
    append_unique old (if contains old s then existing else existing ++ (s ∷ [])) items

unfoldable pub append_string_unique : List String → List String → List String
unfolding append_unique
append_string_unique existing items = append_unique existing existing items

pub exact_path : Bool → String → String
exact_path true path = "vars.original_path == '" <> path <> "'"
exact_path false path = "req.url.path == '" <> path <> "'"

pub prefix_path : Bool → String → String
prefix_path true path = "vars.original_path.startsWith('" <> path <> "')"
prefix_path false path = "req.url.path.startsWith('" <> path <> "')"

-- Prefix, regex and any other type take the `default` branch.
pub typed_path : Bool → IrPathMatchType → String → String
unfolding exact_path prefix_path
typed_path from_var IrPathMatchType.exact path = exact_path from_var path
typed_path from_var _ path = prefix_path from_var path

unfoldable pub path_expression : Bool → Option IrPathMatchType → String → String
unfolding typed_path
path_expression from_var none path = typed_path from_var IrPathMatchType.prefix path
path_expression from_var (some t) path = typed_path from_var t path

-- A test of the header or parameter `name` in the map that `source` stands for.
pub value_test : String → String → IrStringValueType → String → Option String
value_test source name IrStringValueType.exact value = some (
    source <> ".exists_one(x, x == '" <> name <> "') && " <> source <> "['" <> name
    <> "'].join(',') == '" <> value <> "'")
value_test source name IrStringValueType.regex value = some (
    source <> ".exists_one(x, x == '" <> name <> "') && " <> source <> "['" <> name
    <> "'].join(',').matches('" <> value <> "')")
value_test source name (IrStringValueType.other_value_type _) value = none

pub header_source : Bool → String
header_source true = "vars.original_headers.decodeJson()"
header_source false = "req.headers"

pub query_source : Bool → String
query_source true = "vars.original_query_params.decodeJson()"
query_source false = "req.url.query_params"

-- A matcher of an unknown value type adds nothing.
unfoldable pub header_expression : Bool → IrHeaderMatch → Option String
unfolding value_test header_source
header_expression from_var h = value_test (header_source from_var) h.name h.value_type h.value

unfoldable pub query_expression : Bool → IrHeaderMatch → Option String
unfolding value_test query_source
query_expression from_var h = value_test (query_source from_var) h.name h.value_type h.value

unfoldable pub method_expression : String → String
method_expression m = "req.method == '" <> m <> "'"

abbrev pub append_optional : List String → Option String → List String
append_optional expressions none = expressions
append_optional expressions (some e) = append_string_unique expressions (e ∷ [])

add_matches : (IrHeaderMatch → Option String) → List String → List IrHeaderMatch → List String
unfolding append_string_unique
add_matches expression expressions [] = expressions
add_matches expression expressions (h ∷ hs) =
    add_matches expression (append_optional expressions (expression h)) hs

abbrev pub path_of : Bool → IrHttpMatch → Option String
path_of from_var m = elim m.path [
  | none ↦ none
  | some p ↦ some (path_expression from_var m.path_type p)
]

abbrev pub method_of : IrHttpMatch → Option String
method_of m = elim m.method [ none ↦ none | some s ↦ some (method_expression s) ]

unfoldable pub ir_match_criteria_to_tp_expressions : Option IrHttpMatch → Bool → List String
unfolding append_string_unique add_matches path_expression header_expression query_expression
    method_expression
ir_match_criteria_to_tp_expressions none from_var = []
ir_match_criteria_to_tp_expressions (some m) from_var =
    let expressions = append_optional [] (path_of from_var m) in
    let expressions' = add_matches (header_expression from_var) expressions m.headers in
    let expressions'' = add_matches (query_expression from_var) expressions' m.query_params in
    append_optional expressions'' (method_of m)
