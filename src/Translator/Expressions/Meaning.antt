-- ===== src/Translator/Expressions/Meaning.antt =====
-- What the expressions of pkg/managerdriver/translator.go mean: the language of traffic policy
-- expressions, which ngrok evaluates on a request, as a parameter with its documented behaviour on the
-- forms of text that the operator writes; and, apart from it, when a request matches the criteria of a
-- route.
use Prim.Native.Char.{Char, code}
use ngrok_operator.Common.{
  ℕ, ◌≤◌, ◌<◌, String, ◌<>◌, Bool, true, false, not, ◌&&◌, Option, none, some, List, [], ◌∷◌, ◌==◌,
  string_eq, nat_eq, option_eq, decimal, all, leb, ◌≡◌,
}
use ngrok_operator.Names.{chars}
use ngrok_operator.Ir.{IrHttpMatch, IrHeaderMatch, IrPathMatchType, IrStringValueType}

-- A request; the values of a header, or of a query parameter, are joined by commas.
pub record Request : Type 0 where
  pub path : String
  pub method : String
  pub header : String → Option String
  pub query_param : String → Option String

abbrev pub begins_with : List Char → List Char → Bool
begins_with [] l = true
begins_with (c ∷ cs) [] = false
begins_with (c ∷ cs) (d ∷ ds) = code c == code d && begins_with cs ds

-- A value that there is passes a test.
abbrev pub passes : (String → Bool) → Option String → Bool
passes test none = false
passes test (some s) = test s

-- The forms of text, of the request as it is and of what the first rule captured.
abbrev pub exact_text : Bool → String → String
exact_text false p = "req.url.path == '" <> p <> "'"
exact_text true p = "vars.original_path == '" <> p <> "'"

abbrev pub prefix_text : Bool → String → String
prefix_text false p = "req.url.path.startsWith('" <> p <> "')"
prefix_text true p = "vars.original_path.startsWith('" <> p <> "')"

abbrev pub headers_text : Bool → String
headers_text false = "req.headers"
headers_text true = "vars.original_headers.decodeJson()"

abbrev pub query_params_text : Bool → String
query_params_text false = "req.url.query_params"
query_params_text true = "vars.original_query_params.decodeJson()"

abbrev pub value_text : String → String → String → String
value_text m n v =
    m <> ".exists_one(x, x == '" <> n <> "') && " <> m <> "['" <> n <> "'].join(',') == '" <> v
    <> "'"

abbrev pub regex_text : String → String → String → String
regex_text m n v =
    m <> ".exists_one(x, x == '" <> n <> "') && " <> m <> "['" <> n <> "'].join(',').matches('" <> v
    <> "')"

-- The evaluation on one request. A text is a literal if it may stand between quotes as it is; the
-- language has the integers up to a limit.
pub record Engine : Type 0 where
  pub holds : String → Bool
  pub is_literal : String → Bool
  pub matches : String → String → Bool
  pub request : Request
  pub captured : Request
  pub matched_local : Bool
  pub draw : ℕ
  pub limit : ℕ

-- The request that the variables, or the fields of the request, show.
abbrev pub seen : Engine → Bool → Request
seen e false = e.request
seen e true = e.captured

pub record EngineLaws (e : Engine) : Type 0 where
  pub exact_path_law :
      (b : Bool) (p : String)
      → e.is_literal p ≡ true
      → e.holds (exact_text b p) ≡ ((seen e b).path == p)
  pub prefix_path_law :
      (b : Bool) (p : String)
      → e.is_literal p ≡ true
      → e.holds (prefix_text b p) ≡ begins_with (chars p) (chars (seen e b).path)
  pub header_law :
      (b : Bool) (n v : String)
      → e.is_literal n ≡ true
      → e.is_literal v ≡ true
      → e.holds (value_text (headers_text b) n v) ≡ passes (λ s. s == v) ((seen e b).header n)
  pub header_regex_law :
      (b : Bool) (n v : String)
      → e.is_literal n ≡ true
      → e.is_literal v ≡ true
      → e.holds (regex_text (headers_text b) n v)
        ≡ passes (λ s. e.matches s v) ((seen e b).header n)
  pub query_law :
      (b : Bool) (n v : String)
      → e.is_literal n ≡ true
      → e.is_literal v ≡ true
      → e.holds (value_text (query_params_text b) n v)
        ≡ passes (λ s. s == v) ((seen e b).query_param n)
  pub query_regex_law :
      (b : Bool) (n v : String)
      → e.is_literal n ≡ true
      → e.is_literal v ≡ true
      → e.holds (regex_text (query_params_text b) n v)
        ≡ passes (λ s. e.matches s v) ((seen e b).query_param n)
  pub method_law :
      (m : String)
      → e.is_literal m ≡ true
      → e.holds ("req.method == '" <> m <> "'") ≡ (e.request.method == m)
  pub local_law : e.holds "vars.request_matched_local_svc == false" ≡ not e.matched_local
  pub no_number : e.holds ("int(vars.weighted_route_random_num) <= " <> "-1") ≡ false
  pub at_most :
      (k : ℕ)
      → k < e.limit
      → e.holds ("int(vars.weighted_route_random_num) <= " <> decimal k) ≡ leb e.draw k
  pub between :
      (j k : ℕ)
      → j ≤ e.limit
      → k < e.limit
      → e.holds (
          "int(vars.weighted_route_random_num) >= "
          <> decimal j
          <> " && int(vars.weighted_route_random_num) <= "
          <> decimal k)
        ≡ (leb j e.draw && leb e.draw k)

-- When a request matches the criteria of a route; a path without the type `Exact` is a prefix, and a
-- header or parameter with an unknown type of value adds no condition.
abbrev pub path_matches : Request → Option IrPathMatchType → Option String → Bool
path_matches q t none = true
path_matches q (some IrPathMatchType.exact) (some p) = q.path == p
path_matches q _ (some p) = begins_with (chars p) (chars q.path)

abbrev pub value_matches :
    (String → String → Bool) → Option String → IrStringValueType → String → Bool
value_matches matches value IrStringValueType.exact v = passes (λ s. s == v) value
value_matches matches value IrStringValueType.regex v = passes (λ s. matches s v) value
value_matches matches value (IrStringValueType.other_value_type _) v = true

abbrev pub method_matches : Request → Option String → Bool
method_matches q none = true
method_matches q (some m) = q.method == m

abbrev pub request_matches : Engine → Bool → Option IrHttpMatch → Bool
request_matches e b none = true
request_matches e b (some m) =
    path_matches (seen e b) m.path_type m.path
    && (all (λ h. value_matches e.matches ((seen e b).header h.name) h.value_type h.value) m.headers
        && (all (λ h. value_matches e.matches ((seen e b).query_param h.name) h.value_type h.value)
              m.query_params
            && method_matches e.request m.method))

-- The texts in the criteria of a route are literals.
abbrev pub optional_literal : Engine → Option String → Bool
optional_literal e none = true
optional_literal e (some s) = e.is_literal s

abbrev pub literals : Engine → List IrHeaderMatch → Bool
literals e hs = all (λ h. e.is_literal h.name && e.is_literal h.value) hs

abbrev pub are_literals : Engine → Option IrHttpMatch → Bool
are_literals e none = true
are_literals e (some m) =
    optional_literal e m.path
    && (literals e m.headers && (literals e m.query_params && optional_literal e m.method))
