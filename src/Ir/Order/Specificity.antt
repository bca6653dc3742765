-- ===== src/Ir/Order/Specificity.antt =====
-- How specific a route is: the order of the comment above `SortRoutes`, built from total preorders
-- and stated apart from the comparator. What the code reads of a route is its key.
use Prim.Native.Nat.{Ordering, compare}
use Prim.Native.String.{compare as text_compare}
use ngrok_operator.Common.{ℕ, String, len, Option, none, some, List, [], ◌∷◌, string_eq}
use ngrok_operator.Common.Compare.{
  and_then, present_first, IsComparison, compare-IsComparison, text-IsComparison, IsComparison-on,
  IsComparison-flip, IsComparison-then, IsComparison-present_first,
}
use ngrok_operator.Ir.{IrPathMatchType, IrHeaderMatch, IrHttpMatch, IrRoute}
use ngrok_operator.Ir.Order.{path_type_order, headers_to_string}

-- A path with its type; a path with no type has no place in the order.
abbrev pub path_key : Option String → Option IrPathMatchType → Option (ℕ × String)
path_key none _ = none
path_key (some p) none = some (3, p)
path_key (some p) (some t) = some (path_type_order t, p)

-- Exact before prefix before regex, then longer before shorter, then by the text.
abbrev pub compare_paths : ℕ × String → ℕ × String → Ordering
compare_paths a b =
    and_then (compare a.0 b.0) (and_then (compare (len b.1) (len a.1)) (text_compare a.1 b.1))

compare_paths-IsComparison : IsComparison compare_paths
compare_paths-IsComparison =
    IsComparison-then (IsComparison-on (λ (a : ℕ × String). a.0) compare-IsComparison) (
      IsComparison-then
        (IsComparison-flip (IsComparison-on (λ (a : ℕ × String). len a.1) compare-IsComparison))
        (IsComparison-on (λ (a : ℕ × String). a.1) text-IsComparison))

-- A list of matchers by its normal form; the empty list has none.
abbrev pub headers_key : List IrHeaderMatch → Option String
headers_key [] = none
headers_key (h ∷ hs) = some (headers_to_string (h ∷ hs))

abbrev pub compare_texts : Option String → Option String → Ordering
compare_texts = present_first text_compare

compare_texts-IsComparison : IsComparison compare_texts
compare_texts-IsComparison = IsComparison-present_first text-IsComparison

-- Path, then headers, then query parameters, then method.
abbrev pub compare_criteria : IrHttpMatch → IrHttpMatch → Ordering
compare_criteria a b =
    and_then
      (present_first compare_paths (path_key a.path a.path_type) (path_key b.path b.path_type))
      (and_then (compare_texts (headers_key a.headers) (headers_key b.headers)) (
        and_then (compare_texts (headers_key a.query_params) (headers_key b.query_params))
          (compare_texts a.method b.method)))

compare_criteria-IsComparison : IsComparison compare_criteria
compare_criteria-IsComparison =
    IsComparison-then
      (IsComparison-on (λ (m : IrHttpMatch). path_key m.path m.path_type)
        (IsComparison-present_first compare_paths-IsComparison))
      (IsComparison-then
        (IsComparison-on (λ (m : IrHttpMatch). headers_key m.headers) compare_texts-IsComparison)
        (IsComparison-then
          (IsComparison-on (λ (m : IrHttpMatch). headers_key m.query_params)
            compare_texts-IsComparison)
          (IsComparison-on (λ (m : IrHttpMatch). m.method) compare_texts-IsComparison)))

-- A route with criteria goes before one with none.
abbrev pub compare_routes : IrRoute → IrRoute → Ordering
compare_routes i j = present_first compare_criteria i.http_match_criteria j.http_match_criteria

pub compare_routes-IsComparison : IsComparison compare_routes
compare_routes-IsComparison =
    IsComparison-on (λ (r : IrRoute). r.http_match_criteria)
      (IsComparison-present_first compare_criteria-IsComparison)
