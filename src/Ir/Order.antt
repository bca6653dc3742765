-- ===== src/Ir/Order.antt =====
-- `SortRoutes` of internal/ir/ir.go: the most specific routes first.
-- A comparison answers with a verdict: `lt` where the code returns true, `gt` where it returns
-- false, and `eq` where it goes on to the next criterion.
pub mod Specificity
pub mod Laws
use Prim.Native.Nat.{Ordering}
use ngrok_operator.Common.{
  ℕ, String, ◌<>◌, len, Bool, true, false, not, Option, none, some, List, [], ◌∷◌, ◌==◌, nat_eq,
  string_eq, ltb, str_lt, length, if◌then◌else◌,
}
use ngrok_operator.Common.Compare.{and_then}
use ngrok_operator.Common.Sorting.{sort_by, try_sort_by, ◌>>=◌}
use ngrok_operator.Common.Sorting.Laws.{is_lt}
use ngrok_operator.Ir.{
  IrPathMatchType, IrStringValueType, IrHeaderMatch, IrHttpMatch, IrRoute, IrVirtualHost,
  value_type_text,
}

unfoldable pub path_type_order : IrPathMatchType → ℕ
path_type_order IrPathMatchType.exact = 0
path_type_order IrPathMatchType.prefix = 1
path_type_order IrPathMatchType.regex = 2
path_type_order (IrPathMatchType.other_path_type s) = 3

unfoldable pub header_value_type_order : IrStringValueType → ℕ
header_value_type_order IrStringValueType.exact = 0
header_value_type_order IrStringValueType.regex = 1
header_value_type_order (IrStringValueType.other_value_type s) = 2

-- The verdict of `return b`.
abbrev pub verdict : Bool → Ordering
verdict true = Ordering.lt
verdict false = Ordering.gt

-- The comparators of `headersToString` and `queryParamsToString`.
unfoldable pub header_less : IrHeaderMatch → IrHeaderMatch → Bool
unfolding header_value_type_order
header_less a b =
    let vi = header_value_type_order a.value_type in
    let vj = header_value_type_order b.value_type in
    if not (a.name == b.name)
    then str_lt a.name b.name
    else if not (vi == vj)
    then ltb vi vj
    else str_lt a.value b.value

concat_headers : List IrHeaderMatch → String
concat_headers [] = ""
concat_headers (h ∷ hs) =
    h.name <> ":" <> value_type_text h.value_type <> ":" <> h.value <> ";" <> concat_headers hs

unfoldable pub headers_to_string : List IrHeaderMatch → String
unfolding concat_headers header_less sort_by value_type_text
headers_to_string headers = concat_headers (sort_by header_less headers)

-- 1. Paths, once the path types have been read.
typed_paths : ℕ → String → ℕ → String → Ordering
typed_paths order_i p order_j q =
    if not (order_i == order_j)
    then verdict (ltb order_i order_j)
    else if not (len p == len q)
    then verdict (ltb (len q) (len p))
    else if not (p == q)
    then verdict (str_lt p q)
    else Ordering.eq

-- Reading a nil path type panics.
by_path :
    Option String
    → Option IrPathMatchType
    → Option String
    → Option IrPathMatchType
    → Option Ordering
unfolding typed_paths path_type_order
by_path (some p) _ none _ = some Ordering.lt
by_path none _ (some q) _ = some Ordering.gt
by_path none _ none _ = some Ordering.eq
by_path (some p) (some s) (some q) (some t) =
    some (typed_paths (path_type_order s) p (path_type_order t) q)
by_path (some p) none (some q) _ = none
by_path (some p) (some s) (some q) none = none

-- 2. and 3. Headers and query parameters.
unfoldable pub by_headers : List IrHeaderMatch → List IrHeaderMatch → Ordering
unfolding headers_to_string
by_headers (_ ∷ _) [] = Ordering.lt
by_headers [] (_ ∷ _) = Ordering.gt
by_headers [] [] = Ordering.eq
by_headers (h ∷ hs) (k ∷ ks) =
    let s = headers_to_string (h ∷ hs) in
    let t = headers_to_string (k ∷ ks) in if not (s == t) then verdict (str_lt s t) else Ordering.eq

-- 4. Methods.
unfoldable pub by_method : Option String → Option String → Ordering
by_method (some m) none = Ordering.lt
by_method none (some n) = Ordering.gt
by_method (some m) (some n) = if not (m == n) then verdict (str_lt m n) else Ordering.eq
by_method none none = Ordering.eq

-- The comparison of two sets of criteria; a tie keeps the original order.
compare_matches : IrHttpMatch → IrHttpMatch → Option Ordering
unfolding by_path by_headers by_method
compare_matches mi mj = by_path mi.path mi.path_type mj.path mj.path_type >>= λ o. some (
    and_then o (
      and_then (by_headers mi.headers mj.headers)
        (and_then (by_headers mi.query_params mj.query_params) (by_method mi.method mj.method))))

criteria_less : Option IrHttpMatch → Option IrHttpMatch → Option Bool
unfolding compare_matches
criteria_less none none = some false
criteria_less none (some mj) = some false
criteria_less (some mi) none = some true
criteria_less (some mi) (some mj) = compare_matches mi mj >>= λ o. some (is_lt o)

unfoldable pub route_less : IrRoute → IrRoute → Option Bool
unfolding criteria_less
route_less i j = criteria_less i.http_match_criteria j.http_match_criteria

unfoldable pub sort_routes : IrVirtualHost → Option IrVirtualHost
unfolding route_less try_sort_by
sort_routes h = try_sort_by route_less h.routes >>= λ rs. some (record h { routes = rs })
