-- ===== src/Ir/Order/Laws.antt =====
-- `SortRoutes` of internal/ir/ir.go, against the order of Specificity.
use Prim.Native.Nat.{Ordering}
use Prim.Native.String.{compare as text_compare}
use mathlib.Core.List.{Perm}
use ngrok_operator.Common.{
  ℕ, String, Option, none, some, List, [], ◌∷◌, ◌≡◌, refl, ap, Bool, false, arith, str_lt, ◌==◌,
  string_eq, nat_eq, not, if◌then◌else◌, All, ◌≢◌, keep,
}
use ngrok_operator.Common.Compare.{present_first}
use ngrok_operator.Common.Sorting.{sort_by}
use ngrok_operator.Common.Sorting.Laws.{
  is_lt, is_tie, IsSorted, sort_by-perm, sort_by-IsSorted, All-sort_by, ties-sort_by,
  try_sort_by-eq,
}
use ngrok_operator.Ir.{IrPathMatchType, IrHeaderMatch, IrHttpMatch, IrRoute, IrVirtualHost}
use ngrok_operator.Ir.Order.{
  path_type_order, verdict, typed_paths, by_path, by_headers, by_method, compare_matches,
  criteria_less, route_less, sort_routes,
}
use ngrok_operator.Ir.Order.Specificity.{
  path_key, compare_paths, headers_key, compare_texts, compare_criteria, compare_routes,
  compare_routes-IsComparison,
}

-- Every path has a type, as `SortRoutes` assumes when it reads the type.
abbrev IsTypedMatch : Option IrHttpMatch → Type 0
IsTypedMatch none = Unit
IsTypedMatch (some m) = (m.path ≢ none) → (m.path_type ≢ none)

abbrev pub IsTyped : IrRoute → Type 0
IsTyped r = IsTypedMatch r.http_match_criteria

-- The test for inequality and the order of texts together are the comparison.
text_verdict :
    (s t : String) → (if not (s == t) then verdict (str_lt s t) else Ordering.eq) ≡ text_compare s t
text_verdict s t = ground arith

by_headers-eq :
    (hs ks : List IrHeaderMatch)
    → by_headers hs ks ≡ compare_texts (headers_key hs) (headers_key ks)
unfolding by_headers
by_headers-eq [] [] = refl
by_headers-eq [] (k ∷ ks) = refl
by_headers-eq (h ∷ hs) [] = refl
by_headers-eq (h ∷ hs) (k ∷ ks) = text_verdict _ _

by_method-eq : (m n : Option String) → by_method m n ≡ compare_texts m n
unfolding by_method
by_method-eq none none = refl
by_method-eq none (some n) = refl
by_method-eq (some m) none = refl
by_method-eq (some m) (some n) = text_verdict m n

typed_paths-eq : (i j : ℕ) (p q : String) → typed_paths i p j q ≡ compare_paths (i, p) (j, q)
unfolding typed_paths
typed_paths-eq i j p q = ground (arith, text_verdict p q)

by_path-eq :
    (p : Option String) (s : Option IrPathMatchType) (q : Option String)
    (t : Option IrPathMatchType)
    → (p ≢ none → s ≢ none)
    → (q ≢ none → t ≢ none)
    → by_path p s q t ≡ some (present_first compare_paths (path_key p s) (path_key q t))
unfolding by_path
by_path-eq none s none t h k = refl
by_path-eq none s (some q) none h k = refl
by_path-eq none s (some q) (some t) h k = refl
by_path-eq (some p) none none t h k = refl
by_path-eq (some p) (some s) none t h k = refl
by_path-eq (some p) none (some q) t h k = absurd (h (λ e. cc) refl)
by_path-eq (some p) (some s) (some q) none h k = absurd (k (λ e. cc) refl)
by_path-eq (some p) (some s) (some q) (some t) h k =
    ap some (typed_paths-eq (path_type_order s) (path_type_order t) p q)

compare_matches-eq :
    (a b : IrHttpMatch)
    → IsTypedMatch (some a)
    → IsTypedMatch (some b)
    → compare_matches a b ≡ some (compare_criteria a b)
unfolding compare_matches
compare_matches-eq a b ta tb =
    simp (by_path-eq a.path a.path_type b.path b.path_type ta tb, by_headers-eq, by_method-eq)

route_cases :
    (a b : Option IrHttpMatch)
    → IsTypedMatch a
    → IsTypedMatch b
    → criteria_less a b ≡ some (is_lt (present_first compare_criteria a b))
unfolding criteria_less
route_cases none none ta tb = refl
route_cases none (some b) ta tb = refl
route_cases (some a) none ta tb = refl
route_cases (some a) (some b) ta tb = rw (compare_matches-eq a b ta tb)

-- On typed routes the comparator does not panic, and answers by specificity.
route_less-eq :
    (i j : IrRoute) → IsTyped i → IsTyped j → route_less i j ≡ some (is_lt (compare_routes i j))
unfolding route_less
route_less-eq i j ti tj = route_cases i.http_match_criteria j.http_match_criteria ti tj

-- The routes that a sort by specificity returns.
abbrev before : IrRoute → IrRoute → Bool
before i j = is_lt (compare_routes i j)

sort_routes-eq :
    (h : IrVirtualHost)
    → All IsTyped h.routes
    → sort_routes h ≡ some (record h { routes = sort_by before h.routes })
unfolding sort_routes
sort_routes-eq h typed = rw (try_sort_by-eq IsTyped route_less before route_less-eq h.routes typed)

-- No later route goes before an earlier one, by the program's own comparator.
abbrev pub IsOrdered : List IrRoute → Type 0
IsOrdered [] = Unit
IsOrdered (x ∷ xs) = All (λ y. route_less y x ≡ some false) xs × IsOrdered xs

All-IsOrdered :
    (x : IrRoute) (l : List IrRoute)
    → IsTyped x
    → All IsTyped l
    → All (λ y. compare_routes y x ≢ Ordering.lt) l
    → All (λ y. route_less y x ≡ some false) l
All-IsOrdered x [] t ts h = tt
All-IsOrdered x (y ∷ ys) t (u, us) (h, hs) =
    (ground (arith, route_less-eq y x u t), All-IsOrdered x ys t us hs)

IsOrdered-of_IsSorted : (l : List IrRoute) → All IsTyped l → IsSorted compare_routes l → IsOrdered l
IsOrdered-of_IsSorted [] t s = tt
IsOrdered-of_IsSorted (x ∷ xs) (t, ts) (s, ss) =
    (All-IsOrdered x xs t ts s, IsOrdered-of_IsSorted xs ts ss)

-- What `SortRoutes` promises: it does not panic; the routes are the same ones; none is behind a
-- route that the comparator puts after it; routes that are equally specific keep their order; and
-- the rest of the virtual host is unchanged.
pub record IsSortOf (h h' : IrVirtualHost) : Type 0 where
  pub same_routes : Perm h'.routes h.routes
  pub ordered : IsOrdered h'.routes
  pub stable :
      (a : IrRoute)
      → keep (λ b. is_tie (compare_routes a b)) h'.routes
        ≡ keep (λ b. is_tie (compare_routes a b)) h.routes
  pub rest : h' ≡ record h { routes = h'.routes }

-- If every route with a path has a path type, `SortRoutes` returns, and what it returns is a
-- stable permutation of the routes in the order of the comparator, all else unchanged.
pub sort_routes-IsSortOf :
    (h : IrVirtualHost)
    → All IsTyped h.routes
    → (h' : IrVirtualHost) × (sort_routes h ≡ some h') × IsSortOf h h'
sort_routes-IsSortOf h typed = (
  record h { routes = sort_by before h.routes },
  sort_routes-eq h typed,
  record {
    same_routes = sort_by-perm before h.routes;
    ordered =
        IsOrdered-of_IsSorted (sort_by before h.routes) (All-sort_by IsTyped before h.routes typed)
          (sort_by-IsSorted compare_routes-IsComparison h.routes);
    stable = λ a. ties-sort_by compare_routes-IsComparison a h.routes;
    rest = refl;
  },
)
