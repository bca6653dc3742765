-- ===== src/Endpoints/Internal.antt =====
-- `IsInternalDomain` of internal/util/endpoints.go.
use Prim.Native.Char.{Char, code}
use ngrok_operator.Common.{
  Bool, true, false, ◌&&◌, ◌||◌, List, [], ◌∷◌, ◌==◌, nat_eq, string_eq, leb, if◌then◌else◌, ◌≡◌,
  refl,
}
use ngrok_operator.Names.{chars, lower}
use ngrok_operator.Endpoints.{same_chars}

-- The white space of `strings.TrimSpace`.
is_space : Char → Bool
is_space c =
    let n = code c in
    (leb 9 n && leb n 13)
    || (n == 0x20 || n == 0x85 || n == 0xa0 || n == 0x1680)
    || (leb 0x2000 n && leb n 0x200a)
    || (n == 0x2028 || n == 0x2029 || n == 0x202f || n == 0x205f || n == 0x3000)

trim_left : List Char → List Char
unfolding is_space
trim_left [] = []
trim_left (c ∷ cs) = let rest = trim_left cs in if is_space c then rest else c ∷ cs

-- A space at the end goes with those behind it.
trim_right : List Char → List Char
unfolding is_space
trim_right [] = []
trim_right (c ∷ cs) = elim (trim_right cs) [
  | [] ↦ if is_space c then [] else c ∷ []
  | d ∷ ds ↦ c ∷ d ∷ ds
]

-- `strings.TrimSuffix(s, ".")`
trim_dot : List Char → List Char
trim_dot [] = []
trim_dot (c ∷ []) = if code c == b'.' then [] else c ∷ []
trim_dot (c ∷ d ∷ ds) = c ∷ trim_dot (d ∷ ds)

lower_each : List Char → List Char
unfolding lower
lower_each [] = []
lower_each (c ∷ cs) = lower c ∷ lower_each cs

-- `strings.HasSuffix`
has_suffix : List Char → List Char → Bool
has_suffix suffix [] = same_chars suffix []
has_suffix suffix (c ∷ cs) = same_chars suffix (c ∷ cs) || has_suffix suffix cs

unfoldable pub is_internal_domain : List Char → Bool
unfolding trim_left trim_right trim_dot lower_each has_suffix
is_internal_domain host =
    has_suffix (chars ".internal") (lower_each (trim_dot (trim_right (trim_left host))))

internal_tests :
    (is_internal_domain (chars " Api.INTERNAL. ") ≡ true)
    × (is_internal_domain (chars "internal.example.com") ≡ false)
    × (is_internal_domain (chars "internal") ≡ false)
unfolding is_internal_domain
internal_tests = (refl, refl, refl)
