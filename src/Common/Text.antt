-- ===== src/Common/Text.antt =====
-- The order of texts, and numbers in decimal. Go compares strings byte by byte, as the native
-- `compare` does.
use Prim.Native.Nat.{ℕ, zero, suc, ◌+◌, ◌/◌, ◌%◌, Ordering}
use Prim.Native.Char.{code}
use Prim.Native.String.{String, compare, slice}
use mathlib.Core.Path.{◌≡◌, refl}
use mathlib.Core.Bool.{Bool, true, false}
use mathlib.Core.List.{List, [], ◌∷◌}
use ngrok_operator.Common.Tests.{if◌then◌else◌, nat_eq, ltb}

-- The code points of a text.
abbrev pub codes : String → List ℕ
codes String.[] = []
codes (String.◌∷◌ c s) = code c ∷ codes s

-- `s < t` on strings
abbrev pub str_lt : String → String → Bool
str_lt s t = elim (compare s t) [ Ordering.lt ↦ true | _ ↦ false ]

-- The digit of a number below ten.
digit : ℕ → String
digit d = slice "0123456789" d (d + 1)

digits_of : ℕ → ℕ → String
digits_of zero n = ""
digits_of (suc f) n =
    let more = digits_of f (n / 10) in
    if ltb n 10 then digit n else Prim.Native.String.◌++◌ more (digit (n % 10))

-- `%d` of a number that is not negative; a number has at most as many digits as its value plus one.
unfoldable pub decimal : ℕ → String
unfolding digits_of digit
decimal n = digits_of (suc n) n

decimal_tests : (decimal 0 ≡ "0") × (decimal 8080 ≡ "8080")
unfolding decimal
decimal_tests = (refl, refl)
