-- ===== src/Examples/Policies.antt =====
-- Policies, names, expressions and weights.
use ngrok_operator.Common.{String, false, string_eq, ◌≡◌, refl, arith}
use ngrok_operator.Policy.{is_empty}
use ngrok_operator.Names.{sanitize_string_for_k8s_name, chars}
use ngrok_operator.Names.Laws.{IsName, IsHex, sanitize_string_for_k8s_name-IsName}
use ngrok_operator.Examples.Data.{denying, digits}

is_empty_test : is_empty denying ≡ false
unfolding is_empty
is_empty_test = refl

digits-IsHex : (s : String) → IsHex (digits s)
digits-IsHex s = record {
  digits = (refl, (refl, (refl, (refl, (refl, (refl, (refl, (refl, tt))))))));
  long = omega arith;
}

sanitize_string_for_k8s_name-IsName_example :
    IsName (chars (sanitize_string_for_k8s_name digits "*.Shop.test--"))
sanitize_string_for_k8s_name-IsName_example =
    sanitize_string_for_k8s_name-IsName digits digits-IsHex "*.Shop.test--"
