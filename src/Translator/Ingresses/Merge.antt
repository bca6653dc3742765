-- ===== src/Translator/Ingresses/Merge.antt =====
-- `MergeMetadata` of internal/ir/ir.go over what `encoding/json` does: reading an object, or nothing
-- for a text that holds none, and writing one.
use ngrok_operator.Common.{
  String, Option, none, some, List, [], ◌∷◌, ◌==◌, string_eq, insert, if◌then◌else◌,
}
use ngrok_operator.Policy.{Value}

pub record Json : Type 0 where
  pub parse : String → Option (List (String × Value))
  pub print : List (String × Value) → String

-- `maps.Copy`.
copy : List (String × Value) → List (String × Value) → List (String × Value)
unfolding insert
copy base [] = base
copy base ((k, v) ∷ m) = copy (insert k v base) m

object_or_empty : Option (List (String × Value)) → List (String × Value)
object_or_empty none = []
object_or_empty (some m) = m

base_object : Json → String → List (String × Value)
unfolding object_or_empty
base_object json base = if base == "" then [] else object_or_empty (json.parse base)

merge_objects : Json → String → Option (List (String × Value)) → String
unfolding base_object copy
merge_objects json base none = base
merge_objects json base (some m) = json.print (copy (base_object json base) m)

unfoldable pub merge_metadata : Json → String → String → String
unfolding merge_objects
merge_metadata json base override =
    if override == "" then base else merge_objects json base (json.parse override)
