-- ===== src/Ir/Service/Laws.antt =====
-- `UniqueServiceCount` of internal/ir/ir.go, against the keys of the services.
use ngrok_operator.Common.{
  suc, ◌+◌, String, Bool, true, List, [], ◌∷◌, ◌++◌, string_eq, lookup, insert, lookup-insert,
  length, contains, if◌then◌else◌, ◌≡◌, ◌≢◌, refl, arith, eq_iff, Bool-cases, inl, inr, is_some,
}
use ngrok_operator.Ir.{IrVirtualHost}
use ngrok_operator.Ir.Service.{add_key, add_keys, route_keys, default_keys, unique_service_count}

-- The elements of a list that were not seen before, each at its first occurrence.
abbrev pub distinct_from : List String → List String → List String
distinct_from seen [] = []
distinct_from seen (k ∷ ks) =
    let rest = distinct_from seen ks in
    let more = distinct_from (k ∷ seen) ks in if contains seen k then rest else k ∷ more

abbrev pub distinct : List String → List String
distinct = distinct_from []

length-insert :
    (k : String) (m : List (String × Bool))
    → length (insert k true m) ≡ (if is_some (lookup k m) then length m else suc (length m))
unfolding insert lookup
length-insert k [] = refl
length-insert k ((j, v) ∷ m) = ground (arith, length-insert k m)

-- The map holds the keys that were seen.
abbrev Seen : List String → List (String × Bool) → Type 0
Seen seen m = (j : String) → is_some (lookup j m) ≡ contains seen j

Seen-add :
    (seen : List String) (m : List (String × Bool)) (k : String)
    → Seen seen m
    → Seen (k ∷ seen) (insert k true m)
Seen-add seen m k h j = ground (arith, h j, lookup-insert k j true m)

Seen-again :
    (seen : List String) (m : List (String × Bool)) (k : String)
    → contains seen k ≡ true
    → Seen seen m
    → Seen seen (insert k true m)
Seen-again seen m k c h j = ground (arith, h j, h k, lookup-insert k j true m, eq_iff k j)

length-add_keys :
    (seen ks : List String) (m : List (String × Bool))
    → Seen seen m
    → length (add_keys ks m) ≡ length m + length (distinct_from seen ks)
unfolding add_keys add_key
length-add_keys seen [] m h = omega arith
length-add_keys seen (k ∷ ks) m h = elim (Bool-cases (contains seen k)) [
  | inl old ↦
      let ih = length-add_keys seen ks (insert k true m) (Seen-again seen m k old h) in
      ground (arith, ih, length-insert k m, h k)
  | inr new ↦
      let ih = length-add_keys (k ∷ seen) ks (insert k true m) (Seen-add seen m k h) in
      ground (arith, ih, length-insert k m, h k)
]

-- The number is that of the distinct keys of the services behind the routes and the default
-- destination.
pub unique_service_count-distinct :
    (v : IrVirtualHost)
    → unique_service_count v
      ≡ length (distinct (route_keys v.routes ++ default_keys v.default_destination))
unfolding unique_service_count
unique_service_count-distinct v =
    let ks = route_keys v.routes ++ default_keys v.default_destination in
    omega (arith, length-add_keys [] ks [] (λ j. unfold lookup in refl))

-- It is zero only without any service.
pub unique_service_count-ne-zero :
    (v : IrVirtualHost) (k : String)
    → contains (route_keys v.routes ++ default_keys v.default_destination) k ≡ true
    → unique_service_count v ≢ 0
unique_service_count-ne-zero v k c =
    rw unique_service_count-distinct
      (nonempty (route_keys v.routes ++ default_keys v.default_destination) c)
  where
    nonempty : (ks : List String) → contains ks k ≡ true → length (distinct ks) ≢ 0
    nonempty [] e = cc
    nonempty (j ∷ ks) e = ground arith
