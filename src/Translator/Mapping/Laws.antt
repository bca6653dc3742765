-- ===== src/Translator/Mapping/Laws.antt =====
-- `validateMappingStrategies`: which services are chosen, and what else changes.
use ngrok_operator.Common.{
  ℕ, zero, suc, ◌+◌, String, Bool, true, ◌&&◌, Option, none, some, List, [], ◌∷◌, ◌++◌, map, ◌==◌,
  nat_eq, string_eq, lookup, insert, lookup-insert, length, contains, if◌then◌else◌, ◌≡◌, refl, ap,
  ◌⊎◌, arith, eq_iff, All, Bool-cases, inl, inr, any,
}
use ngrok_operator.Ir.{IrVirtualHost}
use ngrok_operator.Ir.Service.{route_keys, default_keys}
use ngrok_operator.Translator.Mapping.{
  Users, users_at, service_keys, collect_users, is_collapsed, host_at, collapsed_at, is_collapsable,
  keys, mark_collapsable, is_marked, collapse_routes, collapse_default, collapse_host,
  collapse_hosts, collapsable_services, validate_mapping_strategies,
}
use ngrok_operator.Translator.Mapping.Users.{users_of, collected, contains-users_of}

is_marked-mark :
    (vs : List IrVirtualHost) (users : Users) (ks : List String) (m : List (String × Bool))
    → ((k : String) → is_marked m k ≡ true → is_collapsable vs (users_at users k) ≡ true)
    → (k : String) → is_marked (mark_collapsable vs users ks m) k ≡ true
    → is_collapsable vs (users_at users k) ≡ true
unfolding mark_collapsable
is_marked-mark vs users [] m h k e = h k e
is_marked-mark vs users (j ∷ ks) m h k e =
    is_marked-mark vs users ks (if is_collapsable vs (users_at users j) then insert j true m else m)
      step k e
  where
    step :
        (i : String)
        → is_marked (if is_collapsable vs (users_at users j) then insert j true m else m) i ≡ true
        → is_collapsable vs (users_at users i) ≡ true
    step i p = ground (arith, h i, lookup-insert j i true m, eq_iff j i)

is_marked-collapsable :
    (vs : List IrVirtualHost) (k : String)
    → is_marked (collapsable_services vs) k ≡ true
    → is_collapsable vs (users_of k 0 vs) ≡ true
unfolding collapsable_services lookup
is_marked-collapsable vs k e =
    rw collected at
      (is_marked-mark vs (collect_users [] 0 vs) (keys (collect_users [] 0 vs)) [] (λ j p. cc) k e)

-- A service can be collapsed into when it has one user, whose strategy is collapsed.
is_collapsable_inv :
    (vs : List IrVirtualHost) (s : List ℕ)
    → is_collapsable vs s ≡ true
    → (i : ℕ) × (s ≡ i ∷ []) × (collapsed_at (host_at vs i) ≡ true)
unfolding is_collapsable
is_collapsable_inv vs [] e = cc
is_collapsable_inv vs (i ∷ []) e = (i, refl, ground arith)
is_collapsable_inv vs (i ∷ j ∷ s) e =
    absurd (not_one (λ n. collapsed_at (host_at vs n)) (i ∷ j ∷ s) e)
  where
    not_one : (p : ℕ → Bool) (r : List ℕ) → any (λ n. length (i ∷ j ∷ s) == 1 && p n) r ≡ true → ⊥
    not_one p [] h = cc
    not_one p (x ∷ r) h = not_one p r (ground arith)

collapse_routes_inv :
    (m : List (String × Bool)) (ks : List String) (chosen : Option String) (k : String)
    → collapse_routes m ks chosen ≡ some k
    → (chosen ≡ some k) ⊎ ((is_marked m k ≡ true) × (contains ks k ≡ true))
unfolding collapse_routes
collapse_routes_inv m [] chosen k e = inl e
collapse_routes_inv m (j ∷ ks) chosen k e = ground (
  arith,
  eq_iff j k,
  eq_iff k k,
  collapse_routes_inv m ks (if is_marked m j then some j else chosen) k,
)

pub contains-append :
    (ks js : List String) (k : String)
    → contains (ks ++ js) k ≡ true
    → (contains ks k ≡ true) ⊎ (contains js k ≡ true)
contains-append [] js k e = inr e
contains-append (x ∷ ks) js k e = ground (arith, contains-append ks js k)

contains-append_left :
    (ks js : List String) (k : String) → contains ks k ≡ true → contains (ks ++ js) k ≡ true
contains-append_left [] js k e = cc
contains-append_left (x ∷ ks) js k e = ground (arith, contains-append_left ks js k)

contains-append_right :
    (ks js : List String) (k : String) → contains js k ≡ true → contains (ks ++ js) k ≡ true
contains-append_right [] js k e = e
contains-append_right (x ∷ ks) js k e = ground (arith, contains-append_right ks js k)

collapse_default_inv :
    (m : List (String × Bool)) (ks : List String) (chosen : Option String) (k : String)
    → (collapse_default m ks chosen).0 ≡ some k
    → (chosen ≡ some k) ⊎ ((is_marked m k ≡ true) × (contains ks k ≡ true))
unfolding collapse_default
collapse_default_inv m [] chosen k e = inl e
collapse_default_inv m (j ∷ ks) chosen k e = ground (arith, eq_iff j k, eq_iff k k)

-- A virtual host that had no service to collapse into, and has one now, is collapsed by strategy,
-- and the service is one of its own.
record Chosen (m : List (String × Bool)) (v : IrVirtualHost) (k : String) : Type 0 where
  strategy : is_collapsed v.mapping_strategy ≡ true
  marked : is_marked m k ≡ true
  own : contains (service_keys v) k ≡ true

collapse_host_inv :
    (m : List (String × Bool)) (v : IrVirtualHost) (k : String)
    → v.collapse_into_service_key ≡ none
    → (collapse_host m v).0.collapse_into_service_key ≡ some k
    → Chosen m v k
unfolding collapse_host service_keys
collapse_host_inv m v k clear e = record {
  strategy = ground arith;
  marked = ground (
    arith,
    collapse_default_inv m (default_keys v.default_destination)
        (collapse_routes m (route_keys v.routes) v.collapse_into_service_key) k,
    collapse_routes_inv m (route_keys v.routes) v.collapse_into_service_key k,
  );
  own = ground (
    arith,
    collapse_default_inv m (default_keys v.default_destination)
        (collapse_routes m (route_keys v.routes) v.collapse_into_service_key) k,
    collapse_routes_inv m (route_keys v.routes) v.collapse_into_service_key k,
    contains-append_left (route_keys v.routes) (default_keys v.default_destination) k,
    contains-append_right (route_keys v.routes) (default_keys v.default_destination) k,
  );
}

-- Each virtual host is passed on as it is or goes through the body of the loop.
host_at-collapse_hosts :
    (m : List (String × Bool)) (vs : List IrVirtualHost) (i : ℕ) (v' : IrVirtualHost)
    → host_at (collapse_hosts m vs) i ≡ some v'
    → (v : IrVirtualHost) × (host_at vs i ≡ some v) × ((v' ≡ v) ⊎ (v' ≡ (collapse_host m v).0))
unfolding host_at collapse_hosts
host_at-collapse_hosts m [] i v' e = cc
host_at-collapse_hosts m (w ∷ vs) zero v' e = (w, refl, ground arith)
host_at-collapse_hosts m (w ∷ vs) (suc i) v' e = elim (Bool-cases (collapse_host m w).1) [
  | inl stop ↦ (v', ground arith, inl refl)
  | inr more ↦ host_at-collapse_hosts m vs i v' (ground arith)
]

abbrev pub IsClear : IrVirtualHost → Type 0
IsClear v = v.collapse_into_service_key ≡ none

host_at-IsClear :
    (vs : List IrVirtualHost) (i : ℕ) (v : IrVirtualHost)
    → All IsClear vs
    → host_at vs i ≡ some v
    → IsClear v
unfolding host_at
host_at-IsClear [] i v h e = cc
host_at-IsClear (w ∷ vs) zero v (p, h) e = ground arith
host_at-IsClear (w ∷ vs) (suc i) v (p, h) e = host_at-IsClear vs i v h e

collapse_host-same :
    (m : List (String × Bool)) (v : IrVirtualHost)
    → (collapse_host m v).0
      ≡ record v { collapse_into_service_key = (collapse_host m v).0.collapse_into_service_key }
unfolding collapse_host
collapse_host-same m v = ground arith

collapse_host-strategy :
    (m : List (String × Bool)) (v : IrVirtualHost)
    → (collapse_host m v).0.mapping_strategy ≡ v.mapping_strategy
collapse_host-strategy m v = ap (λ (w : IrVirtualHost). w.mapping_strategy) (collapse_host-same m v)

one_user :
    (vs : List IrVirtualHost) (i : ℕ) (v : IrVirtualHost) (k : String)
    → host_at vs i ≡ some v
    → Chosen (collapsable_services vs) v k
    → users_of k 0 vs ≡ i ∷ []
one_user vs i v k at c =
    let (j, one, _) =
      is_collapsable_inv vs (users_of k 0 vs) (is_marked-collapsable vs k c.marked) in
    let has : contains (users_of k 0 vs) (0 + i) ≡ true = contains-users_of k 0 i vs v at c.own in
    ground arith

-- If no virtual host has a service to collapse into at first, then a virtual host that gets one
-- has the collapsed strategy, and is the only one of all virtual hosts that routes to that service,
-- by a route or by its default destination.
pub validate_mapping_strategies_exclusive :
    (vs : List IrVirtualHost) (i : ℕ) (v' : IrVirtualHost) (k : String)
    → All IsClear vs
    → host_at (validate_mapping_strategies vs) i ≡ some v'
    → v'.collapse_into_service_key ≡ some k
    → (users_of k 0 vs ≡ i ∷ []) × (is_collapsed v'.mapping_strategy ≡ true)
unfolding validate_mapping_strategies
validate_mapping_strategies_exclusive vs i v' k clear at e =
    let m = collapsable_services vs in
    let (v, was, from) = host_at-collapse_hosts m vs i v' at in
    let none_yet = host_at-IsClear vs i v clear was in
    elim from [
      | inl same ↦ absurd (ground arith)
      | inr new ↦
          let c = collapse_host_inv m v k none_yet (rw new at e) in
          (one_user vs i v k was c, rw (new, collapse_host-strategy m v) c.strategy)
    ]

-- A virtual host without its choice.
abbrev pub forget : IrVirtualHost → IrVirtualHost
forget v = record v { collapse_into_service_key = none }

forget-collapse_hosts :
    (m : List (String × Bool)) (vs : List IrVirtualHost)
    → map forget (collapse_hosts m vs) ≡ map forget vs
unfolding collapse_hosts
forget-collapse_hosts m [] = refl
forget-collapse_hosts m (v ∷ vs) =
    let same : forget (collapse_host m v).0 ≡ forget v = ap forget (collapse_host-same m v) in
    ground (arith, forget-collapse_hosts m vs)

-- Whatever the virtual hosts, the function changes no field but the choice, and keeps their number
-- and their order.
pub map-forget-validate_mapping_strategies :
    (vs : List IrVirtualHost) → map forget (validate_mapping_strategies vs) ≡ map forget vs
unfolding validate_mapping_strategies
map-forget-validate_mapping_strategies vs = forget-collapse_hosts (collapsable_services vs) vs
