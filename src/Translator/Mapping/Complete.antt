-- ===== src/Translator/Mapping/Complete.antt =====
-- `validateMappingStrategies` where no default destination has a service.
use ngrok_operator.Common.{
  ℕ, zero, suc, String, Bool, true, false, Option, none, some, List, [], ◌∷◌, nat_eq, string_eq,
  lookup, insert, lookup-insert, contains, if◌then◌else◌, ◌≡◌, ◌≢◌, refl, ◌⊎◌, arith, eq_iff, All,
  inl,
}
use ngrok_operator.Ir.{IrVirtualHost}
use ngrok_operator.Ir.Service.{route_keys, default_keys}
use ngrok_operator.Ir.Service.Laws.{unique_service_count-ne-zero}
use ngrok_operator.Translator.Mapping.{
  Users, users_at, service_keys, collect_users, is_collapsed, host_at, is_collapsable, keys,
  mark_collapsable, is_marked, collapse_routes, collapse_default, collapse_host, collapse_hosts,
  collapsable_services, validate_mapping_strategies,
}
use ngrok_operator.Translator.Mapping.Users.{users_of, collected}
use ngrok_operator.Translator.Mapping.Laws.{contains-append}

keeps_mark :
    (vs : List IrVirtualHost) (users : Users) (ks : List String) (m : List (String × Bool))
    (k : String)
    → is_marked m k ≡ true
    → is_marked (mark_collapsable vs users ks m) k ≡ true
unfolding mark_collapsable
keeps_mark vs users [] m k e = e
keeps_mark vs users (j ∷ ks) m k e =
    keeps_mark vs users ks (if is_collapsable vs (users_at users j) then insert j true m else m) k
      (ground (arith, lookup-insert j k true m, eq_iff j k))

makes_mark :
    (vs : List IrVirtualHost) (users : Users) (ks : List String) (m : List (String × Bool))
    (k : String)
    → contains ks k ≡ true
    → is_collapsable vs (users_at users k) ≡ true
    → is_marked (mark_collapsable vs users ks m) k ≡ true
unfolding mark_collapsable
makes_mark vs users [] m k c e = cc
makes_mark vs users (j ∷ ks) m k c e = ground (
  arith,
  eq_iff j k,
  keeps_mark vs users ks (insert j true m) k,
  makes_mark vs users ks (insert j true m) k,
  makes_mark vs users ks m k,
  lookup-insert j k true m,
)

contains-keys : (m : Users) (k : String) → users_at m k ≢ [] → contains (keys m) k ≡ true
unfolding keys users_at lookup
contains-keys [] k h = absurd (h refl)
contains-keys ((j, s) ∷ m) k h = ground (arith, contains-keys m k)

module _ (vs : List IrVirtualHost) (i : ℕ) (v : IrVirtualHost) (k : String)
    (at : host_at vs i ≡ some v) (strategy : is_collapsed v.mapping_strategy ≡ true)
    (one : users_of k 0 vs ≡ i ∷ []) where
  collapsable : is_collapsable vs (users_of k 0 vs) ≡ true
  unfolding is_collapsable
  collapsable = ground arith

  marked : is_marked (collapsable_services vs) k ≡ true
  unfolding collapsable_services
  marked =
      let users = collect_users [] 0 vs in
      makes_mark vs users (keys users) [] k
        (contains-keys users k (rw (collected vs k, one) (λ e. cc)))
        (rw (collected vs k) collapsable)

collapse_routes_found :
    (m : List (String × Bool)) (ks : List String) (chosen : Option String)
    → (k : String) → (chosen ≢ none) ⊎ ((is_marked m k ≡ true) × (contains ks k ≡ true))
    → collapse_routes m ks chosen ≢ none
unfolding collapse_routes
collapse_routes_found m [] chosen k e = ground arith
collapse_routes_found m (j ∷ ks) chosen k e =
    collapse_routes_found m ks (if is_marked m j then some j else chosen) k
      (step (is_marked m j) refl)
  where
    step :
        (b : Bool)
        → is_marked m j ≡ b
        → ((if is_marked m j then some j else chosen) ≢ none)
          ⊎ ((is_marked m k ≡ true) × (contains ks k ≡ true))
    step true p = inl (λ q. ground arith)
    step false p = ground (arith, eq_iff j k)

-- A virtual host with no service behind its default destination.
abbrev pub HasPlainDefault : IrVirtualHost → Type 0
HasPlainDefault v = default_keys v.default_destination ≡ []

collapse_host_goes_on :
    (m : List (String × Bool)) (v : IrVirtualHost)
    → HasPlainDefault v
    → (collapse_host m v).1 ≡ false
unfolding collapse_host collapse_default
collapse_host_goes_on m v h = ground arith

host_at-collapse_hosts_all :
    (m : List (String × Bool)) (vs : List IrVirtualHost) (i : ℕ) (v : IrVirtualHost)
    → All HasPlainDefault vs
    → host_at vs i ≡ some v
    → host_at (collapse_hosts m vs) i ≡ some (collapse_host m v).0
unfolding host_at collapse_hosts
host_at-collapse_hosts_all m [] i v h e = cc
host_at-collapse_hosts_all m (w ∷ vs) zero v (p, h) e = ground arith
host_at-collapse_hosts_all m (w ∷ vs) (suc i) v (p, h) e =
    ground (arith, collapse_host_goes_on m w p, host_at-collapse_hosts_all m vs i v h e)

has_plain :
    (vs : List IrVirtualHost) (i : ℕ) (v : IrVirtualHost)
    → All HasPlainDefault vs
    → host_at vs i ≡ some v
    → HasPlainDefault v
unfolding host_at
has_plain [] i v h e = cc
has_plain (w ∷ vs) zero v (p, h) e = ground arith
has_plain (w ∷ vs) (suc i) v (p, h) e = has_plain vs i v h e

chosen_service :
    (m : List (String × Bool)) (v : IrVirtualHost) (k : String)
    → is_collapsed v.mapping_strategy ≡ true
    → HasPlainDefault v
    → contains (service_keys v) k ≡ true
    → is_marked m k ≡ true
    → (collapse_host m v).0.collapse_into_service_key ≢ none
unfolding collapse_host collapse_default service_keys
chosen_service m v k strategy plain own mark = ground (
  arith,
  unique_service_count-ne-zero v k own,
  collapse_routes_found m (route_keys v.routes) v.collapse_into_service_key k,
  contains-append (route_keys v.routes) (default_keys v.default_destination) k,
)

-- If no virtual host has a service behind its default destination, then every virtual host with
-- the collapsed strategy that is the only one to route to some service gets a service to collapse
-- into.
pub validate_mapping_strategies_complete :
    (vs : List IrVirtualHost) (i : ℕ) (v : IrVirtualHost) (k : String)
    → All HasPlainDefault vs
    → host_at vs i ≡ some v
    → is_collapsed v.mapping_strategy ≡ true
    → contains (service_keys v) k ≡ true
    → users_of k 0 vs ≡ i ∷ []
    → (v' : IrVirtualHost) × (host_at (validate_mapping_strategies vs) i ≡ some v')
      × (v'.collapse_into_service_key ≢ none)
unfolding validate_mapping_strategies
validate_mapping_strategies_complete vs i v k plain at strategy own one =
    let m = collapsable_services vs in
    (
      (collapse_host m v).0,
      host_at-collapse_hosts_all m vs i v plain at,
      chosen_service m v k strategy (has_plain vs i v plain at) own
          (marked vs i v k at strategy one),
    )
