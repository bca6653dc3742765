-- ===== src/Translator/Mapping/Users.antt =====
-- The map from services to virtual hosts, against a direct description: the positions of the
-- virtual hosts that have the service among their keys.
use mathlib.Core.List.{append_assoc, append-nil}
use ngrok_operator.Common.{
  ℕ, zero, suc, ◌+◌, ◌<◌, String, true, false, some, List, [], ◌∷◌, ◌++◌, ◌==◌, nat_eq, string_eq,
  lookup, lookup-insert, contains, if◌then◌else◌, ◌≡◌, refl, sym, arith, eq_iff, All, All-append,
  Bool-cases, inl, inr,
}
use ngrok_operator.Ir.{IrVirtualHost}
use ngrok_operator.Translator.Mapping.{
  Users, users_at, add_user, add_service, add_services, service_keys, collect_users, host_at,
}

-- The positions, from `i` on, of the virtual hosts that route to service `k`.
abbrev pub users_of : String → ℕ → List IrVirtualHost → List ℕ
users_of k i [] = []
users_of k i (v ∷ vs) =
    if contains (service_keys v) k then i ∷ users_of k (i + 1) vs else users_of k (i + 1) vs

users_at-add_service :
    (m : Users) (i : ℕ) (k j : String)
    → users_at (add_service m i k) j ≡ (if k == j then add_user i (users_at m j) else users_at m j)
unfolding users_at add_service
users_at-add_service m i k j =
    ground (arith, lookup-insert k j (add_user i (users_at m k)) m, eq_iff k j)

contains-append_self : (s : List ℕ) (i : ℕ) → contains (s ++ (i ∷ [])) i ≡ true
contains-append_self [] i = ground arith
contains-append_self (x ∷ s) i = ground (arith, contains-append_self s i)

add_user_idem : (i : ℕ) (s : List ℕ) → add_user i (add_user i s) ≡ add_user i s
add_user_idem i s = ground (arith, contains-append_self s i)

users_at-add_services :
    (m : Users) (i : ℕ) (ks : List String) (j : String)
    → users_at (add_services m i ks) j
      ≡ (if contains ks j then add_user i (users_at m j) else users_at m j)
unfolding add_services
users_at-add_services m i [] j = refl
users_at-add_services m i (k ∷ ks) j = ground (
  arith,
  users_at-add_services (add_service m i k) i ks j,
  users_at-add_service m i k j,
  add_user_idem i (users_at m j),
)

not_contains_below : (s : List ℕ) (i : ℕ) → All (λ x. x < i) s → contains s i ≡ false
not_contains_below [] i h = refl
not_contains_below (x ∷ s) i (p, h) = ground (arith, not_contains_below s i h)

All-below_suc : (s : List ℕ) (i : ℕ) → All (λ x. x < i) s → All (λ x. x < i + 1) s
All-below_suc [] i h = tt
All-below_suc (x ∷ s) i (p, h) = (omega arith, All-below_suc s i h)

pub users_at-collect_users :
    (m : Users) (i : ℕ) (vs : List IrVirtualHost) (k : String)
    → All (λ x. x < i) (users_at m k)
    → users_at (collect_users m i vs) k ≡ users_at m k ++ users_of k i vs
unfolding collect_users
users_at-collect_users m i [] k h = sym (append-nil _)
users_at-collect_users m i (v ∷ vs) k h =
    let m' = add_services m i (service_keys v) in
    let step = users_at-add_services m i (service_keys v) k in
    elim (Bool-cases (contains (service_keys v) k)) [
      | inl e ↦
          let at : users_at m' k ≡ users_at m k ++ (i ∷ []) =
            ground (arith, step, not_contains_below (users_at m k) i h) in
          let below : All (λ x. x < i + 1) (users_at m' k) = rw at (
            All-append (λ x. x < i + 1) (users_at m k) (i ∷ []) (All-below_suc _ i h)
              (omega arith, tt)) in
          rw (users_at-collect_users m' (i + 1) vs k below, at, e)
            (append_assoc (users_at m k) (i ∷ []) (users_of k (i + 1) vs))
      | inr e ↦
          let at : users_at m' k ≡ users_at m k = ground (arith, step) in
          let below : All (λ x. x < i + 1) (users_at m' k) = rw at (All-below_suc _ i h) in
          rw (users_at-collect_users m' (i + 1) vs k below, at, e) refl
    ]

shift : (i n : ℕ) → i + 1 + n ≡ i + suc n
shift i n = omega arith

-- A virtual host that routes to a service stands among its users.
pub contains-users_of :
    (k : String) (i n : ℕ) (vs : List IrVirtualHost) (v : IrVirtualHost)
    → host_at vs n ≡ some v
    → contains (service_keys v) k ≡ true
    → contains (users_of k i vs) (i + n) ≡ true
unfolding host_at
contains-users_of k i n [] v h c = cc
contains-users_of k i zero (w ∷ vs) v h c = ground arith
contains-users_of k i (suc n) (w ∷ vs) v h c =
    let later : contains (users_of k (i + 1) vs) (i + suc n) ≡ true =
      rw (← shift i n) (contains-users_of k (i + 1) n vs v h c) in
    ground arith

-- The first loop collects exactly the users.
pub collected :
    (vs : List IrVirtualHost) (k : String) → users_at (collect_users [] 0 vs) k ≡ users_of k 0 vs
unfolding users_at lookup
collected vs k = users_at-collect_users [] 0 vs k tt
