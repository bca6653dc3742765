-- ===== src/Bindings/Filter.antt =====
-- `filterBoundEndpointActions` of internal/controller/bindings/boundendpoint_poller.go.
use mathlib.Core.List.{Perm, perm_middle}
use mathlib.Core.List.Perm
use ngrok_operator.Common.{
  String, Bool, false, not, Option, none, some, List, [], ◌∷◌, ◌++◌, ◌==◌, string_eq, lookup,
  delete, lookup-delete, keep, All, if◌then◌else◌, ◌≡◌, refl, arith, eq_iff, Bool-cases, inl, inr,
}
use ngrok_operator.Bindings.{
  BoundEndpoint, Desired, values, Actions, add_action, filter_bound_endpoint_actions,
}

-- No key is repeated.
abbrev pub IsMap : Desired → Type 0
IsMap [] = Unit
IsMap ((k, d) ∷ m) = (lookup k m ≡ none) × IsMap m

delete-absent : (k : String) (m : Desired) → lookup k m ≡ none → delete k m ≡ m
unfolding lookup delete
delete-absent k [] e = refl
delete-absent k ((j, d) ∷ m) e = ground (arith, delete-absent k m)

IsMap-delete : (k : String) (m : Desired) → IsMap m → IsMap (delete k m)
unfolding delete
IsMap-delete k [] u = tt
IsMap-delete k ((j, d) ∷ m) (absent, u) = elim (Bool-cases (j == k)) [
  | inl same ↦ rw same (IsMap-delete k m u)
  | inr other ↦ rw other (ground (arith, lookup-delete k j m), IsMap-delete k m u)
]

values-delete :
    (k : String) (d : BoundEndpoint) (m : Desired)
    → IsMap m
    → lookup k m ≡ some d
    → Perm (d ∷ values (delete k m)) (values m)
unfolding lookup delete
values-delete k d [] u e = cc
values-delete k d ((j, w) ∷ m) (absent, u) e = elim (Bool-cases (j == k)) [
  | inl same ↦
      let gone : delete k m ≡ m = delete-absent k m (ground (arith, eq_iff j k)) in
      let this : w ≡ d = ground arith in rw (same, gone, this) (Perm.refl (d ∷ values m))
  | inr other ↦ rw other (
      Perm.trans (Perm.swap w d (values (delete k m)))
        (Perm.cons w (values-delete k d m u (ground arith))))
]

abbrev updates_and_creates : Actions → List BoundEndpoint
updates_and_creates a = a.to_update ++ a.to_create

module _ (hash_url : String → String) where
  add_action-perm :
      (x : BoundEndpoint) (m : Desired) (o : Option BoundEndpoint) (a : Actions)
      → IsMap m
      → lookup x.spec.endpoint_url m ≡ o
      → Perm (updates_and_creates a) (values (delete x.spec.endpoint_url m))
      → Perm (updates_and_creates (add_action hash_url x o a)) (values m)
  unfolding add_action
  add_action-perm x m none a u e p = rw (delete-absent x.spec.endpoint_url m e) at p
  add_action-perm x m (some d) a u e p =
      elim (Bool-cases (x.name == hash_url d.spec.endpoint_url)) [
        | inl same ↦
            rw same (Perm.trans (Perm.cons d p) (values-delete x.spec.endpoint_url d m u e))
        | inr other ↦ rw other (
            Perm.trans (perm_middle a.to_update a.to_create)
              (Perm.trans (Perm.cons d p) (values-delete x.spec.endpoint_url d m u e)))
      ]

  -- Whatever exists, and in whatever order the map of desired endpoints, which repeats no key, is
  -- read: the endpoints to update and to create are together exactly the desired ones, each once.
  pub updates_and_creates-perm :
      (existing : List BoundEndpoint) (desired : Desired)
      → IsMap desired
      → Perm
          ((filter_bound_endpoint_actions hash_url existing desired).to_update
            ++ (filter_bound_endpoint_actions hash_url existing desired).to_create)
          (values desired)
  unfolding filter_bound_endpoint_actions
  updates_and_creates-perm [] desired u = Perm.refl (values desired)
  updates_and_creates-perm (x ∷ xs) desired u =
      let rest = delete x.spec.endpoint_url desired in
      add_action-perm x desired (lookup x.spec.endpoint_url desired)
        (filter_bound_endpoint_actions hash_url xs rest) u refl
        (updates_and_creates-perm xs rest (IsMap-delete x.spec.endpoint_url desired u))

  -- An existing endpoint is still wanted: its URL is, and its name is the one it would get today.
  abbrev pub wanted : Option BoundEndpoint → BoundEndpoint → Bool
  wanted none x = false
  wanted (some d) x = x.name == hash_url d.spec.endpoint_url

  abbrev pub is_wanted : Desired → BoundEndpoint → Bool
  is_wanted desired x = wanted (lookup x.spec.endpoint_url desired) x

  -- No two endpoints have the same URL.
  abbrev pub HaveDistinctUrls : List BoundEndpoint → Type 0
  HaveDistinctUrls [] = Unit
  HaveDistinctUrls (x ∷ xs) =
      All (λ (y : BoundEndpoint). (x.spec.endpoint_url == y.spec.endpoint_url) ≡ false) xs
      × HaveDistinctUrls xs

  keep-delete :
      (k : String) (desired : Desired) (xs : List BoundEndpoint)
      → All (λ (y : BoundEndpoint). (k == y.spec.endpoint_url) ≡ false) xs
      → keep (λ y. not (is_wanted (delete k desired) y)) xs
        ≡ keep (λ y. not (is_wanted desired y)) xs
  keep-delete k desired [] h = refl
  keep-delete k desired (y ∷ ys) (p, h) =
      let same : lookup y.spec.endpoint_url (delete k desired)
          ≡ lookup y.spec.endpoint_url desired =
        ground (arith, lookup-delete k y.spec.endpoint_url desired) in
      rw (same, keep-delete k desired ys h) refl

  add_action-to_delete :
      (x : BoundEndpoint) (o : Option BoundEndpoint) (a : Actions)
      → (add_action hash_url x o a).to_delete
        ≡ (if not (wanted o x) then x ∷ a.to_delete else a.to_delete)
  unfolding add_action
  add_action-to_delete x none a = refl
  add_action-to_delete x (some d) a = ground arith

  -- If no two existing endpoints have the same URL, those to delete are exactly the ones that are
  -- no longer wanted, in their order: the URL is not desired, or the name is not the hash of it.
  pub to_delete-wanted :
      (existing : List BoundEndpoint) (desired : Desired)
      → HaveDistinctUrls existing
      → (filter_bound_endpoint_actions hash_url existing desired).to_delete
        ≡ keep (λ y. not (is_wanted desired y)) existing
  unfolding filter_bound_endpoint_actions
  to_delete-wanted [] desired h = refl
  to_delete-wanted (x ∷ xs) desired (p, h) =
      let rest = delete x.spec.endpoint_url desired in
      rw
        (
          add_action-to_delete x (lookup x.spec.endpoint_url desired)
              (filter_bound_endpoint_actions hash_url xs rest),
          to_delete-wanted xs rest h,
          keep-delete x.spec.endpoint_url desired xs p,
        )
        refl
