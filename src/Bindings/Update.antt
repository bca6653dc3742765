-- ===== src/Bindings/Update.antt =====
-- `boundEndpointNeedsUpdate`, and what `updateBinding` writes.
use ngrok_operator.Common.{
  String, Bool, true, false, some, List, [], ◌∷◌, ◌==◌, nat_eq, string_eq, option_beq, lookup,
  length, contains, all, All, ◌≡◌, refl, arith, eq_iff, ==_refl,
}
use ngrok_operator.Bindings.{
  Ref, BoundEndpointSpec, BoundEndpoint, ids, maps_equal, target_metadata_is_equal,
  has_spec_changed, have_endpoints_changed, bound_endpoint_needs_update, compute_endpoints_summary,
}

-- The existing endpoint with the desired data: the port stays as it is.
unfoldable pub merged : BoundEndpoint → BoundEndpoint → BoundEndpoint
merged existing desired = record existing {
  spec = record {
    endpoint_url = desired.spec.endpoint_url;
    scheme = desired.spec.scheme;
    port = existing.spec.port;
    target = desired.spec.target;
  };
}

-- The three fields of the status that the poller owns.
unfoldable pub filled_status : String → BoundEndpoint → BoundEndpoint → BoundEndpoint
unfolding compute_endpoints_summary
filled_status name desired current = record current {
  status = record current.status {
    endpoints = desired.status.endpoints;
    endpoints_summary = compute_endpoints_summary (length desired.status.endpoints);
    hashed_name = name;
  };
}

-- A map without repeated keys.
abbrev pub IsTextMap : List (String × String) → Type 0
IsTextMap [] = Unit
IsTextMap ((k, v) ∷ m) = All (λ (e : String × String). (k == e.0) ≡ false) m × IsTextMap m

all-lookup :
    (k v : String) (a m : List (String × String))
    → All (λ (e : String × String). (k == e.0) ≡ false) a
    → all (λ (e : String × String). option_beq ◌==◌ (lookup e.0 ((k, v) ∷ m)) (some e.1)) a
      ≡ all (λ (e : String × String). option_beq ◌==◌ (lookup e.0 m) (some e.1)) a
unfolding lookup
all-lookup k v [] m h = refl
all-lookup k v ((j, w) ∷ a) m (p, h) = ground (arith, all-lookup k v a m h)

maps_equal_self :
    (m : List (String × String))
    → IsTextMap m
    → all (λ (e : String × String). option_beq ◌==◌ (lookup e.0 m) (some e.1)) m ≡ true
unfolding lookup
maps_equal_self [] h = refl
maps_equal_self ((k, v) ∷ m) (p, h) =
    ground (arith, eq_iff k k, eq_iff v v, all-lookup k v m m p, maps_equal_self m h)

maps_equal_refl : (m : List (String × String)) → IsTextMap m → maps_equal m m ≡ true
unfolding maps_equal
maps_equal_refl m h = ground (arith, maps_equal_self m h)

all-contains-ids :
    (seen : String → Bool) (rs : List Ref)
    → All (λ (r : Ref). seen r.id ≡ true) rs
    → all (λ (r : Ref). seen r.id) rs ≡ true
all-contains-ids seen [] h = refl
all-contains-ids seen (r ∷ rs) (p, h) = ground (arith, all-contains-ids seen rs h)

All-ids :
    (known : String → Bool) (rs : List Ref)
    → ((s : String) → contains (ids rs) s ≡ true → known s ≡ true)
    → All (λ (r : Ref). known r.id ≡ true) rs
All-ids known [] h = tt
All-ids known (r ∷ rs) h =
    (h r.id (ground (arith, eq_iff r.id r.id)), All-ids known rs (λ s p. h s (ground arith)))

have_endpoints_changed_self : (rs : List Ref) → have_endpoints_changed rs rs ≡ false
unfolding have_endpoints_changed
have_endpoints_changed_self rs =
    let here =
      all-contains-ids (contains (ids rs)) rs (All-ids (contains (ids rs)) rs (λ s p. p)) in
    ground (arith, here)

has_spec_changed_self :
    (e d : BoundEndpointSpec)
    → e.scheme ≡ d.scheme
    → e.endpoint_url ≡ d.endpoint_url
    → e.target ≡ d.target
    → IsTextMap d.target.metadata.annotations
    → IsTextMap d.target.metadata.labels
    → has_spec_changed e d ≡ false
unfolding has_spec_changed target_metadata_is_equal
has_spec_changed_self e d scheme url target h k = simp (
  scheme,
  url,
  target,
  ==_refl d.scheme,
  ==_refl d.endpoint_url,
  ==_refl d.target.port,
  ==_refl d.target.protocol,
  ==_refl d.target.service,
  ==_refl d.target.namespace,
  maps_equal_refl d.target.metadata.annotations h,
  maps_equal_refl d.target.metadata.labels k,
)

-- Once an update has been written, the same desired endpoint asks for no further one, whatever
-- there was before; its annotations and its labels have no repeated keys, as maps.
pub update_settles :
    (name : String) (existing desired : BoundEndpoint)
    → IsTextMap desired.spec.target.metadata.annotations
    → IsTextMap desired.spec.target.metadata.labels
    → bound_endpoint_needs_update (filled_status name desired (merged existing desired)) desired
      ≡ false
unfolding bound_endpoint_needs_update filled_status merged
update_settles name existing desired h k = simp (
  have_endpoints_changed_self desired.status.endpoints,
  has_spec_changed_self (record desired.spec { port = existing.spec.port }) desired.spec refl refl
      refl h k,
)
