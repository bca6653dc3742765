-- ===== src/Bindings.antt =====
-- internal/controller/bindings/boundendpoint_poller.go: what to create, update and delete so that
-- the bound endpoints of the cluster become those that the ngrok API asks for. A Go map is an
-- association list without repeated keys; its order, which Go leaves open, is that of the list.
pub mod Aggregate
pub mod Filter
pub mod Update
pub mod Poller
use ngrok_operator.Common.{
  ℕ, String, ◌<>◌, Bool, true, false, not, ◌&&◌, ◌||◌, Option, none, some, List, [], ◌∷◌, map, ◌==◌,
  nat_eq, string_eq, option_beq, decimal, lookup, delete, length, contains, all, if◌then◌else◌, ◌≡◌,
}

-- `Ref` of the ngrok API.
pub record Ref : Type 0 where
  pub id : String
  pub uri : String

pub record TargetMetadata : Type 0 where
  pub labels : List (String × String)
  pub annotations : List (String × String)

pub record EndpointTarget : Type 0 where
  pub service : String
  pub namespace : String
  pub protocol : String
  pub port : ℕ
  pub metadata : TargetMetadata

pub record BoundEndpointSpec : Type 0 where
  pub endpoint_url : String
  pub scheme : String
  pub port : ℕ
  pub target : EndpointTarget

pub record Condition : Type 0 where
  pub type : String
  pub status : String
  pub reason : String
  pub message : String

-- The service references of the controller as (namespace, name).
pub record BoundEndpointStatus : Type 0 where
  pub observed_generation : ℕ
  pub conditions : List Condition
  pub target_service_ref : Option (String × String)
  pub upstream_service_ref : Option (String × String)
  pub endpoints : List Ref
  pub hashed_name : String
  pub endpoints_summary : String

pub record BoundEndpoint : Type 0 where
  pub name : String
  pub spec : BoundEndpointSpec
  pub status : BoundEndpointStatus

-- The desired endpoints by their URL.
abbrev pub Desired : Type 0
Desired = List (String × BoundEndpoint)

abbrev pub values : Desired → List BoundEndpoint
values = map (λ (e : String × BoundEndpoint). e.1)

pub record Actions : Type 0 where
  pub to_create : List BoundEndpoint
  pub to_update : List BoundEndpoint
  pub to_delete : List BoundEndpoint

-- One existing endpoint, with the desired one of the same URL, before the actions for the rest.
unfoldable pub add_action :
    (String → String) → BoundEndpoint → Option BoundEndpoint → Actions → Actions
add_action hash_url x none a = record a { to_delete = x ∷ a.to_delete }
add_action hash_url x (some d) a =
    if x.name == hash_url d.spec.endpoint_url
    then record a { to_update = d ∷ a.to_update }
    else record a { to_delete = x ∷ a.to_delete; to_create = d ∷ a.to_create }

-- `hash_url` is `hashURL`, a UUID of the URL.
unfoldable pub filter_bound_endpoint_actions :
    (String → String) → List BoundEndpoint → Desired → Actions
filter_bound_endpoint_actions hash_url [] desired = record {
  to_create = values desired;
  to_update = [];
  to_delete = [];
}
filter_bound_endpoint_actions hash_url (x ∷ xs) desired =
    add_action hash_url x (lookup x.spec.endpoint_url desired)
      (filter_bound_endpoint_actions hash_url xs (delete x.spec.endpoint_url desired))

-- `maps.Equal`
unfoldable pub maps_equal : List (String × String) → List (String × String) → Bool
maps_equal a b =
    length a == length b
    && all (λ (e : String × String). option_beq ◌==◌ (lookup e.0 b) (some e.1)) a

unfoldable pub target_metadata_is_equal : TargetMetadata → TargetMetadata → Bool
target_metadata_is_equal a b =
    maps_equal a.annotations b.annotations && maps_equal a.labels b.labels

unfoldable pub compute_endpoints_summary : ℕ → String
compute_endpoints_summary count = if count == 1 then "1 endpoint" else decimal count <> " endpoints"

unfoldable pub has_spec_changed : BoundEndpointSpec → BoundEndpointSpec → Bool
has_spec_changed e d =
    not (e.scheme == d.scheme)
    || (not (e.target.port == d.target.port)
        || (not (e.target.protocol == d.target.protocol)
            || (not (e.target.service == d.target.service)
                || (not (e.target.namespace == d.target.namespace)
                    || (not (e.endpoint_url == d.endpoint_url)
                        || not (target_metadata_is_equal e.target.metadata d.target.metadata))))))

abbrev pub ids : List Ref → List String
ids = map (λ (r : Ref). r.id)

-- The lists of endpoints: their lengths, and whether every desired one is among the existing ones.
unfoldable pub have_endpoints_changed : List Ref → List Ref → Bool
have_endpoints_changed existing desired =
    not (length existing == length desired)
    || not (all (λ (r : Ref). contains (ids existing) r.id) desired)

unfoldable pub bound_endpoint_needs_update : BoundEndpoint → BoundEndpoint → Bool
bound_endpoint_needs_update existing desired =
    has_spec_changed existing.spec desired.spec
    || have_endpoints_changed existing.status.endpoints desired.status.endpoints
