-- ===== src/Bindings/Poller.antt =====
-- `createBinding`, `updateBinding`, `deleteBinding`, `updateBindingStatus` and the refresh of the
-- ports in `reconcileBoundEndpointsFromAPI`, all of
-- internal/controller/bindings/boundendpoint_poller.go. The Kubernetes client is a parameter: it
-- answers, and changes the cluster, as it likes. Logs and events are left out.
pub mod Laws
pub mod Assigned
use ngrok_operator.Common.{
  ℕ, String, Bool, true, false, Option, none, some, List, [], ◌∷◌, length, if◌then◌else◌,
}
use ngrok_operator.Ports.{Bitmap, PortBitmap, new_port_bitmap, set, set_any, unset, replace}
use ngrok_operator.Bindings.{BoundEndpoint, TargetMetadata, bound_endpoint_needs_update}
use ngrok_operator.Bindings.Update.{merged, filled_status}

-- The answers of the client that the code tells apart.
pub data ApiError : Type 0 where
  not_found already_exists other_error : ApiError

pub data Reply : Type 0 where
  done : Reply
  failed : ApiError → Reply

pub data Fetched : Type 0 where
  found : BoundEndpoint → Fetched
  missing : ApiError → Fetched

-- The client of a cluster W: reads, and writes with their answer. Objects are named in the one
-- namespace of the poller. A write of the status leaves the rest of the object to the server.
pub record Client (W : Type 0) : Type 0 where
  pub get : W → String → Fetched
  pub create : W → BoundEndpoint → Reply × W
  pub update : W → BoundEndpoint → Reply × W
  pub update_status : W → BoundEndpoint → Reply × W
  pub delete : W → BoundEndpoint → Reply × W

module _ {W B : Type 0} (client : Client W) (ops : Bitmap B) (hash_url : String → String)
    (metadata : TargetMetadata) where
  -- The status is written onto a copy that is read again.
  pub update_status_of : Fetched → (BoundEndpoint → BoundEndpoint) → W → Reply × W
  update_status_of (missing e) fill w = (failed e, w)
  update_status_of (found current) fill w = client.update_status w (fill current)

  unfoldable pub update_binding_status : String → String → BoundEndpoint → W → Reply × W
  update_binding_status name hashed_name desired w =
      update_status_of (client.get w name) (filled_status hashed_name desired) w

  -- The desired endpoint with the metadata of the poller.
  abbrev pub with_metadata : BoundEndpoint → BoundEndpoint
  with_metadata d = record d {
    spec = record d.spec { target = record d.spec.target { metadata = metadata } };
  }

  -- The object that is created: its status is empty.
  abbrev pub to_create : String → ℕ → BoundEndpoint → BoundEndpoint
  to_create name port d = record {
    name = name;
    spec = record {
      endpoint_url = d.spec.endpoint_url;
      scheme = d.spec.scheme;
      port = port;
      target = record {
        service = d.spec.target.service;
        namespace = d.spec.target.namespace;
        protocol = d.spec.target.protocol;
        port = d.spec.target.port;
        metadata = metadata;
      };
    };
    status = record {
      observed_generation = 0;
      conditions = [];
      target_service_ref = none;
      upstream_service_ref = none;
      endpoints = [];
      hashed_name = "";
      endpoints_summary = "";
    };
  }

  -- An object that is there already (the local copy still has an empty status) is read to fill in its status; if it cannot be read, nothing
  -- more is done.
  pub fill_existing : Fetched → BoundEndpoint → W → Reply × W
  fill_existing (missing e) d w = (done, w)
  fill_existing (found x) d w = update_binding_status x.name (hash_url d.spec.endpoint_url) d w

  pub after_create : Reply × W → BoundEndpoint → Reply × W
  after_create (done, w) d =
      update_binding_status (hash_url d.spec.endpoint_url) (hash_url d.spec.endpoint_url) d w
  after_create (failed already_exists, w) d =
      fill_existing (client.get w (hash_url d.spec.endpoint_url)) d w
  after_create (failed e, w) d = (failed e, w)

  -- What follows the allocation of the port.
  pub create_at :
      Option (ℕ × PortBitmap B) → BoundEndpoint → PortBitmap B × W → Reply × (PortBitmap B × W)
  create_at none d (pb, w) = (failed other_error, (pb, w))
  create_at (some (port, pb')) d (pb, w) =
      let (reply, w') =
        after_create (client.create w (to_create (hash_url d.spec.endpoint_url) port d)) d in
      (reply, (pb', w'))

  unfoldable pub create_binding : BoundEndpoint → PortBitmap B × W → Reply × (PortBitmap B × W)
  create_binding d (pb, w) = create_at (set_any ops pb) d (pb, w)

  pub after_update : Reply × W → String → BoundEndpoint → Reply × W
  after_update (failed e, w) name d = (failed e, w)
  after_update (done, w) name d = update_binding_status name (hash_url d.spec.endpoint_url) d w

  pub update_existing : Fetched → BoundEndpoint → W → Reply × W
  update_existing (missing not_found) d w = (done, w)
  update_existing (missing e) d w = (failed e, w)
  update_existing (found x) d w =
      if bound_endpoint_needs_update x d
      then after_update (client.update w (merged x d)) x.name d
      else (done, w)

  unfoldable pub update_binding : BoundEndpoint → W → Reply × W
  update_binding d w =
      update_existing (client.get w (hash_url d.spec.endpoint_url)) (with_metadata d) w

  -- A port that cannot be given back is logged, and the deletion stands.
  pub release : PortBitmap B → Option (PortBitmap B) → PortBitmap B
  release pb none = pb
  release pb (some pb') = pb'

  pub after_delete : Reply × W → BoundEndpoint → PortBitmap B → Reply × (PortBitmap B × W)
  after_delete (failed e, w) x pb = (failed e, (pb, w))
  after_delete (done, w) x pb = (done, (release pb (unset ops pb x.spec.port), w))

  unfoldable pub delete_binding : BoundEndpoint → PortBitmap B × W → Reply × (PortBitmap B × W)
  delete_binding x (pb, w) = after_delete (client.delete w x) x pb

module _ {B : Type 0} (ops : Bitmap B) where
  -- The ports of the existing endpoints, one after the other; the first that fails ends it.
  unfoldable pub refresh_from : PortBitmap B → List BoundEndpoint → Option (PortBitmap B)
  refresh_from pb [] = some pb
  refresh_from pb (x ∷ xs) = elim (set ops pb x.spec.port) [
    | none ↦ none
    | some pb' ↦ refresh_from pb' xs
  ]

  -- The allocator starts again from a new bitmap of the range that has just these ports.
  unfoldable pub refresh : ℕ → ℕ → PortBitmap B → List BoundEndpoint → Option (PortBitmap B)
  refresh min max allocator existing = elim (refresh_from (new_port_bitmap ops min max) existing) [
    | none ↦ none
    | some current ↦ some (replace ops allocator current)
  ]
