-- ===== src/Examples/Bindings.antt =====
-- Bound endpoints: one that stays, one that goes and one that is new.
use mathlib.Core.List.{Perm}
use ngrok_operator.Common.{
  ℕ, String, ◌<>◌, true, false, none, List, [], ◌∷◌, ◌++◌, lookup, ◌≡◌, refl, arith, string_eq,
  nat_eq, map, inl,
}
use ngrok_operator.Ports.{PortBitmap}
use ngrok_operator.Ports.Laws.{has, IsFresh, set_any-IsFresh}
use ngrok_operator.Bindings.{
  TargetMetadata, BoundEndpoint, Desired, values, filter_bound_endpoint_actions,
  bound_endpoint_needs_update,
}
use ngrok_operator.Bindings.Filter.{updates_and_creates-perm, to_delete-wanted}
use ngrok_operator.Bindings.Update.{merged, filled_status, update_settles}
use ngrok_operator.Bindings.Poller.{
  Client, missing, Reply, failed, other_error, not_found, create_binding, delete_binding, refresh,
  refresh_from,
}
use ngrok_operator.Bindings.Poller.Laws.{Holds, is_used, refresh-Holds, delete_binding_gives_back}
use ngrok_operator.Bindings.Poller.Assigned.{PortLaws, IsAssigned, create_binding-IsAssigned}
use ngrok_operator.Examples.Bits.{bits_ops, bits_laws}
use ngrok_operator.Examples.Allocator.{pool, pool_after, pool-InRange}

abbrev hash_url : String → String
hash_url url = "ngrok-" <> url

abbrev plain : TargetMetadata
plain = record { labels = ("team", "shop") ∷ []; annotations = [] }

abbrev endpoint : String → ℕ → BoundEndpoint
endpoint url port = record {
  name = hash_url url;
  spec = record {
    endpoint_url = url;
    scheme = "https";
    port = port;
    target = record {
      service = "cart";
      namespace = "shop";
      protocol = "TCP";
      port = 443;
      metadata = plain;
    };
  };
  status = record {
    observed_generation = 0;
    conditions = [];
    target_service_ref = none;
    upstream_service_ref = none;
    endpoints = record { id = "ep_1"; uri = "" } ∷ [];
    hashed_name = "";
    endpoints_summary = "";
  };
}

abbrev existing : List BoundEndpoint
existing = endpoint "a" 5000 ∷ (endpoint "b" 5002 ∷ [])

abbrev desired : Desired
desired = ("c", endpoint "c" 0) ∷ (("a", endpoint "a" 0) ∷ [])

updates_and_creates-perm_example :
    Perm
      ((filter_bound_endpoint_actions hash_url existing desired).to_update
        ++ (filter_bound_endpoint_actions hash_url existing desired).to_create)
      (values desired)
unfolding lookup
updates_and_creates-perm_example =
    updates_and_creates-perm hash_url existing desired (refl, (refl, tt))

to_delete-wanted_example :
    (filter_bound_endpoint_actions hash_url existing desired).to_delete ≡ endpoint "b" 5002 ∷ []
unfolding lookup
to_delete-wanted_example = to_delete-wanted hash_url existing desired ((refl, tt), (tt, tt))

update_settles_example :
    bound_endpoint_needs_update
      (filled_status "ngrok-a" (endpoint "a" 0) (merged (endpoint "b" 5000) (endpoint "a" 0)))
      (endpoint "a" 0)
    ≡ false
update_settles_example = update_settles "ngrok-a" (endpoint "b" 5000) (endpoint "a" 0) tt (tt, tt)

-- Both existing endpoints hold their ports after a refresh of the range from 5000 up to 5003.
refresh-Holds_example :
    Holds bits_ops bits_laws 5000 5003
      (record { start = 5000; ports = true ∷ (false ∷ (true ∷ [])) })
      (λ q. is_used q existing)
unfolding refresh refresh_from ngrok_operator.Ports.set ngrok_operator.Ports.replace
    ngrok_operator.Ports.new_port_bitmap
refresh-Holds_example =
    refresh-Holds bits_ops bits_laws 5000 5003 pool
      (record { start = 5000; ports = true ∷ (false ∷ (true ∷ [])) }) existing (omega arith)
      (omega arith) refl refl

-- A cluster that rejects every creation and accepts every deletion.
abbrev rejecting : Client Unit
rejecting = record {
  get = λ w name. missing not_found;
  create = λ w x. (failed other_error, w);
  update = λ w x. (Reply.done, w);
  update_status = λ w x. (Reply.done, w);
  delete = λ w x. (Reply.done, w);
}

-- A cluster that stores what it is told to create.
abbrev storing : Client (List BoundEndpoint)
storing = record {
  get = λ w name. missing not_found;
  create = λ w x. (Reply.done, x ∷ w);
  update = λ w x. (Reply.done, w);
  update_status = λ w x. (Reply.done, w);
  delete = λ w x. (Reply.done, w);
}

storing-PortLaws : PortLaws (List BoundEndpoint) storing
storing-PortLaws = record {
  ports = map (λ x. x.spec.port);
  create_ports = λ w x. inl refl;
  status_ports = λ w x. refl;
}

-- The object gets port 5000, where 5001 is that of an endpoint.
create_binding-IsAssigned_example :
    IsAssigned storing storing-PortLaws bits_ops bits_laws 5000 5003
      (create_binding storing bits_ops hash_url plain
        (endpoint "c" 0)
        (pool, endpoint "b" 5001 ∷ [])).1.0
      (create_binding storing bits_ops hash_url plain
        (endpoint "c" 0)
        (pool, endpoint "b" 5001 ∷ [])).1.1
unfolding storing-PortLaws
create_binding-IsAssigned_example =
    create_binding-IsAssigned storing storing-PortLaws bits_ops bits_laws hash_url plain 5000 5003
      (endpoint "c" 0) pool (endpoint "b" 5001 ∷ [])
      (record {
        in_range = pool-InRange;
        held = ((refl, omega arith, omega arith), tt);
        apart = (refl, tt);
      })

-- Port 5000 is taken from the pool.
taken_first : IsFresh bits_ops bits_laws 5000 5003 pool 5000 pool_after
unfolding ngrok_operator.Ports.set_any
taken_first = set_any-IsFresh bits_ops bits_laws 5000 5003 pool 5000 pool_after pool-InRange refl

delete_binding_gives_back_example :
    has bits_ops bits_laws
      (delete_binding rejecting bits_ops hash_url plain (endpoint "c" 5000) (pool_after, tt)).1.0
      5000
    ≡ has bits_ops bits_laws pool 5000
delete_binding_gives_back_example =
    delete_binding_gives_back rejecting bits_ops bits_laws hash_url plain 5000 5003 5000
      (endpoint "c" 5000) pool pool_after tt tt taken_first refl refl 5000
