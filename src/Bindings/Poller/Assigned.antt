-- ===== src/Bindings/Poller/Assigned.antt =====
-- The ports of the objects that `createBinding` of
-- internal/controller/bindings/boundendpoint_poller.go writes.
use ngrok_operator.Common.{
  ℕ, ◌≤◌, ◌<◌, String, true, false, List, [], ◌∷◌, contains, nat_eq, ◌≡◌, refl, ◌⊎◌, inl, inr,
  arith, Option-cases, All, subst, sym, ◌∙◌, nat_beq_iff,
}
use ngrok_operator.Ports.{Bitmap, BitmapLaws, PortBitmap, set_any}
use ngrok_operator.Ports.Laws.{has, InRange, IsFresh, set_any-IsFresh}
use ngrok_operator.Bindings.{BoundEndpoint, TargetMetadata}
use ngrok_operator.Bindings.Poller.{
  Client, Reply, failed, not_found, already_exists, other_error, Fetched, found, missing,
  create_binding, create_at, after_create, fill_existing, update_binding_status, update_status_of,
  to_create,
}

-- What is assumed of the client: a call to create adds the object with its port or, whatever it
-- answers, leaves the objects as they are; the status has no port.
pub record PortLaws (W : Type 0) (client : Client W) : Type 0 where
  pub ports : W → List ℕ
  pub create_ports :
      (w : W) (x : BoundEndpoint)
      → (ports (client.create w x).1 ≡ x.spec.port ∷ ports w)
        ⊎ (ports (client.create w x).1 ≡ ports w)
  pub status_ports : (w : W) (x : BoundEndpoint) → ports (client.update_status w x).1 ≡ ports w

-- No port stands twice in the list.
abbrev pub IsDistinct : List ℕ → Type 0
IsDistinct [] = Unit
IsDistinct (p ∷ ps) = (contains ps p ≡ false) × IsDistinct ps

module _ {W B : Type 0} (client : Client W) (port_laws : PortLaws W client) (ops : Bitmap B)
    (laws : BitmapLaws ops) where
  -- Every port of an object is held by the allocator and in its range, and no two objects share one.
  pub record IsAssigned (min max : ℕ) (pb : PortBitmap B) (w : W) : Type 0 where
    pub in_range : InRange ops laws min max pb
    pub held : All (λ q. (has ops laws pb q ≡ true) × (min ≤ q) × (q < max)) (port_laws.ports w)
    pub apart : IsDistinct (port_laws.ports w)

  held_later :
      (min max p : ℕ) (pb pb' : PortBitmap B) (qs : List ℕ)
      → IsFresh ops laws min max pb p pb'
      → All (λ q. (has ops laws pb q ≡ true) × (min ≤ q) × (q < max)) qs
      → All (λ q. (has ops laws pb' q ≡ true) × (min ≤ q) × (q < max)) qs
  held_later min max p pb pb' [] f h = tt
  held_later min max p pb pb' (q ∷ qs) f ((on, low, high), h) =
      ((ground (arith, f.only_it q), low, high), held_later min max p pb pb' qs f h)

  not_there :
      (min max p : ℕ) (pb pb' : PortBitmap B) (qs : List ℕ)
      → IsFresh ops laws min max pb p pb'
      → All (λ q. (has ops laws pb q ≡ true) × (min ≤ q) × (q < max)) qs
      → contains qs p ≡ false
  not_there min max p pb pb' [] f h = refl
  not_there min max p pb pb' (q ∷ qs) f ((on, low, high), h) =
      let rest = not_there min max p pb pb' qs f h in ground (arith, f.free, nat_beq_iff q p)

  IsAssigned-taken :
      (min max p : ℕ) (pb pb' : PortBitmap B) (w w' : W)
      → IsAssigned min max pb w
      → IsFresh ops laws min max pb p pb'
      → (port_laws.ports w' ≡ p ∷ port_laws.ports w) ⊎ (port_laws.ports w' ≡ port_laws.ports w)
      → IsAssigned min max pb' w'
  IsAssigned-taken min max p pb pb' w w' h f (inl added) = record {
    in_range = f.still;
    held = subst (All (λ q. (has ops laws pb' q ≡ true) × (min ≤ q) × (q < max))) (sym added) (
      (ground (arith, f.only_it p), f.low, f.high),
      held_later min max p pb pb' (port_laws.ports w) f h.held,
    );
    apart =
        subst IsDistinct (sym added)
          (not_there min max p pb pb' (port_laws.ports w) f h.held, h.apart);
  }
  IsAssigned-taken min max p pb pb' w w' h f (inr same) = record {
    in_range = f.still;
    held =
        subst (All (λ q. (has ops laws pb' q ≡ true) × (min ≤ q) × (q < max))) (sym same)
          (held_later min max p pb pb' (port_laws.ports w) f h.held);
    apart = subst IsDistinct (sym same) h.apart;
  }

  module _ (hash_url : String → String) (metadata : TargetMetadata) where
    update_status_of-ports :
        (x : Fetched) (fill : BoundEndpoint → BoundEndpoint) (w : W)
        → port_laws.ports (update_status_of client ops hash_url metadata x fill w).1
          ≡ port_laws.ports w
    unfolding update_status_of
    update_status_of-ports (missing e) fill w = refl
    update_status_of-ports (found x) fill w = port_laws.status_ports w (fill x)

    update_binding_status-ports :
        (name hashed : String) (d : BoundEndpoint) (w : W)
        → port_laws.ports (update_binding_status client ops hash_url metadata name hashed d w).1
          ≡ port_laws.ports w
    unfolding update_binding_status
    update_binding_status-ports name hashed d w = update_status_of-ports (client.get w name) _ w

    fill_existing-ports :
        (x : Fetched) (d : BoundEndpoint) (w : W)
        → port_laws.ports (fill_existing client ops hash_url metadata x d w).1 ≡ port_laws.ports w
    unfolding fill_existing
    fill_existing-ports (missing e) d w = refl
    fill_existing-ports (found x) d w =
        update_binding_status-ports x.name (hash_url d.spec.endpoint_url) d w

    after_create-ports :
        (r : Reply × W) (d : BoundEndpoint)
        → port_laws.ports (after_create client ops hash_url metadata r d).1 ≡ port_laws.ports r.1
    unfolding after_create
    after_create-ports (Reply.done, w) d =
        update_binding_status-ports (hash_url d.spec.endpoint_url) (hash_url d.spec.endpoint_url) d
          w
    after_create-ports (failed already_exists, w) d =
        fill_existing-ports (client.get w (hash_url d.spec.endpoint_url)) d w
    after_create-ports (failed not_found, w) d = refl
    after_create-ports (failed other_error, w) d = refl

    -- On a bitmap with the documented laws, over a client that keeps its laws, and whatever it answers,
    -- an error included: if the allocator holds every port of an object, all in its range, and no two
    -- objects share a port, then the same is true after `createBinding`, whether it makes an object or
    -- not.
    pub create_binding-IsAssigned :
        (min max : ℕ) (d : BoundEndpoint) (pb : PortBitmap B) (w : W)
        → IsAssigned min max pb w
        → IsAssigned min max
            (create_binding client ops hash_url metadata d (pb, w)).1.0
            (create_binding client ops hash_url metadata d (pb, w)).1.1
    unfolding create_binding create_at
    create_binding-IsAssigned min max d pb w h = elim (Option-cases (set_any ops pb)) [
      | inl full ↦ rw full h
      | inr ((p, pb'), went) ↦
          let made = to_create client ops hash_url metadata (hash_url d.spec.endpoint_url) p d in
          let r = client.create w made in
          let kept = after_create-ports r d in
          rw went (
            IsAssigned-taken min max p pb pb' w (after_create client ops hash_url metadata r d).1 h
              (set_any-IsFresh ops laws min max pb p pb' h.in_range went)
              (elim (port_laws.create_ports w made) [
                | inl added ↦ inl (kept ∙ added)
                | inr same ↦ inr (kept ∙ same)
              ]))
    ]
