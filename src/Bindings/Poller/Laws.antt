-- ===== src/Bindings/Poller/Laws.antt =====
-- The ports of the poller of internal/controller/bindings/boundendpoint_poller.go.
use ngrok_operator.Common.{
  ℕ, ◌+◌, ◌-◌, ◌%◌, ◌<◌, ◌≤◌, String, Bool, false, ◌||◌, Option, none, some, List, [], ◌∷◌, any,
  ◌==◌, nat_eq, ◌≡◌, refl, arith, Option-cases, inl, inr, subst,
}
use ngrok_operator.Ports.{
  Bitmap, BitmapLaws, PortBitmap, uint16, new_port_bitmap, set, unset, replace,
}
use ngrok_operator.Ports.Laws.{has, InRange, IsFresh, new_port_bitmap-InRange, set-IsFresh}
use ngrok_operator.Ports.Traces.{unset-IsReleased, unset_total}
use ngrok_operator.Bindings.{BoundEndpoint, TargetMetadata}
use ngrok_operator.Bindings.Poller.{
  Client, Reply, delete_binding, after_delete, release, refresh_from, refresh,
}

-- The port belongs to one of the endpoints.
abbrev pub is_used : ℕ → List BoundEndpoint → Bool
is_used q = any (λ (x : BoundEndpoint). x.spec.port == q)

module _ {B : Type 0} (ops : Bitmap B) (laws : BitmapLaws ops) where
  -- What a refresh promises of the bitmap it makes.
  pub record Holds (min max : ℕ) (pb : PortBitmap B) (used : ℕ → Bool) : Type 0 where
    pub in_range : InRange ops laws min max pb
    pub exactly : (q : ℕ) → has ops laws pb q ≡ used q

  refresh_from-Holds :
      (min max : ℕ) (pb pb' : PortBitmap B) (xs : List BoundEndpoint) (used : ℕ → Bool)
      → Holds min max pb used
      → refresh_from ops pb xs ≡ some pb'
      → Holds min max pb' (λ q. used q || is_used q xs)
  unfolding refresh_from
  refresh_from-Holds min max pb pb' [] used h e =
      subst (λ x. Holds min max x (λ q. used q || false)) (ground arith)
        (record { in_range = h.in_range; exactly = λ q. ground (arith, h.exactly q) })
  refresh_from-Holds min max pb pb' (x ∷ xs) used h e =
      elim (Option-cases (set ops pb x.spec.port)) [
        | inl stopped ↦ absurd (ground arith)
        | inr (mid, went) ↦
            let f = set-IsFresh ops laws min max pb x.spec.port mid h.in_range went in
            let next : Holds min max mid (λ q. used q || (x.spec.port == q)) = record {
              in_range = f.still;
              exactly = λ q. ground (arith, f.only_it q, h.exactly q);
            } in
            let r =
              refresh_from-Holds min max mid pb' xs (λ q. used q || (x.spec.port == q)) next
                (ground arith) in
            record { in_range = r.in_range; exactly = λ q. ground (arith, r.exactly q) }
      ]

  new-Holds :
      (min max : ℕ)
      → min ≤ max
      → max < uint16
      → Holds min max (new_port_bitmap ops min max) (λ q. false)
  unfolding new_port_bitmap
  new-Holds min max h k = record {
    in_range = new_port_bitmap-InRange ops laws min max h k;
    exactly = λ q. ground (arith, laws.is_set_new ((max + (uint16 - min)) % uint16) (q - min));
  }

  -- The allocator begins at the first port of its range.
  replace-Holds :
      (min max : ℕ) (allocator current : PortBitmap B) (used : ℕ → Bool)
      → allocator.start ≡ min
      → Holds min max current used
      → Holds min max (replace ops allocator current) used
  unfolding replace
  replace-Holds min max allocator current used s h =
      let same : current ≡ record allocator { ports = current.ports } =
        ground (arith, h.in_range.first) in
      subst (λ x. Holds min max x used) same h

  -- On a bitmap with the documented laws: if a refresh succeeds, the allocator holds exactly the ports of the existing endpoints, and no
  -- other port: the bitmap keeps its range, and whatever the allocator held before is forgotten.
  -- The range is one of uint16 ports, at whose first port the allocator begins.
  pub refresh-Holds :
      (min max : ℕ) (allocator after : PortBitmap B) (existing : List BoundEndpoint)
      → min ≤ max
      → max < uint16
      → allocator.start ≡ min
      → refresh ops min max allocator existing ≡ some after
      → Holds min max after (λ q. is_used q existing)
  unfolding refresh
  refresh-Holds min max allocator after existing h k s e =
      elim (Option-cases (refresh_from ops (new_port_bitmap ops min max) existing)) [
        | inl stopped ↦ absurd (ground arith)
        | inr (current, went) ↦
            let r =
              refresh_from-Holds min max (new_port_bitmap ops min max) current existing (λ q. false)
                (new-Holds min max h k) went in
            let same : replace ops allocator current ≡ after = ground arith in
            subst (λ x. Holds min max x (λ q. is_used q existing)) same
              (replace-Holds min max allocator current (λ q. is_used q existing) s r)
      ]

module _ {W B : Type 0} (client : Client W) (ops : Bitmap B) (laws : BitmapLaws ops)
    (hash_url : String → String) (metadata : TargetMetadata) where
  delete_at :
      (min max p : ℕ) (x : BoundEndpoint) (before pb : PortBitmap B) (o : Option (PortBitmap B))
      → IsFresh ops laws min max before p pb
      → x.spec.port ≡ p
      → unset ops pb p ≡ o
      → (q : ℕ) → has ops laws (release client ops hash_url metadata pb o) q ≡ has ops laws before q
  unfolding release
  delete_at min max p x before pb none f same e =
      absurd (unset_total ops laws min max pb p f.still f.low f.high e)
  delete_at min max p x before pb (some after) f same e = λ q.
      let u = unset-IsReleased ops laws min max pb p after f.still e in
      ground (arith, u.only_it q, f.only_it q, f.free)

  -- On a bitmap with the documented laws: if the client deletes an endpoint that a fresh port was taken
  -- for, the allocator holds the same ports as before that port was taken.
  pub delete_binding_gives_back :
      (min max p : ℕ) (x : BoundEndpoint) (before pb : PortBitmap B) (w w' : W)
      → IsFresh ops laws min max before p pb
      → x.spec.port ≡ p
      → client.delete w x ≡ (Reply.done, w')
      → (q : ℕ)
      → has ops laws (delete_binding client ops hash_url metadata x (pb, w)).1.0 q
        ≡ has ops laws before q
  unfolding delete_binding after_delete
  delete_binding_gives_back min max p x before pb w w' f same e q =
      rw (e, same) (delete_at min max p x before pb (unset ops pb p) f same refl q)
