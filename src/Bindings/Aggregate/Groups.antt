-- ===== src/Bindings/Aggregate/Groups.antt =====
-- What `AggregateBindingEndpoints` puts into the group of a URL.
use ngrok_operator.Common.{
  ℕ, String, Bool, false, Option, none, some, List, [], ◌∷◌, ◌++◌, map, ◌==◌, string_eq, lookup,
  insert, lookup-insert, keep, if◌then◌else◌, ◌≡◌, refl, sym, arith, eq_iff, Bool-cases, inl, inr,
}
use mathlib.Core.List.{append_assoc, append-nil}
use ngrok_operator.Bindings.{Ref, BoundEndpoint, Desired}
use ngrok_operator.Bindings.Filter.{IsMap}
use ngrok_operator.Bindings.Aggregate.{
  ApiEndpoint, ParsedUrl, ParsedHostport, endpoint_url_of, parse_hostport, group_of, ref_of,
  with_ref, add_endpoint, aggregate_from, aggregate_binding_endpoints,
}

-- The endpoints of a group, none where there is no group.
abbrev pub refs_in : Option BoundEndpoint → List Ref
refs_in none = []
refs_in (some b) = b.status.endpoints

-- The URL of an endpoint is `k`.
abbrev pub is_url : String → Option ParsedHostport → Bool
is_url k none = false
is_url k (some p) = endpoint_url_of p == k

module _ (parse : String → Option ParsedUrl) (port_of : String → Option ℕ) where
  abbrev pub goes_to : String → ApiEndpoint → Bool
  goes_to k e = is_url k (parse_hostport parse port_of e.proto e.public_url)

  refs_in-group_of :
      (p : ParsedHostport) (o : Option BoundEndpoint)
      → (group_of parse port_of p o).status.endpoints ≡ refs_in o
  unfolding group_of
  refs_in-group_of p none = refl
  refs_in-group_of p (some b) = refl

  refs_in-add :
      (k : String) (e : ApiEndpoint) (o : Option ParsedHostport) (s : Desired × List String)
      → refs_in (lookup k (add_endpoint parse port_of e o s).0) ≡ (
          if is_url k o
          then refs_in (lookup k s.0) ++ (ref_of parse port_of e ∷ [])
          else refs_in (lookup k s.0))
  unfolding add_endpoint
  refs_in-add k e none (m, errors) = refl
  refs_in-add k e (some p) (m, errors) =
      let url = endpoint_url_of p in
      let v = with_ref parse port_of e (group_of parse port_of p (lookup url m)) in
      elim (Bool-cases (url == k)) [
        | inl same ↦
            let is : url ≡ k = ground (arith, eq_iff url k) in
            rw (lookup-insert url k v m, same, refs_in-group_of p (lookup url m), is) refl
        | inr other ↦ rw (lookup-insert url k v m, other) refl
      ]

  refs_in-aggregate :
      (k : String) (es : List ApiEndpoint) (s : Desired × List String)
      → refs_in (lookup k (aggregate_from parse port_of es s).0)
        ≡ refs_in (lookup k s.0) ++ map (ref_of parse port_of) (keep (goes_to k) es)
  unfolding aggregate_from
  refs_in-aggregate k [] s = sym (append-nil (refs_in (lookup k s.0)))
  refs_in-aggregate k (e ∷ es) s =
      let o = parse_hostport parse port_of e.proto e.public_url in
      let ih = refs_in-aggregate k es (add_endpoint parse port_of e o s) in
      elim (Bool-cases (goes_to k e)) [
        | inl here ↦ rw (ih, refs_in-add k e o s, here) (append_assoc (refs_in (lookup k s.0)) _ _)
        | inr elsewhere ↦ rw (ih, refs_in-add k e o s, elsewhere) refl
      ]

  -- The group of a URL has exactly the endpoints with that URL, in their order, whatever else is
  -- among the endpoints: one that cannot be parsed is left out, and affects no group.
  pub refs_in-aggregate_binding_endpoints :
      (k : String) (es : List ApiEndpoint)
      → refs_in (lookup k (aggregate_binding_endpoints parse port_of es).0)
        ≡ map (ref_of parse port_of) (keep (goes_to k) es)
  unfolding aggregate_binding_endpoints lookup
  refs_in-aggregate_binding_endpoints k es = refs_in-aggregate k es ([], [])

  -- Every group stands under its own URL.
  abbrev pub HaveOwnUrls : Desired → Type 0
  HaveOwnUrls [] = Unit
  HaveOwnUrls ((k, b) ∷ m) = (b.spec.endpoint_url ≡ k) × HaveOwnUrls m

  IsMap-insert : (k : String) (b : BoundEndpoint) (m : Desired) → IsMap m → IsMap (insert k b m)
  unfolding insert lookup
  IsMap-insert k b [] u = (refl, tt)
  IsMap-insert k b ((j, d) ∷ m) (absent, u) = elim (Bool-cases (j == k)) [
    | inl same ↦ let is : j ≡ k = ground (arith, eq_iff j k) in rw same (rw is at absent, u)
    | inr other ↦
        rw other
          (ground (arith, lookup-insert k j b m, eq_iff k j, eq_iff j k), IsMap-insert k b m u)
  ]

  HaveOwnUrls-insert :
      (k : String) (b : BoundEndpoint) (m : Desired)
      → b.spec.endpoint_url ≡ k
      → HaveOwnUrls m
      → HaveOwnUrls (insert k b m)
  unfolding insert
  HaveOwnUrls-insert k b [] e h = (e, tt)
  HaveOwnUrls-insert k b ((j, d) ∷ m) e (p, h) = elim (Bool-cases (j == k)) [
    | inl same ↦ rw same (e, h)
    | inr other ↦ rw other (p, HaveOwnUrls-insert k b m e h)
  ]

  own_url :
      (k : String) (b : BoundEndpoint) (m : Desired)
      → HaveOwnUrls m
      → lookup k m ≡ some b
      → b.spec.endpoint_url ≡ k
  unfolding lookup
  own_url k b [] h e = cc
  own_url k b ((j, d) ∷ m) (p, h) e = elim (Bool-cases (j == k)) [
    | inl same ↦ ground (arith, eq_iff j k)
    | inr other ↦ own_url k b m h (ground arith)
  ]

  group_of-url :
      (p : ParsedHostport) (o : Option BoundEndpoint)
      → ((b : BoundEndpoint) → o ≡ some b → b.spec.endpoint_url ≡ endpoint_url_of p)
      → (group_of parse port_of p o).spec.endpoint_url ≡ endpoint_url_of p
  unfolding group_of
  group_of-url p none h = refl
  group_of-url p (some b) h = h b refl

  -- What the poller relies on: no URL is repeated, and each stands in its bound endpoint.
  pub record IsGrouped (m : Desired) : Type 0 where
    pub map_like : IsMap m
    pub own_urls : HaveOwnUrls m

  IsGrouped-add :
      (e : ApiEndpoint) (o : Option ParsedHostport) (s : Desired × List String)
      → IsGrouped s.0
      → IsGrouped (add_endpoint parse port_of e o s).0
  unfolding add_endpoint
  IsGrouped-add e none (m, errors) g = g
  IsGrouped-add e (some p) (m, errors) g =
      let url = endpoint_url_of p in
      let v = with_ref parse port_of e (group_of parse port_of p (lookup url m)) in
      record {
        map_like = IsMap-insert url v m g.map_like;
        own_urls =
            HaveOwnUrls-insert url v m
              (group_of-url p (lookup url m) (λ b at. own_url url b m g.own_urls at)) g.own_urls;
      }

  IsGrouped-aggregate :
      (es : List ApiEndpoint) (s : Desired × List String)
      → IsGrouped s.0
      → IsGrouped (aggregate_from parse port_of es s).0
  unfolding aggregate_from
  IsGrouped-aggregate [] s g = g
  IsGrouped-aggregate (e ∷ es) s g =
      let o = parse_hostport parse port_of e.proto e.public_url in
      IsGrouped-aggregate es (add_endpoint parse port_of e o s) (IsGrouped-add e o s g)

  -- Whatever the endpoints: the groups have distinct URLs, and each bound endpoint has the URL it
  -- stands under.
  pub aggregate_binding_endpoints-IsGrouped :
      (es : List ApiEndpoint) → IsGrouped (aggregate_binding_endpoints parse port_of es).0
  unfolding aggregate_binding_endpoints
  aggregate_binding_endpoints-IsGrouped es =
      IsGrouped-aggregate es ([], []) (record { map_like = tt; own_urls = tt })
