-- ===== src/Drain/Laws.antt =====
-- `DrainAll` of internal/drain/drain.go: its counts, and what it calls.
use ngrok_operator.Common.{
  ℕ, suc, ◌+◌, ◌≤◌, String, Bool, true, false, Option, none, some, List, [], ◌∷◌, length,
  length-append, keep, if◌then◌else◌, ◌≡◌, refl, arith, Bool-cases, inl, inr,
}
use ngrok_operator.Drain.{
  Listing, items, no_match, list_failed, Deletion, Cluster, DrainPolicy, retain_policy, DrainResult,
  ResourceHandler, handlers, has_finalizer, remove_finalizers, remove_and_sync_finalizer,
  drain_user_resource, drain_operator_resource, count, drain_items, drain_listing, drain_list,
  drain_each, drain_all, add_result, nothing_drained, listing_failed, has_errors, is_complete,
}

-- Every resource is counted once, and every failure has an error.
pub record IsCounted (r : DrainResult) : Type 0 where
  pub sums : r.completed + r.failed ≡ r.total
  pub reported : r.failed ≤ length r.errors

IsCounted-count : (r : DrainResult) (o : Option String) → IsCounted r → IsCounted (count r o)
IsCounted-count r none h = record { sums = omega (arith, h.sums); reported = h.reported }
IsCounted-count r (some e) h = record {
  sums = omega (arith, h.sums);
  reported = omega (arith, h.reported, length-append {0} r.errors (e ∷ []));
}

IsCounted-add_result : (r s : DrainResult) → IsCounted r → IsCounted s → IsCounted (add_result r s)
IsCounted-add_result r s h k = record {
  sums = omega (arith, h.sums, k.sums);
  reported = omega (arith, h.reported, k.reported, length-append {0} r.errors s.errors);
}

total-count : (r : DrainResult) (o : Option String) → (count r o).total ≡ r.total + 1
total-count r none = refl
total-count r (some e) = refl

module _ {W O : Type 0} (c : Cluster W O) where
  drain_items-IsCounted :
      (f : W → O → Option String × W) (os : List O) (w : W) (r : DrainResult)
      → IsCounted r
      → IsCounted (drain_items c f os w r).0
  unfolding drain_items
  drain_items-IsCounted f [] w r h = h
  drain_items-IsCounted f (o ∷ os) w r h = elim (Bool-cases (has_finalizer c o)) [
    | inl marked ↦
        rw marked
          (drain_items-IsCounted f os (f w o).1 (count r (f w o).0) (IsCounted-count r (f w o).0 h))
    | inr free ↦ rw free (drain_items-IsCounted f os w r h)
  ]

  nothing-IsCounted : IsCounted nothing_drained
  nothing-IsCounted = record { sums = refl; reported = omega arith }

  failed-IsCounted : (kind e : String) → IsCounted (listing_failed kind e)
  failed-IsCounted kind e = record { sums = refl; reported = omega arith }

  drain_listing-IsCounted :
      (kind : String) (skip : Bool) (f : W → O → Option String × W) (l : Listing O) (w : W)
      → IsCounted (drain_listing c kind skip f l w).0
  unfolding drain_listing
  drain_listing-IsCounted kind skip f (items os) w =
      drain_items-IsCounted f os w nothing_drained nothing-IsCounted
  drain_listing-IsCounted kind true f (no_match e) w = nothing-IsCounted
  drain_listing-IsCounted kind false f (no_match e) w = failed-IsCounted kind e
  drain_listing-IsCounted kind skip f (list_failed e) w = failed-IsCounted kind e

  drain_each-IsCounted :
      (policy : DrainPolicy) (polls : ℕ) (hs : List ResourceHandler) (w : W) (r : DrainResult)
      → IsCounted r
      → IsCounted (drain_each c policy polls hs w r).0
  unfolding drain_each drain_list
  drain_each-IsCounted policy polls [] w r h = h
  drain_each-IsCounted policy polls (t ∷ ts) w r h =
      let f = if t.is_user then drain_user_resource c else drain_operator_resource c policy polls in
      let step = drain_listing c t.kind t.skip_no_match f (c.list w t.kind) w in
      drain_each-IsCounted policy polls ts step.1 (add_result r step.0) (
        IsCounted-add_result r step.0 h
          (drain_listing-IsCounted t.kind t.skip_no_match f (c.list w t.kind) w))

  -- However the cluster answers: every resource that a drain counts is either completed or failed,
  -- so that the drain is complete, and every failed one has an error.
  pub drain_all-IsCounted :
      (policy : DrainPolicy) (polls : ℕ) (w : W)
      → IsCounted (drain_all c policy polls w).0
        × (is_complete (drain_all c policy polls w).0 ≡ true)
  unfolding drain_all is_complete
  drain_all-IsCounted policy polls w =
      let h = drain_each-IsCounted policy polls handlers w nothing_drained nothing-IsCounted in
      (h, ground (arith, h.sums))

  -- A drain without errors has completed every resource that it counted.
  pub drain_all-without_errors :
      (policy : DrainPolicy) (polls : ℕ) (w : W)
      → has_errors (drain_all c policy polls w).0 ≡ false
      → (drain_all c policy polls w).0.completed ≡ (drain_all c policy polls w).0.total
  unfolding has_errors
  drain_all-without_errors policy polls w e =
      let h = (drain_all-IsCounted policy polls w).0 in ground (arith, h.sums, h.reported)

  drain_items-total :
      (f : W → O → Option String × W) (os : List O) (w : W) (r : DrainResult)
      → (drain_items c f os w r).0.total ≡ r.total + length (keep (has_finalizer c) os)
  unfolding drain_items
  drain_items-total f [] w r = omega arith
  drain_items-total f (o ∷ os) w r = elim (Bool-cases (has_finalizer c o)) [
    | inl marked ↦
        rw marked (total_after (f w o).0 (drain_items-total f os (f w o).1 (count r (f w o).0)))
    | inr free ↦ rw free (drain_items-total f os w r)
  ]
    where
      total_after :
          (a : Option String)
          → ((drain_items c f os (f w o).1 (count r (f w o).0)).0.total
              ≡ (count r (f w o).0).total + length (keep (has_finalizer c) os))
          → (drain_items c f os (f w o).1 (count r (f w o).0)).0.total
            ≡ r.total + suc (length (keep (has_finalizer c) os))
      total_after a ih = omega (arith, ih, total-count r (f w o).0)

  -- Where a type of resource can be listed, exactly its resources with a finalizer of the operator
  -- are counted, whichever of them fail.
  pub drain_list-total :
      (policy : DrainPolicy) (polls : ℕ) (h : ResourceHandler) (w : W) (os : List O)
      → c.list w h.kind ≡ items os
      → (drain_list c policy polls h w).0.total ≡ length (keep (has_finalizer c) os)
  unfolding drain_list drain_listing
  drain_list-total policy polls h w os e =
      let f = if h.is_user then drain_user_resource c else drain_operator_resource c policy polls in
      rw e (omega (arith, drain_items-total f os w nothing_drained))

  -- The cluster with another way to delete.
  abbrev pub deleting_by : (W → O → Deletion × W) → Cluster W O
  deleting_by f = record c { delete = f }

  drain_items-deletes :
      (f : W → O → Deletion × W) (d : W → O → Option String × W) (os : List O) (w : W)
      (r : DrainResult)
      → drain_items (deleting_by f) d os w r ≡ drain_items c d os w r
  unfolding drain_items has_finalizer
  drain_items-deletes f d [] w r = refl
  drain_items-deletes f d (o ∷ os) w r = ground (
    arith,
    drain_items-deletes f d os (d w o).1 (count r (d w o).0),
    drain_items-deletes f d os w r,
  )

  drain_listing-deletes :
      (f : W → O → Deletion × W) (kind : String) (skip : Bool) (d : W → O → Option String × W)
      (l : Listing O) (w : W)
      → drain_listing (deleting_by f) kind skip d l w ≡ drain_listing c kind skip d l w
  unfolding drain_listing
  drain_listing-deletes f kind skip d (items os) w = drain_items-deletes f d os w nothing_drained
  drain_listing-deletes f kind skip d (no_match e) w = refl
  drain_listing-deletes f kind skip d (list_failed e) w = refl

  drain_list-deletes :
      (f : W → O → Deletion × W) (polls : ℕ) (h : ResourceHandler) (w : W)
      → drain_list (deleting_by f) retain_policy polls h w ≡ drain_list c retain_policy polls h w
  unfolding drain_list drain_user_resource drain_operator_resource remove_and_sync_finalizer
      remove_finalizers
  drain_list-deletes f polls h w =
      drain_listing-deletes f h.kind h.skip_no_match _ (c.list w h.kind) w

  drain_each-deletes :
      (f : W → O → Deletion × W) (polls : ℕ) (hs : List ResourceHandler) (w : W) (r : DrainResult)
      → drain_each (deleting_by f) retain_policy polls hs w r
        ≡ drain_each c retain_policy polls hs w r
  unfolding drain_each
  drain_each-deletes f polls [] w r = refl
  drain_each-deletes f polls (h ∷ hs) w r =
      let s = drain_list c retain_policy polls h w in
      rw (drain_list-deletes f polls h w) (drain_each-deletes f polls hs s.1 (add_result r s.0))

  -- Under the policy that retains resources, a drain deletes nothing: whatever a deletion would do,
  -- the result and the cluster are the same.
  pub drain_all-retains :
      (f : W → O → Deletion × W) (polls : ℕ) (w : W)
      → drain_all (deleting_by f) retain_policy polls w ≡ drain_all c retain_policy polls w
  unfolding drain_all
  drain_all-retains f polls w = drain_each-deletes f polls handlers w nothing_drained
