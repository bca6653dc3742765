-- ===== src/Reconcile/Laws.antt =====
-- The calls of `Reconcile` of internal/controller/base_controller.go, in their order.
use ngrok_operator.Common.{
  Bool, true, false, ◌&&◌, Option, none, some, List, [], ◌∷◌, ◌==◌, nat_eq, string_eq,
  if◌then◌else◌, ◌≡◌, refl, arith, subst, sym, ◌⊎◌, inl, inr, Bool-cases, any,
}
use ngrok_operator.Reconcile.{
  Error, no_result, Object, has_finalizer, add_finalizer, remove_finalizer, fetched, Patch, patched,
  patch_failed, Answers, Controller, Call, add_patched, created, updated, deleted, remove_patched,
  returns, NgrokError, OperatorCode, upsert_remote, upsert_patched, upsert, release, after_delete,
  remove, reconcile_object, reconcile_fetched, reconcile,
}

-- The remote resource is written.
abbrev pub writes : Call → Bool
writes created = true
writes updated = true
writes _ = false

abbrev pub is_deleted : Call → Bool
is_deleted deleted = true
is_deleted _ = false

abbrev pub is_removed : Call → Bool
is_removed remove_patched = true
is_removed _ = false

-- The remote resource is gone, by an answer to `Delete`: it was deleted, or not found.
abbrev pub gone_by : (Error → Bool) → Option Error → Bool
gone_by is_not_found none = true
gone_by is_not_found (some e) = is_not_found e

-- Where the finalizer is before the remote resource is written: on the object already, or by the
-- first call, a patch that succeeds.
abbrev pub IsProtected : Answers → Object → List Call → Type 0
IsProtected a o calls =
    (o.legacy_finalizer ≡ true)
    ⊎ ((o' : Object) × (a.add_patch ≡ patched o')
        × (last : Call) × (writes last ≡ true)
        × (calls ≡ add_patched ∷ (last ∷ [])))

module _ (is_error_code : NgrokError → OperatorCode → Bool) (is_not_found : Error → Bool) where
  abbrev pub run : Controller → Answers → Object → List Call
  run c a o = (reconcile_object is_error_code is_not_found c a o).0

  -- While the operator drains, a reconcile of an object that could be read and is not being deleted
  -- calls nothing and asks for nothing, for a controller that provides StatusID.
  pub reconcile_draining :
      (c : Controller) (a : Answers) (o : Object)
      → a.get ≡ fetched o
      → c.has_status_id ≡ true
      → a.draining ≡ true
      → o.deleting ≡ false
      → reconcile is_error_code is_not_found c a ≡ ([], returns no_result)
  unfolding reconcile reconcile_fetched reconcile_object
  reconcile_draining c a o g s d n = rw g (ground arith)

  upsert_patched-IsProtected :
      (c : Controller) (a : Answers) (o : Object) (p : Patch)
      → a.add_patch ≡ p
      → any writes (upsert_patched is_error_code is_not_found c a p).0 ≡ true
      → IsProtected a o (upsert_patched is_error_code is_not_found c a p).0
  unfolding upsert_patched upsert_remote
  upsert_patched-IsProtected c a o (patch_failed e) h w = cc
  upsert_patched-IsProtected c a o (patched o') h w =
      elim (Bool-cases (c.has_status_id && o'.id == "")) [
        | inl fresh ↦ inr (o', h, created, refl, rw fresh refl)
        | inr known ↦ inr (o', h, updated, refl, rw known refl)
      ]

  remove-never_writes :
      (c : Controller) (a : Answers) (o : Object)
      → any writes (remove is_error_code is_not_found c a o).0 ≡ false
  unfolding remove after_delete release
  remove-never_writes c a o = ground arith

  -- A remote resource is created or updated only for an object that carries the finalizer that the
  -- operator writes: it did so before, or the first call of the reconcile was the patch that adds it,
  -- and the patch succeeded.
  pub reconcile_protects :
      (c : Controller) (a : Answers) (o : Object)
      → any writes (run c a o) ≡ true
      → IsProtected a o (run c a o)
  unfolding reconcile_object upsert add_finalizer
  reconcile_protects c a o w = elim (Bool-cases o.legacy_finalizer) [
    | inl on_it ↦ inl on_it
    | inr not_yet ↦ elim (Bool-cases o.deleting) [
      | inl ends ↦ absurd (ground (arith, remove-never_writes c a o))
      | inr stays ↦ elim (Bool-cases a.draining) [
        | inl drains ↦ absurd (ground arith)
        | inr works ↦
            let patch = upsert_patched is_error_code is_not_found c a a.add_patch in
            let same : run c a o ≡ patch.0 = ground arith in
            let through = upsert_patched-IsProtected c a o a.add_patch refl (rw same at w) in
            subst (IsProtected a o) (sym same) through
      ]
    ]
  ]

  upsert_patched-never_removes :
      (c : Controller) (a : Answers) (p : Patch)
      → any is_removed (upsert_patched is_error_code is_not_found c a p).0 ≡ false
  unfolding upsert_patched upsert_remote
  upsert_patched-never_removes c a (patch_failed e) = refl
  upsert_patched-never_removes c a (patched o) = ground arith

  upsert-never_removes :
      (c : Controller) (a : Answers) (o : Object)
      → any is_removed (upsert is_error_code is_not_found c a o).0 ≡ false
  unfolding upsert upsert_remote
  upsert-never_removes c a o = ground (arith, upsert_patched-never_removes c a a.add_patch)

  after_delete-calls :
      (c : Controller) (a : Answers) (o : Object) (d : Option Error)
      → has_finalizer o ≡ true
      → (after_delete is_error_code is_not_found c a o d).0
        ≡ (if gone_by is_not_found d then deleted ∷ (remove_patched ∷ []) else deleted ∷ [])
  unfolding after_delete release remove_finalizer has_finalizer
  after_delete-calls c a o none h = ground arith
  after_delete-calls c a o (some e) h = ground arith

  -- The finalizer of an object whose remote ID can be read and is not empty is removed only if the object is being deleted, and
  -- only after `Delete` was called and answered that the remote resource is gone.
  pub reconcile_releases :
      (c : Controller) (a : Answers) (o : Object)
      → c.has_status_id ≡ true
      → (o.id == "") ≡ false
      → any is_removed (run c a o) ≡ true
      → (o.deleting ≡ true)
        × ((run c a o ≡ deleted ∷ (remove_patched ∷ [])) × (gone_by is_not_found a.delete ≡ true))
  unfolding reconcile_object remove
  reconcile_releases c a o s i r = elim (Bool-cases o.deleting) [
    | inl ends ↦ elim (Bool-cases (has_finalizer o)) [
      | inl marked ↦
          let calls = after_delete-calls c a o a.delete marked in
          let same : run c a o ≡ (after_delete is_error_code is_not_found c a o a.delete).0 =
            ground arith in
          ground (arith, calls, same)
      | inr free ↦ absurd (ground arith)
    ]
    | inr stays ↦ absurd (ground (arith, upsert-never_removes c a o))
  ]

  release-removes :
      (a : Answers) (o : Object)
      → has_finalizer o ≡ true
      → any is_removed (release is_error_code is_not_found a [] o).0 ≡ true
  unfolding release remove_finalizer has_finalizer
  release-removes a o e = ground arith

  -- A reconcile of an object that is being deleted and carries a finalizer calls for the removal of
  -- the finalizer, drain or not, if `Delete` answers, where it is called, that the remote resource is
  -- gone.
  pub reconcile_finishes :
      (c : Controller) (a : Answers) (o : Object)
      → o.deleting ≡ true
      → has_finalizer o ≡ true
      → gone_by is_not_found a.delete ≡ true
      → any is_removed (run c a o) ≡ true
  unfolding reconcile_object remove
  reconcile_finishes c a o d h g =
      ground (arith, after_delete-calls c a o a.delete h, release-removes a o h)
