-- ===== src/Examples/Reconciles.antt =====
-- Reconciles of an object that is new, and of one that is deleted.
use ngrok_operator.Common.{Bool, true, false, ◌==◌, nat_eq, none, some, [], ◌∷◌, ◌≡◌, refl, any}
use ngrok_operator.Reconcile.{
  Error, NgrokError, OperatorCode, Object, fetched, patched, Answers, Controller, Call, created,
  add_patched, deleted, remove_patched, returns, no_result, reconcile, has_finalizer,
  reconcile_object, upsert, upsert_patched, upsert_remote,
}
use ngrok_operator.Reconcile.Laws.{
  run, is_removed, gone_by, IsProtected, reconcile_protects, reconcile_releases, reconcile_finishes,
}

abbrev no_code : NgrokError → OperatorCode → Bool
no_code e code = false

-- An API error is for something that is not there when its status is 404.
abbrev is_404 : Error → Bool
is_404 (Error.ngrok e) = e.status_code == 404
is_404 _ = false

abbrev new_object : Object
new_object = record { deleting = false; finalizer = false; legacy_finalizer = false; id = "" }

abbrev old_object : Object
old_object = record { deleting = true; finalizer = false; legacy_finalizer = true; id = "ep_1" }

abbrev controller : Controller
controller = record { has_status_id = true; err_result = none }

-- Patches succeed, and the remote resource is not found when it is deleted.
abbrev answers : Object → Bool → Answers
answers o draining = record {
  get = fetched o;
  draining = draining;
  add_patch = patched (record o { legacy_finalizer = true });
  create = none;
  update = none;
  delete = some (Error.ngrok (record { status_code = 404; error_code = "" }));
  remove_patch = patched (record o { legacy_finalizer = false });
}

reconcile_protects_example :
    IsProtected
      (answers new_object false)
      new_object
      (run no_code is_404 controller (answers new_object false) new_object)
unfolding reconcile_object upsert upsert_patched upsert_remote
    ngrok_operator.Reconcile.add_finalizer
reconcile_protects_example =
    reconcile_protects no_code is_404 controller (answers new_object false) new_object refl

reconcile_releases_example :
    (true ≡ true)
    × ((run no_code is_404 controller (answers old_object true) old_object
          ≡ deleted ∷ (remove_patched ∷ []))
        × (gone_by is_404 (answers old_object true).delete ≡ true))
unfolding has_finalizer
reconcile_releases_example =
    reconcile_releases no_code is_404 controller (answers old_object true) old_object refl refl (
      reconcile_finishes no_code is_404 controller (answers old_object true) old_object refl refl
        refl)

reconcile_finishes_example :
    any is_removed (run no_code is_404 controller (answers old_object true) old_object) ≡ true
unfolding has_finalizer
reconcile_finishes_example =
    reconcile_finishes no_code is_404 controller (answers old_object true) old_object refl refl refl
