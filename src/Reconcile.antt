-- ===== src/Reconcile.antt =====
-- `Reconcile`, `handleErr` and `CtrlResultForErr` of internal/controller/base_controller.go, with
-- the finalizers of internal/util/k8s.go. One reconcile calls each collaborator at most once, so
-- that its answers are a record; what is called is recorded in order. Reads, logs and events are
-- left out of the record.
pub mod Laws
use ngrok_operator.Common.{
  ℕ, String, Bool, true, false, not, ◌&&◌, ◌||◌, Option, none, some, List, [], ◌∷◌, ◌++◌, ◌==◌,
  nat_eq, string_eq, leb, if◌then◌else◌,
}

-- An error of the ngrok API.
pub record NgrokError : Type 0 where
  pub status_code : ℕ
  pub error_code : String

pub data Error : Type 0 where
  ngrok : NgrokError → Error
  status_error : String → Error
  other_error : String → Error

-- When to come back, in seconds (0 where it is not said), and the error, if it is returned.
pub record Result : Type 0 where
  pub requeue_after : ℕ
  pub error : Option Error

abbrev pub no_result : Result
no_result = record { requeue_after = 0; error = none }

abbrev pub returned : Error → Result
returned e = record { requeue_after = 0; error = some e }

pub data BaseControllerOp : Type 0 where
  create_op update_op delete_op : BaseControllerOp

-- The codes of errors of the operator itself.
pub data OperatorCode : Type 0 where
  failed_to_create_csr failed_to_create_upstream_service : OperatorCode
  failed_to_create_target_service endpoint_denied : OperatorCode

-- The parts of an object that a reconcile reads.
pub record Object : Type 0 where
  pub deleting : Bool
  pub finalizer : Bool
  pub legacy_finalizer : Bool
  pub id : String

unfoldable pub has_finalizer : Object → Bool
has_finalizer o = o.finalizer || o.legacy_finalizer

-- Whether the finalizer was added, and the object with it.
unfoldable pub add_finalizer : Object → Bool × Object
add_finalizer o = (not o.legacy_finalizer, record o { legacy_finalizer = true })

unfoldable pub remove_finalizer : Object → Bool × Object
remove_finalizer o =
    (o.finalizer || o.legacy_finalizer, record o { finalizer = false; legacy_finalizer = false })

-- The answers to a read, and to a patch, which returns the object of the server.
pub data Fetch : Type 0 where
  fetched : Object → Fetch
  missing : Fetch
  fetch_failed : Error → Fetch

pub data Patch : Type 0 where
  patched : Object → Patch
  patch_failed : Error → Patch

pub record Answers : Type 0 where
  pub get : Fetch
  pub draining : Bool
  pub add_patch : Patch
  pub create : Option Error
  pub update : Option Error
  pub delete : Option Error
  pub remove_patch : Patch

-- What a controller provides: whether it reads the ID of the remote resource, and how it answers to
-- errors.
pub record Controller : Type 0 where
  pub has_status_id : Bool
  pub err_result : Option (BaseControllerOp → Object → Error → Result)

pub data Call : Type 0 where
  add_patched created updated deleted remove_patched : Call

-- A reconcile returns a result, or panics.
pub data Outcome : Type 0 where
  returns : Result → Outcome
  panics : Outcome

abbrev pub minute : ℕ
minute = 60

-- The library's tests: a code of an API error, and whether an error is an API error for something
-- that is not there.
module _ (is_error_code : NgrokError → OperatorCode → Bool) (is_not_found : Error → Bool) where
  unfoldable pub ngrok_result : NgrokError → Result
  ngrok_result e =
      if leb 500 e.status_code
      then returned (ngrok e)
      else if e.status_code == 429
      then record { requeue_after = minute; error = none }
      else if e.status_code == 404
      then returned (ngrok e)
      else if is_error_code e failed_to_create_csr
      then record { requeue_after = 30; error = some (ngrok e) }
      else if is_error_code e failed_to_create_upstream_service
          || is_error_code e failed_to_create_target_service
      then record { requeue_after = minute; error = some (ngrok e) }
      else if is_error_code e endpoint_denied
      then no_result
      else no_result

  unfoldable pub ctrl_result_for_err : Error → Result
  unfolding ngrok_result
  ctrl_result_for_err (ngrok e) = ngrok_result e
  ctrl_result_for_err (status_error m) = record {
    requeue_after = 10;
    error = some (status_error m);
  }
  ctrl_result_for_err (other_error m) = returned (other_error m)

  unfoldable pub handle_err : Controller → BaseControllerOp → Object → Error → Result
  unfolding ctrl_result_for_err
  handle_err c op o e = elim c.err_result [ none ↦ ctrl_result_for_err e | some f ↦ f op o e ]

  -- The answer to `Create`, `Update` or the last patch.
  unfoldable pub finished : Controller → BaseControllerOp → Object → Option Error → Result
  finished c op o none = no_result
  finished c op o (some e) = handle_err c op o e

  pub patch_result : Patch → Result
  patch_result (patched o) = no_result
  patch_result (patch_failed e) = returned e

  -- What follows the finalizer: the object has an ID, or is to be created.
  unfoldable pub upsert_remote : Controller → Answers → List Call → Object → List Call × Result
  upsert_remote c a calls o =
      if c.has_status_id && o.id == ""
      then (calls ++ (created ∷ []), finished c create_op o a.create)
      else (calls ++ (updated ∷ []), finished c update_op o a.update)

  unfoldable pub upsert_patched : Controller → Answers → Patch → List Call × Result
  upsert_patched c a (patched o) = upsert_remote c a (add_patched ∷ []) o
  upsert_patched c a (patch_failed e) = (add_patched ∷ [], returned e)

  unfoldable pub upsert : Controller → Answers → Object → List Call × Result
  upsert c a o =
      let (added, o') = add_finalizer o in
      if added then upsert_patched c a a.add_patch else upsert_remote c a [] o'

  -- The finalizer goes once the remote resource is gone.
  pub release : Answers → List Call → Object → List Call × Result
  release a calls o =
      let (removed, o') = remove_finalizer o in
      if removed
      then (calls ++ (remove_patched ∷ []), patch_result a.remove_patch)
      else (calls, no_result)

  pub after_delete : Controller → Answers → Object → Option Error → List Call × Result
  after_delete c a o none = release a (deleted ∷ []) o
  after_delete c a o (some e) =
      if is_not_found e
      then release a (deleted ∷ []) o
      else (deleted ∷ [], handle_err c delete_op o e)

  pub remove : Controller → Answers → Object → List Call × Result
  remove c a o =
      if not (has_finalizer o)
      then ([], no_result)
      else if c.has_status_id && not (o.id == "")
      then after_delete c a o a.delete
      else release a [] o

  unfoldable pub reconcile_object : Controller → Answers → Object → List Call × Result
  reconcile_object c a o =
      if a.draining && not o.deleting
      then ([], no_result)
      else if not o.deleting
      then upsert c a o
      else remove c a o

  -- The first log line reads the ID even where the controller has no way to do so.
  pub reconcile_fetched : Controller → Answers → Fetch → List Call × Outcome
  reconcile_fetched c a missing = ([], returns no_result)
  reconcile_fetched c a (fetch_failed e) = ([], returns (returned e))
  reconcile_fetched c a (fetched o) =
      if c.has_status_id
      then (let (calls, r) = reconcile_object c a o in (calls, returns r))
      else ([], panics)

  unfoldable pub reconcile : Controller → Answers → List Call × Outcome
  reconcile c a = reconcile_fetched c a a.get
