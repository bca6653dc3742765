-- ===== src/Drain.antt =====
-- internal/drain/drain.go and state.go, `boundedDrainErrors` of internal/drain/orchestrator.go and
-- the finalizers of internal/util/k8s.go: draining every resource that carries a finalizer of the
-- operator. The Kubernetes client and the finalizer helpers of controller-runtime are a parameter.
-- An error is its message.
pub mod Laws
pub mod Reports
use ngrok_operator.Common.{
  ℕ, zero, suc, ◌+◌, ◌-◌, String, ◌<>◌, Bool, true, false, not, ◌&&◌, ◌||◌, Option, none, some,
  List, [], ◌∷◌, ◌++◌, map, ltb, leb, length, take, drop, decimal, if◌then◌else◌,
}
use ngrok_operator.Names.{chars, text}

-- The answers of the client: to a list, to a delete, and to a read during the wait.
pub data Listing (O : Type 0) : Type 0 where
  items : List O → Listing O
  no_match : String → Listing O
  list_failed : String → Listing O

pub data Deletion : Type 0 where
  deleted already_gone : Deletion
  delete_failed : String → Deletion

pub data Presence : Type 0 where
  gone present unknown : Presence

-- A cluster W and objects O. A poll may find the cluster changed by others.
pub record Cluster (W O : Type 0) : Type 0 where
  pub namespace : O → String
  pub name : O → String
  pub contains_finalizer : O → String → Bool
  pub remove_finalizer : O → String → Bool × O
  pub list : W → String → Listing O
  pub patch : W → O → Option String × W
  pub delete : W → O → Deletion × W
  pub get : W → O → Presence × W

pub data DrainPolicy : Type 0 where
  delete_policy retain_policy : DrainPolicy
  other_policy : String → DrainPolicy

pub record DrainResult : Type 0 where
  pub total : ℕ
  pub completed : ℕ
  pub failed : ℕ
  pub errors : List String

unfoldable pub progress : DrainResult → String
progress r = decimal (r.completed + r.failed) <> "/" <> decimal r.total

unfoldable pub is_complete : DrainResult → Bool
is_complete r = leb r.total (r.completed + r.failed)

unfoldable pub has_errors : DrainResult → Bool
has_errors r = ltb 0 (length r.errors)

abbrev pub finalizer_name : String
finalizer_name = "ngrok.com/finalizer"

abbrev pub legacy_finalizer_name : String
legacy_finalizer_name = "k8s.ngrok.com/finalizer"

-- The types of resources, in the order of `DrainAll`: the kind, whether a missing CRD is skipped,
-- and whether the resource is the user's.
pub record ResourceHandler : Type 0 where
  pub kind : String
  pub skip_no_match : Bool
  pub is_user : Bool

abbrev handler : String → Bool → Bool → ResourceHandler
handler kind skip is_user = record { kind = kind; skip_no_match = skip; is_user = is_user }

abbrev pub handlers : List ResourceHandler
handlers =
    handler "HTTPRoute" true true
    ∷ (handler "TCPRoute" true true
        ∷ (handler "TLSRoute" true true
            ∷ (handler "Ingress" false true
                ∷ (handler "Service" false true
                    ∷ (handler "Gateway" true true
                        ∷ (handler "CloudEndpoint" false false
                            ∷ (handler "AgentEndpoint" false false
                                ∷ (handler "Domain" false false
                                    ∷ (handler "IPPolicy" false false
                                        ∷ (handler "BoundEndpoint" false false ∷ []))))))))))

-- The counts after one resource.
abbrev pub count : DrainResult → Option String → DrainResult
count r none = record r { total = r.total + 1; completed = r.completed + 1 }
count r (some e) = record r {
  total = r.total + 1;
  failed = r.failed + 1;
  errors = r.errors ++ (e ∷ []);
}

abbrev pub nothing_drained : DrainResult
nothing_drained = record { total = 0; completed = 0; failed = 0; errors = [] }

abbrev pub listing_failed : String → String → DrainResult
listing_failed kind e = record nothing_drained {
  errors = ("failed to list " <> kind <> ": " <> e) ∷ [];
}

-- The results of two types of resources together.
abbrev pub add_result : DrainResult → DrainResult → DrainResult
add_result r s = record {
  total = r.total + s.total;
  completed = r.completed + s.completed;
  failed = r.failed + s.failed;
  errors = r.errors ++ s.errors;
}

module _ {W O : Type 0} (c : Cluster W O) where
  unfoldable pub has_finalizer : O → Bool
  has_finalizer o =
      c.contains_finalizer o finalizer_name || c.contains_finalizer o legacy_finalizer_name

  -- Both finalizers go; the answer is whether one was there.
  unfoldable pub remove_finalizers : O → Bool × O
  remove_finalizers o =
      let (removed_new, o') = c.remove_finalizer o finalizer_name in
      let (removed_legacy, o'') = c.remove_finalizer o' legacy_finalizer_name in
      (removed_new || removed_legacy, o'')

  unfoldable pub remove_and_sync_finalizer : W → O → Option String × W
  unfolding remove_finalizers
  remove_and_sync_finalizer w o =
      let (removed, o') = remove_finalizers o in if removed then c.patch w o' else (none, w)

  abbrev pub place : O → String
  place o = c.namespace o <> "/" <> c.name o

  abbrev pub wrap : String → O → Option String × W → Option String × W
  wrap what o (none, w) = (none, w)
  wrap what o (some e, w) = (some (what <> place o <> ": " <> e), w)

  unfoldable pub drain_user_resource : W → O → Option String × W
  unfolding remove_and_sync_finalizer
  drain_user_resource w o =
      wrap "failed to remove finalizer from " o (remove_and_sync_finalizer w o)

  -- The polls that fit in the time limit; the last one ends the wait with the deadline's error.
  unfoldable pub wait_for_deletion : ℕ → W → O → Option String × W
  wait_for_deletion zero w o = (some "context deadline exceeded", w)
  wait_for_deletion (suc n) w o =
      let (p, w') = c.get w o in
      let later = wait_for_deletion n w' o in
      elim p [ gone ↦ (none, w') | present ↦ later | unknown ↦ later ]

  unfoldable pub after_deletion : ℕ → Deletion × W → O → Option String × W
  after_deletion polls (deleted, w) o =
      wrap "failed waiting for deletion of " o (wait_for_deletion polls w o)
  after_deletion polls (already_gone, w) o = (none, w)
  after_deletion polls (delete_failed e, w) o =
      (some ("failed to delete " <> place o <> ": " <> e), w)

  unfoldable pub drain_operator_resource : DrainPolicy → ℕ → W → O → Option String × W
  unfolding after_deletion remove_and_sync_finalizer
  drain_operator_resource delete_policy polls w o = after_deletion polls (c.delete w o) o
  drain_operator_resource retain_policy polls w o =
      wrap "failed to remove finalizer from " o (remove_and_sync_finalizer w o)
  drain_operator_resource (other_policy _) polls w o = (none, w)

  -- One resource after the other; a failure is counted, and the loop goes on.
  unfoldable pub drain_items :
      (W → O → Option String × W) → List O → W → DrainResult → DrainResult × W
  drain_items drain_one [] w r = (r, w)
  drain_items drain_one (o ∷ os) w r =
      if not (has_finalizer o)
      then drain_items drain_one os w r
      else let (outcome, w') = drain_one w o in drain_items drain_one os w' (count r outcome)

  unfoldable pub drain_listing :
      String → Bool → (W → O → Option String × W) → Listing O → W → DrainResult × W
  drain_listing kind skip drain_one (items os) w = drain_items drain_one os w nothing_drained
  drain_listing kind skip drain_one (no_match e) w =
      if skip then (nothing_drained, w) else (listing_failed kind e, w)
  drain_listing kind skip drain_one (list_failed e) w = (listing_failed kind e, w)

  unfoldable pub drain_list : DrainPolicy → ℕ → ResourceHandler → W → DrainResult × W
  drain_list policy polls h w =
      drain_listing h.kind h.skip_no_match
        (if h.is_user then drain_user_resource else drain_operator_resource policy polls)
        (c.list w h.kind) w

  unfoldable pub drain_each :
      DrainPolicy → ℕ → List ResourceHandler → W → DrainResult → DrainResult × W
  drain_each policy polls [] w r = (r, w)
  drain_each policy polls (h ∷ hs) w r =
      let (s, w') = drain_list policy polls h w in drain_each policy polls hs w' (add_result r s)

  unfoldable pub drain_all : DrainPolicy → ℕ → W → DrainResult × W
  drain_all policy polls w = drain_each policy polls handlers w nothing_drained

-- At most this many errors are kept, the last ones, with at most this many characters each.
abbrev pub max_drain_errors : ℕ
max_drain_errors = 20

abbrev pub max_drain_error_length : ℕ
max_drain_error_length = 1024

unfoldable pub bounded_drain_errors : List String → List String
bounded_drain_errors errors =
    map
      (λ (message : String).
        if ltb max_drain_error_length (length (chars message))
        then text (take max_drain_error_length (chars message))
        else message)
      (if ltb max_drain_errors (length errors)
        then drop (length errors - max_drain_errors) errors
        else errors)

-- The checker of state.go: its flag, and one question, to which the resource answers whether its
-- Draining condition is true, or `none` where it cannot be read.
unfoldable pub is_draining : Bool → Option Bool → Bool × Bool
is_draining true answer = (true, true)
is_draining false none = (false, false)
is_draining false (some true) = (true, true)
is_draining false (some false) = (false, false)

unfoldable pub set_draining : Bool → Bool
set_draining flag = true
