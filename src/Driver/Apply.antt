-- ===== src/Driver/Apply.antt =====
-- `applyAgentEndpoints`, `applyCloudEndpoints`, `shouldBeSkippedInApply` and `SyncEndpoints` of
-- pkg/managerdriver/endpoints.go, and the two list functions of controller_label_list.go. The two
-- kinds of endpoint go through the same steps, so that they are written once, over the type of the
-- spec; that of a cloud endpoint also copies a status ID into a desired object that it drops
-- behind. A label map or annotation map is the list of its entries in the order of their keys. The
-- API client is a parameter.
pub mod Laws
pub mod Keys
pub mod Loop
pub mod Quiet
pub mod Converges
pub mod Safety
pub mod Stable
use ngrok_operator.Common.{
  String, Bool, true, false, not, ◌&&◌, ◌||◌, Option, none, some, List, [], ◌∷◌, ◌++◌, ◌==◌,
  string_eq, pair_eq, list_eq, option_eq, Eq, lookup, delete, any, contains, if◌then◌else◌,
}
use ngrok_operator.Labels.{
  LabelMap, ControllerLabelValues, has_controller_labels, controller_label_selectors,
}
use ngrok_operator.Translator.Assemble.{NamespacedName, namespaced_name_eq}

-- What a driver reads and writes of an endpoint; `owner_kinds` are the kinds of its owner references.
pub record Object (S : Type 0) : Type 0 where
  pub namespace : String
  pub name : String
  pub uid : String
  pub labels : Option LabelMap
  pub annotations : Option LabelMap
  pub owner_kinds : List String
  pub spec : S

abbrev pub object_key : {S : Type 0} → Object S → NamespacedName
object_key o = record { namespace = o.namespace; name = o.name }

pub data Deletion : Type 0 where
  deleted : Deletion
  not_found : Deletion
  delete_failed : String → Deletion

-- The calls of the API client: the error, if any, and the cluster that is left.
pub record Client (W S : Type 0) : Type 0 where
  pub list : W → LabelMap → Option (List (Object S))
  pub create : W → Object S → Option String × W
  pub update : W → Object S → Option String × W
  pub remove : W → Object S → Deletion × W

unfoldable pub should_be_skipped_in_apply : {S : Type 0} → ControllerLabelValues → Object S → Bool
should_be_skipped_in_apply v o =
    if not (has_controller_labels v o.labels)
    then true
    else any (λ kind. kind == "Service") o.owner_kinds

-- `client.IgnoreNotFound`
abbrev pub ignore_not_found : Deletion → Option String
ignore_not_found deleted = none
ignore_not_found not_found = none
ignore_not_found (delete_failed e) = some e

module _ {S : Type 0} ⦃e : Eq S⦄ where
  unfoldable pub set_spec : Object S → Bool × Object S → Bool × Object S
  set_spec d (b, o) = if d.spec == o.spec then (b, o) else (true, record o { spec = d.spec })

  unfoldable pub set_labels : Object S → Bool × Object S → Bool × Object S
  set_labels d (b, o) =
      if d.labels == o.labels then (b, o) else (true, record o { labels = d.labels })

  unfoldable pub set_annotations : Object S → Bool × Object S → Bool × Object S
  set_annotations d (b, o) =
      if d.annotations == o.annotations
      then (b, o)
      else (true, record o { annotations = d.annotations })

  -- Whether the current object needs an update, and the object to write.
  unfoldable pub bring_up_to_date : Object S → Object S → Bool × Object S
  unfolding set_spec set_labels set_annotations
  bring_up_to_date d o = set_annotations d (set_labels d (set_spec d (false, o)))

abbrev pub Desired : Type 0 → Type 0
Desired S = List (NamespacedName × Object S)

module _ {W S : Type 0} ⦃e : Eq S⦄ (c : Client W S) (v : ControllerLabelValues) where
  -- A failed call ends the function, with the desired map as it is then.
  abbrev pub after_update :
      NamespacedName → Desired S → Option String × W → Option String × Desired S × W
  after_update k desired (none, w) = (none, delete k desired, w)
  after_update k desired (some err, w) = (some err, desired, w)

  -- One round of the loop over the current objects that are not skipped.
  abbrev pub apply_managed :
      Object S → Option (Object S) → Desired S → W → Option String × Desired S × W
  apply_managed o none desired w =
      let (answer, w') = c.remove w o in (ignore_not_found answer, desired, w')
  apply_managed o (some d) desired w =
      let (changed, o') = bring_up_to_date d o in
      after_update (object_key o) desired (if changed then c.update w o' else (none, w))

  unfoldable pub apply_one : Object S → Desired S → W → Option String × Desired S × W
  apply_one o desired w =
      if should_be_skipped_in_apply v o
      then (none, desired, w)
      else apply_managed o (lookup (object_key o) desired) desired w

  unfoldable pub apply_current : List (Object S) → Desired S → W → Option String × Desired S × W
  apply_current [] desired w = (none, desired, w)
  apply_current (o ∷ os) desired w =
      let (failed, desired', w') = apply_one o desired w in
      elim failed [ some err ↦ (some err, desired', w') | none ↦ apply_current os desired' w' ]

  unfoldable pub create_each : Desired S → W → Option String × W
  create_each [] w = (none, w)
  create_each ((k, d) ∷ ds) w =
      let (failed, w') = c.create w d in
      elim failed [ some err ↦ (some err, w') | none ↦ create_each ds w' ]

  -- `applyAgentEndpoints` and `applyCloudEndpoints`
  unfoldable pub apply_endpoints : Desired S → List (Object S) → W → Option String × W
  apply_endpoints desired current w =
      let (failed, desired', w') = apply_current current desired w in
      elim failed [ some err ↦ (some err, w') | none ↦ create_each desired' w' ]

  -- The items that were not seen yet, behind those that were.
  unfoldable pub add_unseen :
      List String → List (Object S) → List (Object S) → List String × List (Object S)
  add_unseen seen out [] = (seen, out)
  add_unseen seen out (o ∷ os) =
      let there = contains seen o.uid in
      add_unseen (if there then seen else o.uid ∷ seen) (if there then out else out ++ (o ∷ [])) os

  unfoldable pub list_selected :
      W → List LabelMap → List String → List (Object S) → Option (List (Object S))
  list_selected w [] seen out = some out
  list_selected w (s ∷ ss) seen out = elim (c.list w s) [
    | none ↦ none
    | some items ↦ let (seen', out') = add_unseen seen out items in list_selected w ss seen' out'
  ]

  -- `listAgentEndpointsForController` and `listCloudEndpointsForController`
  unfoldable pub list_for_controller : W → Option (List (Object S))
  list_for_controller w = list_selected w (controller_label_selectors v) [] []
