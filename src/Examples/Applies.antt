-- ===== src/Examples/Applies.antt =====
-- A cluster in memory: one endpoint to update, one to delete, one of a user and one to create.
use mathlib.Core.Option.{none-ne-some, some-injective}
use ngrok_operator.Common.{
  String, true, false, Option, none, some, List, [], ◌∷◌, ◌==◌, string_eq, lookup, insert, delete,
  lookup-insert, lookup-delete, is_some, if◌then◌else◌, ==_refl, ◌≡◌, refl, arith, Bool-cases, inl,
  inr, map, subst, sym, ap, ◌∙◌, All,
}
use ngrok_operator.Labels.{
  LabelMap, ControllerLabelValues, controller_labels, ensure_controller_labels,
  has_controller_labels, validate_controller_label_values, label, text_or_empty, or_empty,
}
use ngrok_operator.Labels.Laws.{ensure-has}
use ngrok_operator.Translator.Assemble.{namespaced_name_beq, NamespacedName, namespaced_name_eq}
use ngrok_operator.Driver.Apply.{
  bring_up_to_date, set_spec, set_labels, set_annotations, apply_current, apply_one, create_each,
  Object, object_key, deleted, not_found, delete_failed, Client, apply_endpoints, Desired,
  should_be_skipped_in_apply,
}
use ngrok_operator.Driver.Apply.Laws.{ClientFrame, ClientLaws, stored_as, updated}
use ngrok_operator.Driver.Apply.Keys.{managed_at}
use ngrok_operator.Driver.Apply.Converges.{IsKeyed, Settles, apply_endpoints-Settles}
use ngrok_operator.Driver.Apply.Safety.{untouched}
use ngrok_operator.Driver.Apply.Stable.{IsListing, apply_endpoints_stable}

abbrev Cluster : Type 0
Cluster = List (NamespacedName × Object String)

-- The list answers are not used by an apply.
abbrev memory : Client Cluster String
memory = record {
  list = λ w s. some (map (λ p. p.1) w);
  create = λ w o.
      if is_some (lookup (object_key o) w)
      then (some "exists", w)
      else (none, insert (object_key o) (record o { uid = "new" }) w);
  update = λ w o.
      if is_some (lookup (object_key o) w)
      then (none, insert (object_key o) o w)
      else (some "missing", w);
  remove = λ w o.
      if is_some (lookup (object_key o) w)
      then (deleted, delete (object_key o) w)
      else (not_found, w);
}

-- The default for a spec that is left out.
abbrev admitted : String → String
admitted s = if s == "" then "by the operator" else s

abbrev defaulted : Option (Object String) → Option (Object String)
defaulted none = none
defaulted (some o) = some (stored_as admitted o)

admitted_twice : (s : String) → admitted (admitted s) ≡ admitted s
admitted_twice s = elim (Bool-cases (s == "")) [ inl e ↦ rw e refl | inr e ↦ rw (e, e) refl ]

defaulted_stored :
    (m : Option (Object String)) (o : Object String)
    → defaulted m ≡ some o
    → admitted o.spec ≡ o.spec
defaulted_stored none o h = absurd (none-ne-some o h)
defaulted_stored (some x) o h =
    subst (λ (y : Object String). admitted y.spec ≡ y.spec)
      (some-injective (stored_as admitted x) o h) (admitted_twice x.spec)

memory-ClientFrame : ClientFrame Cluster String memory
memory-ClientFrame = record {
  get = λ w k. defaulted (lookup k w);
  create_frame =
      λ w o k other. ground (arith, lookup-insert (object_key o) k (record o { uid = "new" }) w);
  update_frame = λ w o k other. ground (arith, lookup-insert (object_key o) k o w);
  remove_frame = λ w o k other. ground (arith, lookup-delete (object_key o) k w);
}

memory-ClientLaws : ClientLaws Cluster String memory
unfolding memory-ClientFrame
memory-ClientLaws = record {
  frame = memory-ClientFrame;
  new_uid = λ w o. "new";
  admitted = admitted;
  stored = λ w k o at. defaulted_stored (lookup k w) o at;
  create_new = λ w o ok. ground arith;
  create_done = λ w o ok. ground (
    arith,
    lookup-insert (object_key o) (object_key o) (record o { uid = "new" }) w,
    ==_refl (object_key o),
  );
  update_done = λ w o x at ok.
      ground (arith, lookup-insert (object_key o) (object_key o) o w, ==_refl (object_key o));
  remove_done = λ w o ok.
      ground (arith, lookup-delete (object_key o) (object_key o) w, ==_refl (object_key o));
}

abbrev operator : ControllerLabelValues
operator = record { namespace = "ngrok"; name = "operator" }

abbrev endpoint : String → String → Option LabelMap → String → Object String
endpoint name uid labels spec = record {
  namespace = "shop";
  name = name;
  uid = uid;
  labels = labels;
  annotations = none;
  owner_kinds = [];
  spec = spec;
}

abbrev ours : Option LabelMap
ours = some (controller_labels operator)

abbrev key : String → NamespacedName
key name = record { namespace = "shop"; name = name }

abbrev cart : Object String
cart = endpoint "cart" "1" ours "old"

abbrev old_stock : Object String
old_stock = endpoint "stock" "2" ours "stock"

abbrev of_user : Object String
of_user = endpoint "mine" "3" none "mine"

abbrev new_cart : Object String
new_cart = endpoint "cart" "" ours "new"

abbrev checkout : Object String
checkout = endpoint "checkout" "" ours "checkout"

abbrev cluster : Cluster
cluster = (key "cart", cart) ∷ (key "stock", old_stock) ∷ (key "mine", of_user) ∷ []

abbrev current : List (Object String)
current = cart ∷ old_stock ∷ of_user ∷ []

abbrev desired : Desired String
desired = (key "cart", new_cart) ∷ (key "checkout", checkout) ∷ []

abbrev settled : Cluster
settled =
    (key "cart", updated new_cart cart)
    ∷ (key "mine", of_user)
    ∷ (key "checkout", record checkout { uid = "new" })
    ∷ []

abbrev listed : List (Object String)
listed = updated new_cart cart ∷ record checkout { uid = "new" } ∷ []

applied : apply_endpoints memory operator desired current cluster ≡ (none, settled)
unfolding apply_endpoints apply_current apply_one create_each bring_up_to_date set_spec set_labels
    set_annotations should_be_skipped_in_apply has_controller_labels label controller_labels
    text_or_empty lookup insert delete namespaced_name_beq
applied = refl

apply_endpoints-Settles_example :
    Settles admitted
      (managed_at operator (key "cart") current)
      (lookup (key "cart") desired)
      (lookup (key "cart") cluster)
      (lookup (key "cart") (apply_endpoints memory operator desired current cluster).1)
unfolding memory-ClientLaws memory-ClientFrame apply_endpoints apply_current apply_one create_each
    bring_up_to_date set_spec set_labels set_annotations should_be_skipped_in_apply
    has_controller_labels label controller_labels text_or_empty lookup insert delete
    namespaced_name_beq
apply_endpoints-Settles_example =
    apply_endpoints-Settles memory operator memory-ClientLaws desired current cluster (key "cart")
      (refl, (refl, tt)) (refl, (refl, (refl, tt))) (refl, (refl, (refl, tt))) refl

untouched_example :
    lookup (key "mine") (apply_endpoints memory operator desired current cluster).1
    ≡ lookup (key "mine") cluster
unfolding memory-ClientLaws memory-ClientFrame managed_at apply_endpoints apply_current apply_one
    create_each bring_up_to_date set_spec set_labels set_annotations should_be_skipped_in_apply
    has_controller_labels label controller_labels text_or_empty lookup insert delete
    namespaced_name_beq
untouched_example =
    untouched memory operator memory-ClientFrame desired current cluster (key "mine")
      (refl, (refl, tt)) refl refl

-- The list of all objects of a cluster is complete.
complete :
    (m : Cluster) (k : NamespacedName) (o : Object String)
    → IsKeyed m
    → lookup k m ≡ some o
    → should_be_skipped_in_apply operator o ≡ false
    → managed_at operator k (map (λ p. p.1) m) ≡ some o
unfolding lookup managed_at
complete [] k o _ at free = cc
complete ((j, x) ∷ m) k o (own, keyed) at free = elim (Bool-cases (j == k)) [
  | inl this ↦
      let same : x ≡ o = some-injective x o (rw this at at) in
      rw (← same, own, this) (rw (same, free) refl)
  | inr other ↦ rw (own, other) (ground (arith, complete m k o keyed (rw other at at) free))
]

-- Where nothing is left out, an object is read as it was written.
read_back :
    (m : Cluster) (k : NamespacedName)
    → All (λ p. admitted p.1.spec ≡ p.1.spec) m
    → defaulted (lookup k m) ≡ lookup k m
unfolding lookup
read_back [] k _ = refl
read_back ((j, x) ∷ m) k (this, rest) = elim (Bool-cases (j == k)) [
  | inl e ↦ rw e (ap (λ s. some (record x { spec = s })) this)
  | inr e ↦ rw e (read_back m k rest)
]

cluster-IsListing : IsListing memory operator memory-ClientLaws cluster current
unfolding memory-ClientLaws memory-ClientFrame managed_at lookup should_be_skipped_in_apply
    has_controller_labels label controller_labels text_or_empty namespaced_name_beq
cluster-IsListing = record {
  distinct = (refl, (refl, (refl, tt)));
  there = (refl, (refl, (refl, tt)));
  complete = λ k o at free.
      complete cluster k o (refl, (refl, (refl, tt)))
        (sym (read_back cluster k (refl, (refl, (refl, tt)))) ∙ at) free;
}

settled-IsListing :
    IsListing memory operator memory-ClientLaws
      (apply_endpoints memory operator desired current cluster).1
      (map (λ p. p.1) settled)
unfolding memory-ClientLaws memory-ClientFrame managed_at apply_endpoints apply_current apply_one
    create_each bring_up_to_date set_spec set_labels set_annotations should_be_skipped_in_apply
    has_controller_labels label controller_labels text_or_empty lookup insert delete
    namespaced_name_beq
settled-IsListing = record {
  distinct = (refl, (refl, (refl, tt)));
  there = (refl, (refl, (refl, tt)));
  complete = λ k o at free.
      complete settled k o (refl, (refl, (refl, tt)))
        (sym (read_back settled k (refl, (refl, (refl, tt)))) ∙ at) free;
}

-- A client that refuses every call.
abbrev refusing : Client Cluster String
refusing = record {
  list = λ w s. none;
  create = λ w o. (some "refused", w);
  update = λ w o. (some "refused", w);
  remove = λ w o. (delete_failed "refused", w);
}

apply_endpoints_stable_example :
    apply_endpoints refusing operator desired (map (λ p. p.1) settled) cluster ≡ (none, cluster)
unfolding memory-ClientLaws memory-ClientFrame managed_at apply_endpoints apply_current apply_one
    create_each bring_up_to_date set_spec set_labels set_annotations should_be_skipped_in_apply
    has_controller_labels label controller_labels text_or_empty lookup insert delete
    namespaced_name_beq
apply_endpoints_stable_example =
    apply_endpoints_stable memory operator memory-ClientLaws refusing cluster desired current
      (map (λ p. p.1) settled) cluster (refl, (refl, tt)) (refl, (refl, tt)) (refl, (refl, tt))
      cluster-IsListing refl settled-IsListing

abbrev labelled : Option LabelMap
labelled = (ensure_controller_labels operator none).1

ensure-has_example :
    (has_controller_labels operator labelled ≡ true)
    × (ensure_controller_labels operator labelled ≡ (false, labelled))
    × (lookup "team" (controller_labels operator) ≡ none
        → label "team" (or_empty labelled) ≡ label "team" (or_empty none))
unfolding validate_controller_label_values
ensure-has_example = ensure-has operator none "team" refl
