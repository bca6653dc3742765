-- ===== src/Labels/Laws.antt =====
-- `EnsureControllerLabels` of internal/controller/labels/controller.go against the tests for the
-- labels.
use ngrok_operator.Common.{
  String, Bool, true, false, Option, none, some, [], ◌==◌, string_eq, lookup, lookup-insert,
  if◌then◌else◌, ◌≡◌, refl, arith, eq_iff, Bool-cases, inl, inr, sym, ap, ◌∙◌,
}
use ngrok_operator.Labels.{
  LabelMap, ControllerLabelValues, text_or_empty, label, controller_name, controller_namespace,
  legacy_controller_name, legacy_controller_namespace, controller_labels, has_controller_labels,
  or_empty, ensure_label, ensured, ensure_controller_labels, validate_controller_label_values,
}

label-ensure_label :
    (k j s : String) (p : Bool × LabelMap)
    → label j (ensure_label k s p).1 ≡ (if k == j then s else label j p.1)
unfolding ensure_label label text_or_empty
label-ensure_label k j s p = elim (Bool-cases (label k p.1 == s)) [
  | inl there ↦ rw there (ground (arith, eq_iff k j, eq_iff (label k p.1) s))
  | inr other ↦ rw other (ground (arith, lookup-insert k j s p.1))
]

-- The label of a key once all four are set.
wanted : ControllerLabelValues → String → String → String
wanted v j old =
    if legacy_controller_name == j
    then v.name
    else if legacy_controller_namespace == j
    then v.namespace
    else if controller_name == j
    then v.name
    else if controller_namespace == j
    then v.namespace
    else old

label-ensured :
    (v : ControllerLabelValues) (j : String) (m : LabelMap)
    → label j (ensured v m).1 ≡ wanted v j (label j m)
unfolding ensured wanted
label-ensured v j m = simp label-ensure_label

ensure_label_unmodified :
    (k s : String) (p : Bool × LabelMap)
    → (ensure_label k s p).0 ≡ false
    → (p.0 ≡ false) × (label k p.1 ≡ s) × ((ensure_label k s p).1 ≡ p.1)
unfolding ensure_label
ensure_label_unmodified k s p h = ground (arith, eq_iff (label k p.1) s)

ensure_label_same :
    (k s : String) (m : LabelMap) → label k m ≡ s → ensure_label k s (false, m) ≡ (false, m)
unfolding ensure_label
ensure_label_same k s m h = ground (arith, eq_iff (label k m) s)

-- Labels that are all set stay as they are.
record IsLabelled (v : ControllerLabelValues) (m : LabelMap) : Type 0 where
  namespace : label controller_namespace m ≡ v.namespace
  name : label controller_name m ≡ v.name
  legacy_namespace : label legacy_controller_namespace m ≡ v.namespace
  legacy_name : label legacy_controller_name m ≡ v.name

ensured_same :
    (v : ControllerLabelValues) (m : LabelMap) → IsLabelled v m → ensured v m ≡ (false, m)
unfolding ensured
ensured_same v m h = simp (
  ensure_label_same controller_namespace v.namespace m h.namespace,
  ensure_label_same controller_name v.name m h.name,
  ensure_label_same legacy_controller_namespace v.namespace m h.legacy_namespace,
  ensure_label_same legacy_controller_name v.name m h.legacy_name,
)

ensured-IsLabelled : (v : ControllerLabelValues) (m : LabelMap) → IsLabelled v (ensured v m).1
unfolding wanted
ensured-IsLabelled v m = record {
  namespace = label-ensured v controller_namespace m;
  name = label-ensured v controller_name m;
  legacy_namespace = label-ensured v legacy_controller_namespace m;
  legacy_name = label-ensured v legacy_controller_name m;
}

ensured_unmodified :
    (v : ControllerLabelValues) (m : LabelMap) → (ensured v m).0 ≡ false → (ensured v m).1 ≡ m
unfolding ensured
ensured_unmodified v m h =
    let p = ensure_label controller_namespace v.namespace (false, m) in
    let q = ensure_label controller_name v.name p in
    let r = ensure_label legacy_controller_namespace v.namespace q in
    let (last, _, same) = ensure_label_unmodified legacy_controller_name v.name r h in
    let (third, _, same3) =
      ensure_label_unmodified legacy_controller_namespace v.namespace q last in
    let (second, _, same2) = ensure_label_unmodified controller_name v.name p third in
    let (_, _, same1) =
      ensure_label_unmodified controller_namespace v.namespace (false, m) second in
    same ∙ same3 ∙ same2 ∙ same1

ensured_of_nothing :
    (v : ControllerLabelValues)
    → validate_controller_label_values v ≡ true
    → (ensured v []).0 ≡ true
unfolding validate_controller_label_values label lookup text_or_empty
ensured_of_nothing v ok = elim (Bool-cases (ensured v []).0) [
  | inl changed ↦ changed
  | inr kept ↦
      let h = ensured-IsLabelled v [] in
      let empty : v.namespace ≡ "" =
        sym h.namespace ∙ ap (label controller_namespace) (ensured_unmodified v [] kept) in
      ground (arith, eq_iff v.namespace "")
]

-- The labels after `ensured`, whichever way the result is given back.
ensure_controller_labels_lem :
    (v : ControllerLabelValues) (labels : Option LabelMap)
    → validate_controller_label_values v ≡ true
    → (ensure_controller_labels v labels).1 ≡ some (ensured v (or_empty labels)).1
unfolding ensure_controller_labels
ensure_controller_labels_lem v none ok = rw (ensured_of_nothing v ok) refl
ensure_controller_labels_lem v (some m) ok = elim (Bool-cases (ensured v m).0) [
  | inl changed ↦ rw changed refl
  | inr kept ↦ rw kept (ap some (sym (ensured_unmodified v m kept)))
]

IsLabelled-has :
    (v : ControllerLabelValues) (m : LabelMap)
    → IsLabelled v m
    → has_controller_labels v (some m) ≡ true
unfolding has_controller_labels
IsLabelled-has v m h = ground (
  arith,
  eq_iff (label controller_namespace m) v.namespace,
  eq_iff (label controller_name m) v.name,
  h.namespace,
  h.name,
)

IsLabelled-ensure :
    (v : ControllerLabelValues) (m : LabelMap)
    → IsLabelled v m
    → ensure_controller_labels v (some m) ≡ (false, some m)
unfolding ensure_controller_labels
IsLabelled-ensure v m h = simp (ensured_same v m h)

wanted_of_other :
    (v : ControllerLabelValues) (j old : String)
    → lookup j (controller_labels v) ≡ none
    → wanted v j old ≡ old
unfolding wanted controller_labels lookup
wanted_of_other v j old absent = ground arith

-- Once the controller labels are ensured on an object, with a name and a namespace that are not
-- empty, the object has the labels, and ensuring them again modifies nothing. Every label whose key
-- is none of the four is what it was.
pub ensure-has :
    (v : ControllerLabelValues) (labels : Option LabelMap) (j : String)
    → validate_controller_label_values v ≡ true
    → let after = (ensure_controller_labels v labels).1 in
      (has_controller_labels v after ≡ true)
      × (ensure_controller_labels v after ≡ (false, after))
      × (lookup j (controller_labels v) ≡ none
          → label j (or_empty after) ≡ label j (or_empty labels))
ensure-has v labels j ok =
    let m = (ensured v (or_empty labels)).1 in
    let h = ensured-IsLabelled v (or_empty labels) in
    rw (ensure_controller_labels_lem v labels ok) (
      IsLabelled-has v m h,
      IsLabelled-ensure v m h,
      λ absent.
          label-ensured v j (or_empty labels)
          ∙ wanted_of_other v j (label j (or_empty labels)) absent,
    )
