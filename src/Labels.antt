-- ===== src/Labels.antt =====
-- The controller labels of internal/controller/labels: common.go and controller.go. A label map is
-- the list of its entries, and the map that is nil is `none`.
pub mod Laws
use ngrok_operator.Common.{
  String, ◌<>◌, Bool, true, false, not, ◌&&◌, ◌||◌, Option, none, some, List, [], ◌∷◌, ◌==◌,
  string_eq, lookup, insert, lookup-insert, if◌then◌else◌, ◌≡◌, ◌≢◌, refl, arith, eq_iff, all,
}

abbrev pub LabelMap : Type 0
LabelMap = List (String × String)

abbrev prefix : String
prefix = "ngrok.com/"

abbrev legacy_prefix : String
legacy_prefix = "k8s.ngrok.com/"

abbrev pub controller_name : String
controller_name = prefix <> "controller-name"

abbrev pub controller_namespace : String
controller_namespace = prefix <> "controller-namespace"

abbrev pub legacy_controller_name : String
legacy_controller_name = legacy_prefix <> "controller-name"

abbrev pub legacy_controller_namespace : String
legacy_controller_namespace = legacy_prefix <> "controller-namespace"

pub record ControllerLabelValues : Type 0 where
  pub namespace : String
  pub name : String

-- `labels[key]`: the empty text where the key is missing.
unfoldable pub text_or_empty : Option String → String
text_or_empty none = ""
text_or_empty (some s) = s

unfoldable pub label : String → LabelMap → String
unfolding text_or_empty
label k m = text_or_empty (lookup k m)

-- `ControllerLabels`
unfoldable pub controller_labels : ControllerLabelValues → LabelMap
controller_labels v =
    (controller_namespace, v.namespace)
    ∷ (controller_name, v.name)
    ∷ (legacy_controller_namespace, v.namespace)
    ∷ (legacy_controller_name, v.name)
    ∷ []

-- `HasControllerLabels`
unfoldable pub has_controller_labels : ControllerLabelValues → Option LabelMap → Bool
has_controller_labels v none = false
has_controller_labels v (some m) =
    (label controller_namespace m == v.namespace && label controller_name m == v.name)
    || (label legacy_controller_namespace m == v.namespace
        && label legacy_controller_name m == v.name)

abbrev pub or_empty : Option LabelMap → LabelMap
or_empty none = []
or_empty (some m) = m

-- One of the four assignments, with whether anything was modified so far.
unfoldable pub ensure_label : String → String → Bool × LabelMap → Bool × LabelMap
ensure_label k s (modified, m) = if label k m == s then (modified, m) else (true, insert k s m)

unfoldable pub ensured : ControllerLabelValues → LabelMap → Bool × LabelMap
ensured v m = ensure_label legacy_controller_name v.name (
    ensure_label legacy_controller_namespace v.namespace (
      ensure_label controller_name v.name
        (ensure_label controller_namespace v.namespace (false, m))))

-- `EnsureControllerLabels`: whether a label changed, and the labels of the object.
unfoldable pub ensure_controller_labels :
    ControllerLabelValues → Option LabelMap → Bool × Option LabelMap
unfolding ensured ensure_label
ensure_controller_labels v labels =
    let (modified, m) = ensured v (or_empty labels) in
    (modified, if modified then some m else labels)

-- `ControllerLabelSelectors`, with the two selectors.
unfoldable pub controller_label_selector : ControllerLabelValues → LabelMap
controller_label_selector v = (controller_namespace, v.namespace) ∷ (controller_name, v.name) ∷ []

unfoldable pub legacy_controller_label_selector : ControllerLabelValues → LabelMap
legacy_controller_label_selector v =
    (legacy_controller_namespace, v.namespace) ∷ (legacy_controller_name, v.name) ∷ []

unfoldable pub controller_label_selectors : ControllerLabelValues → List LabelMap
unfolding controller_label_selector legacy_controller_label_selector
controller_label_selectors v = controller_label_selector v ∷ legacy_controller_label_selector v ∷ []

-- `ValidateControllerLabelValues`: whether it returns no error.
unfoldable pub validate_controller_label_values : ControllerLabelValues → Bool
validate_controller_label_values v = not (v.name == "" || v.namespace == "")

ensure_tests :
    (ensure_controller_labels (record { namespace = "ns"; name = "op" }) none
      ≡ (true, some (controller_labels (record { namespace = "ns"; name = "op" }))))
    × (ensure_controller_labels
          (record { namespace = "ns"; name = "op" })
          (some (controller_labels (record { namespace = "ns"; name = "op" })))
        ≡ (false, some (controller_labels (record { namespace = "ns"; name = "op" }))))
unfolding ensure_controller_labels controller_labels lookup insert label
ensure_tests = (refl, refl)
