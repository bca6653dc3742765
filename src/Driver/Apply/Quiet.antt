-- ===== src/Driver/Apply/Quiet.antt =====
-- Current objects that `applyAgentEndpoints` and `applyCloudEndpoints` of
-- pkg/managerdriver/endpoints.go have nothing to write for.
use ngrok_operator.Common.{
  String, Bool, true, false, Option, none, some, List, [], ◌∷◌, ◌==◌, string_eq, pair_eq, list_eq,
  option_eq, Eq, lookup, delete, lookup-delete, any, if◌then◌else◌, ◌≡◌, refl, ◌⊎◌, inl, inr, arith,
  Bool-cases, All, ap, ◌∙◌, ==_of_path,
}
use ngrok_operator.Labels.{ControllerLabelValues}
use ngrok_operator.Translator.Assemble.{NamespacedName, namespaced_name_eq}
use ngrok_operator.Driver.Apply.{
  Object, object_key, Client, should_be_skipped_in_apply, bring_up_to_date, Desired, apply_one,
  apply_current, create_each, apply_endpoints, set_spec, set_labels, set_annotations,
}
use ngrok_operator.Driver.Apply.Keys.{IsDistinct, managed_at, left_after, key_apart}

module _ {S : Type 0} ⦃e : Eq S⦄ (v : ControllerLabelValues) where
  -- A current object that an apply does not write: it is skipped, or says what is desired.
  unfoldable pub IsQuiet : Desired S → Object S → Type 0
  IsQuiet desired o =
      (should_be_skipped_in_apply v o ≡ true)
      ⊎ ((d : Object S) × (lookup (object_key o) desired ≡ some d)
          × ((bring_up_to_date d o).0 ≡ false))

  -- The desired map without the keys of the objects that are not skipped.
  pub remaining : List (Object S) → Desired S → Desired S
  remaining [] desired = desired
  remaining (o ∷ os) desired =
      remaining os
        (if should_be_skipped_in_apply v o then desired else delete (object_key o) desired)

  pub lookup-remaining :
      (k : NamespacedName) (os : List (Object S)) (desired : Desired S)
      → lookup k (remaining os desired) ≡ left_after (managed_at v k os) (lookup k desired)
  unfolding remaining managed_at
  lookup-remaining k [] desired = refl
  lookup-remaining k (o ∷ os) desired = elim (Bool-cases (should_be_skipped_in_apply v o)) [
    | inl skip ↦ rw skip (lookup-remaining k os desired)
    | inr ours ↦ rw ours (
        ground (
          arith,
          lookup-remaining k os (delete (object_key o) desired),
          lookup-delete (object_key o) k desired,
        ))
  ]

  IsQuiet-delete :
      (o x : Object S) (desired : Desired S)
      → (object_key x == object_key o) ≡ false
      → IsQuiet desired x
      → IsQuiet (delete (object_key o) desired) x
  unfolding IsQuiet
  IsQuiet-delete o x desired apart (inl skip) = inl skip
  IsQuiet-delete o x desired apart (inr (d, at, same)) =
      let at_kept : lookup (object_key x) (delete (object_key o) desired) ≡ some d = ground (
        arith,
        lookup-delete (object_key o) (object_key x) desired,
        key_apart (object_key x) (object_key o),
      ) in
      inr (d, at_kept, same)

  IsQuiet-later :
      (o : Object S) (os : List (Object S)) (desired : Desired S)
      → any (λ x. object_key x == object_key o) os ≡ false
      → All (IsQuiet desired) os
      → All
          (IsQuiet
            (if should_be_skipped_in_apply v o then desired else delete (object_key o) desired))
          os
  IsQuiet-later o [] desired apart _ = tt
  IsQuiet-later o (x ∷ xs) desired apart (here, h) =
      (one (should_be_skipped_in_apply v o), IsQuiet-later o xs desired (ground arith) h)
    where
      one : (b : Bool) → IsQuiet (if b then desired else delete (object_key o) desired) x
      one true = here
      one false = IsQuiet-delete o x desired (ground arith) here

  module _ {V : Type 0} (c : Client V S) where
    apply_one_quiet :
        (o : Object S) (desired : Desired S) (x : V)
        → IsQuiet desired o
        → apply_one c v o desired x ≡ (
          none,
          (if should_be_skipped_in_apply v o then desired else delete (object_key o) desired),
          x,
        )
    unfolding apply_one IsQuiet
    apply_one_quiet o desired x (inl skip) = rw skip refl
    apply_one_quiet o desired x (inr (d, at, same)) =
        elim (Bool-cases (should_be_skipped_in_apply v o)) [
          | inl skip ↦ rw skip refl
          | inr ours ↦ rw (ours, at, same) refl
        ]

    pub apply_current_quiet :
        (os : List (Object S)) (desired : Desired S) (x : V)
        → IsDistinct os
        → All (IsQuiet desired) os
        → apply_current c v os desired x ≡ (none, remaining os desired, x)
    unfolding apply_current remaining
    apply_current_quiet [] desired x _ _ = refl
    apply_current_quiet (o ∷ os) desired x (apart, distinct) (here, quiet) =
        ap next (apply_one_quiet o desired x here)
        ∙ apply_current_quiet os _ x distinct (IsQuiet-later o os desired apart quiet)
      where
        next : Option String × Desired S × V → Option String × Desired S × V
        next (failed, desired', w') = elim failed [
          | some err ↦ (some err, desired', w')
          | none ↦ apply_current c v os desired' w'
        ]

pub apply_endpoints_empty :
    {V S : Type 0} ⦃e : Eq S⦄ (v : ControllerLabelValues) (c : Client V S) (desired : Desired S)
    (current : List (Object S)) (x : V)
    → apply_current c v current desired x ≡ (none, remaining v current desired, x)
    → remaining v current desired ≡ []
    → apply_endpoints c v desired current x ≡ (none, x)
unfolding apply_endpoints create_each
apply_endpoints_empty {V} {S} v c desired current x h g = ap next (h ∙ ap (λ m. (none, m, x)) g)
  where
    next : Option String × Desired S × V → Option String × V
    next (failed, desired', w') = elim failed [
      | some err ↦ (some err, w')
      | none ↦ create_each c v desired' w'
    ]

module _ {S : Type 0} ⦃e : Eq S⦄ where
  -- Objects that say what a desired one says need no update.
  pub up_to_date :
      (d o : Object S)
      → d.spec ≡ o.spec
      → d.labels ≡ o.labels
      → d.annotations ≡ o.annotations
      → (bring_up_to_date d o).0 ≡ false
  unfolding bring_up_to_date set_spec set_labels set_annotations
  up_to_date d o hs hl ha =
      rw
        (
          ==_of_path d.spec o.spec hs,
          ==_of_path d.labels o.labels hl,
          ==_of_path d.annotations o.annotations ha,
        )
        refl
