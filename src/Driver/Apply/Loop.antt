-- ===== src/Driver/Apply/Loop.antt =====
-- The loop over the current objects of `applyAgentEndpoints` and `applyCloudEndpoints` of
-- pkg/managerdriver/endpoints.go, for one key.
use mathlib.Core.Option.{none-ne-some}
use ngrok_operator.Common.{
  String, Bool, true, false, Option, none, some, List, [], ◌∷◌, ◌==◌, string_eq, pair_eq, list_eq,
  option_eq, Eq, lookup, any, ◌≡◌, refl, inl, inr, arith, Bool-cases, Option-cases, All, ap, subst,
  sym, ◌∙◌, ==_path,
}
use ngrok_operator.Labels.{ControllerLabelValues}
use ngrok_operator.Translator.Assemble.{NamespacedName, namespaced_name_eq}
use ngrok_operator.Driver.Apply.{
  Object, object_key, Client, should_be_skipped_in_apply, bring_up_to_date, Desired, apply_managed,
  apply_one, apply_current,
}
use ngrok_operator.Driver.Apply.Laws.{ClientLaws, stored_as, updated, bring_up_to_date_lem}
use ngrok_operator.Driver.Apply.Keys.{
  IsDistinct, managed_at, managed_at_absent, held_after, left_after, key_apart, after_update-done,
  written, apply_one-IsFrame, apply_one_skipped,
}

module _ {W S : Type 0} ⦃e : Eq S⦄ (c : Client W S) (v : ControllerLabelValues)
    (laws : ClientLaws W S c) where
  -- A round that succeeds, for the key of its object.
  record IsApplied (k : NamespacedName) (o : Object S) (d : Option (Object S))
      (r : Option String × Desired S × W) : Type 0 where
    pub holds : laws.frame.get r.2 k ≡ held_after laws.admitted (some o) d (some o)
    pub left : lookup k r.1 ≡ none

  -- Where nothing is written, the object has the desired spec, and what is stored has its defaults.
  written_done :
      (b : Bool) (w : W) (d o o' : Object S)
      → o' ≡ updated d o
      → (b ≡ false → updated d o ≡ o)
      → laws.frame.get w (object_key o) ≡ some o
      → (written c v laws.frame b w o').0 ≡ none
      → laws.frame.get (written c v laws.frame b w o').1 (object_key o)
        ≡ some (updated (stored_as laws.admitted d) o)
  written_done false w d o o' same idle here ok =
      let full = laws.stored w (object_key o) o here in
      let equal = idle refl in
      let wanted : d.spec ≡ o.spec = ap (λ x. x.spec) equal in
      here
      ∙ ap some (
          sym equal
          ∙ ap (λ x. record (updated d o) { spec = x })
              (wanted ∙ sym full ∙ ap laws.admitted (sym wanted)))
  written_done true w d o o' same idle here ok =
      subst
        (λ x.
          (c.update w x).0 ≡ none
          → laws.frame.get (c.update w x).1 (object_key o)
            ≡ some (updated (stored_as laws.admitted d) o))
        (sym same) (laws.update_done w (updated d o) o here) ok

  apply_managed-IsApplied :
      (o : Object S) (x : Option (Object S)) (desired : Desired S) (w : W)
      → lookup (object_key o) desired ≡ x
      → laws.frame.get w (object_key o) ≡ some o
      → (apply_managed c v o x desired w).0 ≡ none
      → IsApplied (object_key o) o x (apply_managed c v o x desired w)
  apply_managed-IsApplied o none desired w at here ok = record {
    holds = laws.remove_done w o ok;
    left = at;
  }
  apply_managed-IsApplied o (some d) desired w at here ok =
      let (changed, o') = bring_up_to_date d o in
      let h = bring_up_to_date_lem d o in
      let (fine, moved, gone) =
        after_update-done c v laws.frame (object_key o) desired
          (written c v laws.frame changed w o') ok in
      record {
        holds =
            ap (λ x. laws.frame.get x (object_key o)) moved
            ∙ written_done changed w d o o' h.sets (λ f. (h.tells f).1) here fine;
        left = gone;
      }

  apply_one_done :
      (o : Object S) (desired : Desired S) (w : W)
      → should_be_skipped_in_apply v o ≡ false
      → laws.frame.get w (object_key o) ≡ some o
      → (apply_one c v o desired w).0 ≡ none
      → IsApplied (object_key o) o (lookup (object_key o) desired) (apply_one c v o desired w)
  unfolding apply_one
  apply_one_done o desired w ours here ok = rw ours (
      apply_managed-IsApplied o (lookup (object_key o) desired) desired w refl here (rw ours at ok))

  -- Every object of the list is in the cluster, under its key.
  abbrev pub IsCurrent : W → List (Object S) → Type 0
  IsCurrent w = All (λ o. laws.frame.get w (object_key o) ≡ some o)

  IsCurrent-apply_one :
      (o : Object S) (desired : Desired S) (w : W) (os : List (Object S))
      → any (λ x. object_key x == object_key o) os ≡ false
      → IsCurrent w os
      → IsCurrent (apply_one c v o desired w).2 os
  IsCurrent-apply_one o desired w [] apart h = tt
  IsCurrent-apply_one o desired w (x ∷ xs) apart (here, h) = (
    (apply_one-IsFrame c v laws.frame (object_key x) o desired w
          (ground (arith, key_apart (object_key x) (object_key o)))).same
        ∙ here,
    IsCurrent-apply_one o desired w xs (ground arith) h,
  )

  -- The loop over the current objects, for one key.
  pub record IsLooped (k : NamespacedName) (os : List (Object S)) (desired : Desired S) (w : W)
      (r : Option String × Desired S × W) : Type 0 where
    pub holds :
        laws.frame.get r.2 k
        ≡ held_after laws.admitted (managed_at v k os) (lookup k desired) (laws.frame.get w k)
    pub left : lookup k r.1 ≡ left_after (managed_at v k os) (lookup k desired)

  -- One round, for any key; `rest` is what the list holds under it behind the object.
  IsLooped-one :
      (k : NamespacedName) (o : Object S) (os : List (Object S)) (desired : Desired S) (w : W)
      → any (λ x. object_key x == object_key o) os ≡ false
      → laws.frame.get w (object_key o) ≡ some o
      → (apply_one c v o desired w).0 ≡ none
      → (r : Option String × Desired S × W)
      → IsLooped k os (apply_one c v o desired w).1 (apply_one c v o desired w).2 r
      → IsLooped k (o ∷ os) desired w r
  unfolding managed_at
  IsLooped-one k o os desired w apart here fine r h =
      elim (Bool-cases (should_be_skipped_in_apply v o)) [
        | inl skip ↦
            let f = apply_one_skipped c v laws.frame k o desired w skip in
            record {
              holds = ground (arith, h.holds, f.same, f.wanted);
              left = ground (arith, h.left, f.wanted);
            }
        | inr ours ↦ elim (Bool-cases (object_key o == k)) [
          | inr other ↦
              let f = apply_one-IsFrame c v laws.frame k o desired w other in
              record {
                holds = ground (arith, h.holds, f.same, f.wanted);
                left = ground (arith, h.left, f.wanted);
              }
          | inl this ↦
              let at : object_key o ≡ k = ==_path (object_key o) k this in
              let none_behind : managed_at v k os ≡ none =
                managed_at_absent v k os
                  (subst (λ x. any (λ y. object_key y == x) os ≡ false) at apart) in
              let a =
                subst (λ x. IsApplied x o (lookup x desired) (apply_one c v o desired w)) at
                  (apply_one_done o desired w ours here fine) in
              let was = subst (λ x. laws.frame.get w x ≡ some o) at here in
              record {
                holds = ground (arith, h.holds, a.holds, none_behind, was);
                left = ground (arith, h.left, a.left, none_behind);
              }
        ]
      ]

  pub apply_current-IsLooped :
      (k : NamespacedName) (os : List (Object S)) (desired : Desired S) (w : W)
      → IsDistinct os
      → IsCurrent w os
      → (apply_current c v os desired w).0 ≡ none
      → IsLooped k os desired w (apply_current c v os desired w)
  unfolding apply_current managed_at
  apply_current-IsLooped k [] desired w _ _ ok = record { holds = refl; left = refl }
  apply_current-IsLooped k (o ∷ os) desired w (apart, distinct) (here, current) ok =
      elim (Option-cases (apply_one c v o desired w).0) [
        | inr (err, failed) ↦ absurd (none-ne-some err (sym (rw (apply_current, failed) at ok)))
        | inl fine ↦
            let (_, desired', w') = apply_one c v o desired w in
            rw (apply_current, fine)
              (IsLooped-one k o os desired w apart here fine (apply_current c v os desired' w') (
                apply_current-IsLooped k os desired' w' distinct
                  (IsCurrent-apply_one o desired w os apart current)
                  (rw (apply_current, fine) at ok)))
      ]
