-- ===== src/Driver/Apply/Keys.antt =====
-- One key through `applyAgentEndpoints` and `applyCloudEndpoints` of
-- pkg/managerdriver/endpoints.go.
use ngrok_operator.Common.{
  String, Bool, true, false, Option, none, some, List, [], ◌∷◌, ◌==◌, string_eq, pair_eq, list_eq,
  option_eq, Eq, lookup, lookup-delete, any, if◌then◌else◌, ◌≡◌, refl, inl, inr, arith, Bool-cases,
  ap, ◌∙◌, ==_refl,
}
use ngrok_operator.Labels.{ControllerLabelValues}
use ngrok_operator.Translator.Assemble.{NamespacedName, namespaced_name_eq, namespaced_name_beq_iff}
use ngrok_operator.Driver.Apply.{
  Object, object_key, Client, should_be_skipped_in_apply, bring_up_to_date, Desired, after_update,
  apply_managed, apply_one,
}
use ngrok_operator.Driver.Apply.Laws.{ClientFrame, stored_as, updated, bring_up_to_date_lem}

-- No two objects of the list have the same key.
abbrev pub IsDistinct : {S : Type 0} → List (Object S) → Type 0
IsDistinct [] = Unit
IsDistinct (o ∷ os) = (any (λ x. object_key x == object_key o) os ≡ false) × IsDistinct os

module _ {S : Type 0} (v : ControllerLabelValues) where
  -- The object of the list that is under a key and is not skipped.
  unfoldable pub managed_at : NamespacedName → List (Object S) → Option (Object S)
  managed_at k [] = none
  managed_at k (o ∷ os) =
      let rest = managed_at k os in
      if should_be_skipped_in_apply v o then rest else if object_key o == k then some o else rest

  pub managed_at_absent :
      (k : NamespacedName) (os : List (Object S))
      → any (λ x. object_key x == k) os ≡ false
      → managed_at k os ≡ none
  unfolding managed_at
  managed_at_absent k [] h = refl
  managed_at_absent k (o ∷ os) h = ground (arith, managed_at_absent k os)

pub key_apart : (a b : NamespacedName) → (a == b) ≡ false → (b == a) ≡ false
key_apart a b h = ground (arith, namespaced_name_beq_iff a b, namespaced_name_beq_iff b a)

-- What a key holds, and what is still desired under it, after the loop over the current objects.
abbrev pub held_after :
    {S : Type 0}
    → (S → S)
    → Option (Object S)
    → Option (Object S)
    → Option (Object S)
    → Option (Object S)
held_after admitted none d old = old
held_after admitted (some o) none old = none
held_after admitted (some o) (some d) old = some (updated (stored_as admitted d) o)

abbrev pub left_after : {S : Type 0} → Option (Object S) → Option (Object S) → Option (Object S)
left_after none d = d
left_after (some o) d = none

module _ {W S : Type 0} ⦃e : Eq S⦄ (c : Client W S) (v : ControllerLabelValues)
    (laws : ClientFrame W S c) where
  after_update-frame :
      (k j : NamespacedName) (desired : Desired S) (r : Option String × W)
      → (j == k) ≡ false
      → ((after_update c v j desired r).2 ≡ r.1)
        × (lookup k (after_update c v j desired r).1 ≡ lookup k desired)
  after_update-frame k j desired (none, w) other = (refl, ground (arith, lookup-delete j k desired))
  after_update-frame k j desired (some err, w) other = (refl, refl)

  pub after_update-done :
      (k : NamespacedName) (desired : Desired S) (r : Option String × W)
      → (after_update c v k desired r).0 ≡ none
      → (r.0 ≡ none)
        × ((after_update c v k desired r).2 ≡ r.1)
        × (lookup k (after_update c v k desired r).1 ≡ none)
  after_update-done k desired (none, w) ok =
      (refl, refl, ground (arith, lookup-delete k k desired, ==_refl k))
  after_update-done k desired (some err, w) ok = cc

  -- A round leaves every key but that of its object alone, whether its call succeeds or not.
  pub record IsFrame (k : NamespacedName) (desired : Desired S) (w : W)
      (r : Option String × Desired S × W) : Type 0 where
    pub same : laws.get r.2 k ≡ laws.get w k
    pub wanted : lookup k r.1 ≡ lookup k desired

  -- The update of an object, if there is one.
  abbrev pub written : Bool → W → Object S → Option String × W
  written b w o = if b then c.update w o else (none, w)

  written_frame :
      (k : NamespacedName) (b : Bool) (w : W) (d o o' : Object S)
      → o' ≡ updated d o
      → (object_key o == k) ≡ false
      → laws.get (written b w o').1 k ≡ laws.get w k
  written_frame k false w d o o' same other = refl
  written_frame k true w d o o' same other = laws.update_frame w o' k (rw same other)

  apply_managed-IsFrame :
      (k : NamespacedName) (o : Object S) (x : Option (Object S)) (desired : Desired S) (w : W)
      → (object_key o == k) ≡ false
      → IsFrame k desired w (apply_managed c v o x desired w)
  apply_managed-IsFrame k o none desired w other = record {
    same = laws.remove_frame w o k other;
    wanted = refl;
  }
  apply_managed-IsFrame k o (some d) desired w other =
      let (changed, o') = bring_up_to_date d o in
      let (moved, kept) =
        after_update-frame k (object_key o) desired (written changed w o') other in
      record {
        same =
            ap (λ x. laws.get x k) moved
            ∙ written_frame k changed w d o o' (bring_up_to_date_lem d o).sets other;
        wanted = kept;
      }

  pub apply_one-IsFrame :
      (k : NamespacedName) (o : Object S) (desired : Desired S) (w : W)
      → (object_key o == k) ≡ false
      → IsFrame k desired w (apply_one c v o desired w)
  unfolding apply_one
  apply_one-IsFrame k o desired w other = elim (Bool-cases (should_be_skipped_in_apply v o)) [
    | inl skip ↦ rw skip (record { same = refl; wanted = refl })
    | inr ours ↦ rw ours (apply_managed-IsFrame k o (lookup (object_key o) desired) desired w other)
  ]

  pub apply_one_skipped :
      (k : NamespacedName) (o : Object S) (desired : Desired S) (w : W)
      → should_be_skipped_in_apply v o ≡ true
      → IsFrame k desired w (apply_one c v o desired w)
  unfolding apply_one
  apply_one_skipped k o desired w skip = rw skip (record { same = refl; wanted = refl })
