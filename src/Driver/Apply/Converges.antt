-- ===== src/Driver/Apply/Converges.antt =====
-- `applyAgentEndpoints` and `applyCloudEndpoints` of pkg/managerdriver/endpoints.go as a whole: what
-- the cluster holds afterwards.
use mathlib.Core.Option.{none-ne-some}
use ngrok_operator.Common.{
  String, false, Option, none, some, List, [], ◌∷◌, ◌==◌, string_eq, pair_eq, list_eq, option_eq,
  Eq, lookup, delete, ◌≡◌, refl, inl, inr, Bool-cases, Option-cases, All, subst, sym, ◌∙◌, ==_path,
}
use ngrok_operator.Labels.{ControllerLabelValues}
use ngrok_operator.Translator.Assemble.{NamespacedName, namespaced_name_eq}
use ngrok_operator.Driver.Apply.{
  Object, object_key, Client, should_be_skipped_in_apply, Desired, after_update, apply_managed,
  apply_one, apply_current, create_each, apply_endpoints,
}
use ngrok_operator.Driver.Apply.Laws.{ClientLaws, stored_as, updated}
use ngrok_operator.Driver.Apply.Keys.{IsDistinct, managed_at, held_after, left_after}
use ngrok_operator.Driver.Apply.Loop.{IsCurrent, apply_current-IsLooped}

-- Every desired object is under its own key.
abbrev pub IsKeyed : {S : Type 0} → Desired S → Type 0
IsKeyed = All (λ p. object_key p.1 ≡ p.0)

IsKeyed-delete :
    {S : Type 0} (k : NamespacedName) (ds : Desired S) → IsKeyed ds → IsKeyed (delete k ds)
unfolding delete
IsKeyed-delete k [] h = tt
IsKeyed-delete k ((j, d) ∷ ds) (this, h) = elim (Bool-cases (j == k)) [
  | inl same ↦ rw same (IsKeyed-delete k ds h)
  | inr other ↦ rw other (this, IsKeyed-delete k ds h)
]

-- What creating the objects that are still desired does to a key.
abbrev IsCreated :
    {S : Type 0} → (S → S) → Option (Object S) → Option (Object S) → Option (Object S) → Type 0
IsCreated admitted none old new = new ≡ old
IsCreated admitted (some d) old new =
    (old ≡ none) × ((uid : String) × (new ≡ some (record (stored_as admitted d) { uid = uid })))

module _ {W S : Type 0} ⦃e : Eq S⦄ (c : Client W S) (v : ControllerLabelValues)
    (laws : ClientLaws W S c) where
  create_one-IsCreated :
      (k j : NamespacedName) (d : Object S) (ds : Desired S) (w : W) (new : Option (Object S))
      → object_key d ≡ j
      → (c.create w d).0 ≡ none
      → IsCreated laws.admitted (lookup k ds) (laws.frame.get (c.create w d).1 k) new
      → IsCreated laws.admitted (lookup k ((j, d) ∷ ds)) (laws.frame.get w k) new
  unfolding lookup
  create_one-IsCreated k j d ds w new own fine h = elim (Bool-cases (j == k)) [
    | inr other ↦
        rw (other, ← laws.frame.create_frame w d k (subst (λ x. (x == k) ≡ false) (sym own) other))
          h
    | inl this ↦
        let at : object_key d ≡ k = own ∙ ==_path j k this in
        let made =
          subst
            (λ x.
              laws.frame.get (c.create w d).1 x
              ≡ some (record (stored_as laws.admitted d) { uid = laws.new_uid w d }))
            at (laws.create_done w d fine) in
        let free = subst (λ x. laws.frame.get w x ≡ none) at (laws.create_new w d fine) in
        rw this (free, (laws.new_uid w d, only_once (lookup k ds) (rw made at h)))
  ]
    where
      only_once :
          (x : Option (Object S))
          → IsCreated laws.admitted x
              (some (record (stored_as laws.admitted d) { uid = laws.new_uid w d }))
              new
          → new ≡ some (record (stored_as laws.admitted d) { uid = laws.new_uid w d })
      only_once none g = g
      only_once (some y) (g, _) = absurd (none-ne-some _ (sym g))

  create_each-IsCreated :
      (k : NamespacedName) (ds : Desired S) (w : W)
      → IsKeyed ds
      → (create_each c v ds w).0 ≡ none
      → IsCreated laws.admitted
          (lookup k ds)
          (laws.frame.get w k)
          (laws.frame.get (create_each c v ds w).1 k)
  unfolding create_each lookup
  create_each-IsCreated k [] w _ ok = refl
  create_each-IsCreated k ((j, d) ∷ ds) w (own, keyed) ok = elim (Option-cases (c.create w d).0) [
    | inr (err, failed) ↦ absurd (none-ne-some err (sym (rw (create_each, failed) at ok)))
    | inl fine ↦
        let w' = (c.create w d).1 in
        rw (create_each, fine)
          (create_one-IsCreated k j d ds w (laws.frame.get (create_each c v ds w').1 k) own fine
            (create_each-IsCreated k ds w' keyed (rw (create_each, fine) at ok)))
  ]

-- What an apply makes of a key, from the current object under it, if it has one that is not skipped,
-- and from the desired one.
abbrev pub Settles :
    {S : Type 0}
    → (S → S)
    → Option (Object S)
    → Option (Object S)
    → Option (Object S)
    → Option (Object S)
    → Type 0
Settles admitted none none old new = new ≡ old
Settles admitted (some o) none old new = new ≡ none
Settles admitted (some o) (some d) old new = new ≡ some (updated (stored_as admitted d) o)
Settles admitted none (some d) old new =
    (old ≡ none) × ((uid : String) × (new ≡ some (record (stored_as admitted d) { uid = uid })))

Settles-of_IsCreated :
    {S : Type 0} (admitted : S → S) (m d old mid new x : Option (Object S))
    → mid ≡ held_after admitted m d old
    → x ≡ left_after m d
    → IsCreated admitted x mid new
    → Settles admitted m d old new
Settles-of_IsCreated admitted none none old mid new x h k r =
    subst (λ y. IsCreated admitted y mid new) k r ∙ h
Settles-of_IsCreated admitted none (some d) old mid new x h k r =
    let (free, made) = subst (λ y. IsCreated admitted y mid new) k r in (sym h ∙ free, made)
Settles-of_IsCreated admitted (some o) none old mid new x h k r =
    subst (λ y. IsCreated admitted y mid new) k r ∙ h
Settles-of_IsCreated admitted (some o) (some d) old mid new x h k r =
    subst (λ y. IsCreated admitted y mid new) k r ∙ h

module _ {W S : Type 0} ⦃e : Eq S⦄ (c : Client W S) (v : ControllerLabelValues) where
  pub IsKeyed-apply_one :
      (o : Object S) (desired : Desired S) (w : W)
      → IsKeyed desired
      → IsKeyed (apply_one c v o desired w).1
  unfolding apply_one
  IsKeyed-apply_one o desired w h = elim (Bool-cases (should_be_skipped_in_apply v o)) [
    | inl skip ↦ rw skip h
    | inr ours ↦ rw ours (managed (lookup (object_key o) desired))
  ]
    where
      updating : (r : Option String × W) → IsKeyed (after_update c v (object_key o) desired r).1
      updating (none, w') = IsKeyed-delete (object_key o) desired h
      updating (some err, w') = h

      managed : (x : Option (Object S)) → IsKeyed (apply_managed c v o x desired w).1
      managed none = h
      managed (some d) = updating _

  pub IsKeyed-apply_current :
      (os : List (Object S)) (desired : Desired S) (w : W)
      → IsKeyed desired
      → IsKeyed (apply_current c v os desired w).1
  unfolding apply_current
  IsKeyed-apply_current [] desired w h = h
  IsKeyed-apply_current (o ∷ os) desired w h =
      let (_, desired', w') = apply_one c v o desired w in
      elim (Option-cases (apply_one c v o desired w).0) [
        | inr (err, failed) ↦ rw (apply_current, failed) (IsKeyed-apply_one o desired w h)
        | inl fine ↦
            rw (apply_current, fine)
              (IsKeyed-apply_current os desired' w' (IsKeyed-apply_one o desired w h))
      ]

module _ {W S : Type 0} ⦃e : Eq S⦄ (c : Client W S) (v : ControllerLabelValues)
    (laws : ClientLaws W S c) where
  -- An apply that returns no error, over an API client that keeps its laws, with current objects that
  -- are in the cluster, none of them being deleted, and have distinct keys, and desired objects under
  -- their own keys: of every key whose current object is not skipped, the object is gone or being
  -- deleted if the key is not desired, and has the labels and annotations of the desired object and its
  -- spec, with the defaults of the schema, if it is; every other desired key had no object that is not
  -- being deleted and has the desired one, with those defaults and a UID of the server; every other key
  -- is as it was.
  pub apply_endpoints-Settles :
      (desired : Desired S) (current : List (Object S)) (w : W) (k : NamespacedName)
      → IsKeyed desired
      → IsDistinct current
      → IsCurrent c v laws w current
      → (apply_endpoints c v desired current w).0 ≡ none
      → Settles laws.admitted
          (managed_at v k current)
          (lookup k desired)
          (laws.frame.get w k)
          (laws.frame.get (apply_endpoints c v desired current w).1 k)
  unfolding apply_endpoints
  apply_endpoints-Settles desired current w k keyed distinct there ok =
      let (_, desired', w') = apply_current c v current desired w in
      elim (Option-cases (apply_current c v current desired w).0) [
        | inr (err, failed) ↦ absurd (none-ne-some err (sym (rw (apply_endpoints, failed) at ok)))
        | inl fine ↦
            let h = apply_current-IsLooped c v laws k current desired w distinct there fine in
            rw (apply_endpoints, fine)
              (Settles-of_IsCreated laws.admitted (managed_at v k current) (lookup k desired)
                (laws.frame.get w k) (laws.frame.get w' k)
                (laws.frame.get (create_each c v desired' w').1 k) (lookup k desired') h.holds
                h.left
                (create_each-IsCreated c v laws k desired' w'
                  (IsKeyed-apply_current c v current desired w keyed)
                  (rw (apply_endpoints, fine) at ok)))
      ]
