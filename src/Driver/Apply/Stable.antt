-- ===== src/Driver/Apply/Stable.antt =====
-- A second call of `applyAgentEndpoints` or `applyCloudEndpoints` of pkg/managerdriver/endpoints.go.
use mathlib.Core.Option.{none-ne-some, some-injective}
use ngrok_operator.Common.{
  false, Option, none, some, List, [], ◌∷◌, string_eq, pair_eq, list_eq, option_eq, Eq, lookup, ◌≡◌,
  refl, inl, inr, arith, Bool-cases, All, ap, subst, sym, ◌∙◌, ==_refl, ◌==◌,
}
use ngrok_operator.Labels.{ControllerLabelValues}
use ngrok_operator.Translator.Assemble.{NamespacedName, namespaced_name_eq}
use ngrok_operator.Driver.Apply.{
  Object, object_key, Client, should_be_skipped_in_apply, Desired, apply_endpoints,
}
use ngrok_operator.Driver.Apply.Laws.{ClientLaws, stored_as, updated}
use ngrok_operator.Driver.Apply.Keys.{IsDistinct, managed_at, left_after}
use ngrok_operator.Driver.Apply.Loop.{IsCurrent}
use ngrok_operator.Driver.Apply.Converges.{IsKeyed}
use ngrok_operator.Driver.Apply.Converges.{Settles, apply_endpoints-Settles}
use ngrok_operator.Driver.Apply.Quiet.{
  IsQuiet, remaining, lookup-remaining, apply_current_quiet, apply_endpoints_empty, up_to_date,
}

-- The lists of the two sides: every listed object is in the cluster and not being deleted, no two have
-- the same key, and
-- every object of the cluster that is not to be skipped is listed.
pub record IsListing {W S : Type 0} ⦃e : Eq S⦄ (c : Client W S) (v : ControllerLabelValues)
    (laws : ClientLaws W S c) (w : W) (current : List (Object S)) : Type 0 where
  pub distinct : IsDistinct current
  pub there : IsCurrent c v laws w current
  pub complete :
      (k : NamespacedName) (o : Object S)
      → laws.frame.get w k ≡ some o
      → should_be_skipped_in_apply v o ≡ false
      → managed_at v k current ≡ some o

nothing_left : {S : Type 0} (ds : Desired S) → ((k : NamespacedName) → lookup k ds ≡ none) → ds ≡ []
unfolding lookup
nothing_left [] h = refl
nothing_left ((k, d) ∷ ds) h = absurd (ground (arith, h k, ==_refl k))

module _ {S : Type 0} ⦃e : Eq S⦄ (v : ControllerLabelValues) where
  -- A listed object after an apply, from what the apply made of its key.
  settled-IsQuiet :
      (admitted : S → S) (desired : Desired S) (o : Object S) (m d old : Option (Object S))
      → should_be_skipped_in_apply v o ≡ false
      → lookup (object_key o) desired ≡ d
      → ((x : Object S) → d ≡ some x → admitted x.spec ≡ x.spec)
      → (old ≡ some o → m ≡ some o)
      → Settles admitted m d old (some o)
      → IsQuiet v desired o
  unfolding IsQuiet
  settled-IsQuiet admitted desired o none none old ours at full known s =
      absurd (ground (arith, known (sym s)))
  settled-IsQuiet admitted desired o (some x) none old ours at full known s =
      absurd (none-ne-some o (sym s))
  settled-IsQuiet admitted desired o none (some d) old ours at full known (free, (uid, made)) =
      let same : record (stored_as admitted d) { uid = uid } ≡ o = sym (some-injective _ _ made) in
      inr (
        d,
        at,
        up_to_date d o (sym (full d refl) ∙ ap (λ x. x.spec) same) (ap (λ x. x.labels) same)
            (ap (λ x. x.annotations) same),
      )
  settled-IsQuiet admitted desired o (some x) (some d) old ours at full known s =
      let same : updated (stored_as admitted d) x ≡ o = sym (some-injective _ _ s) in
      inr (
        d,
        at,
        up_to_date d o (sym (full d refl) ∙ ap (λ x. x.spec) same) (ap (λ x. x.labels) same)
            (ap (λ x. x.annotations) same),
      )

module _ {W S : Type 0} ⦃e : Eq S⦄ (c : Client W S) (v : ControllerLabelValues)
    (laws : ClientLaws W S c) where
  listed-IsQuiet :
      (desired : Desired S) (w : W) (os : List (Object S))
      → ((o : Object S)
          → laws.frame.get w (object_key o) ≡ some o
          → should_be_skipped_in_apply v o ≡ false
          → IsQuiet v desired o)
      → IsCurrent c v laws w os
      → All (IsQuiet v desired) os
  unfolding IsQuiet
  listed-IsQuiet desired w [] h _ = tt
  listed-IsQuiet desired w (o ∷ os) h (here, there) = (
    elim (Bool-cases (should_be_skipped_in_apply v o)) [
      | inl skip ↦ inl skip
      | inr ours ↦ h o here ours
    ],
    listed-IsQuiet desired w os h there,
  )

  -- What is desired under a key is listed afterwards, and not skipped.
  desired_listed :
      (w : W) (current : List (Object S)) (k : NamespacedName) (m d : Option (Object S))
      (old new : Option (Object S))
      → IsListing c v laws w current
      → laws.frame.get w k ≡ new
      → ((x : Object S) → d ≡ some x → should_be_skipped_in_apply v x ≡ false)
      → ((x : Object S) → m ≡ some x → should_be_skipped_in_apply v x ≡ false)
      → Settles laws.admitted m d old new
      → left_after (managed_at v k current) d ≡ none
  unfolding should_be_skipped_in_apply
  desired_listed w current k m none old new l at ours theirs s = ground arith
  desired_listed w current k none (some d) old new l at ours theirs (_, (uid, made)) =
      let there =
        l.complete k (record (stored_as laws.admitted d) { uid = uid }) (at ∙ made) (ours d refl) in
      ground arith
  desired_listed w current k (some o) (some d) old new l at ours theirs s =
      let there =
        l.complete k (updated (stored_as laws.admitted d) o) (at ∙ s)
          (ground (arith, ours d refl, theirs o refl)) in
      ground arith

  managed_at_ours :
      (k : NamespacedName) (os : List (Object S)) (x : Object S)
      → managed_at v k os ≡ some x
      → should_be_skipped_in_apply v x ≡ false
  unfolding managed_at
  managed_at_ours k [] x h = cc
  managed_at_ours k (o ∷ os) x h = ground (arith, managed_at_ours k os x)

  desired_ours :
      (k : NamespacedName) (ds : Desired S) (x : Object S)
      → All (λ p. should_be_skipped_in_apply v p.1 ≡ false) ds
      → lookup k ds ≡ some x
      → should_be_skipped_in_apply v x ≡ false
  unfolding lookup
  desired_ours k [] x _ h = cc
  desired_ours k ((j, d) ∷ ds) x (this, rest) h = ground (arith, desired_ours k ds x rest)

  desired_full :
      (k : NamespacedName) (ds : Desired S) (x : Object S)
      → All (λ p. laws.admitted p.1.spec ≡ p.1.spec) ds
      → lookup k ds ≡ some x
      → laws.admitted x.spec ≡ x.spec
  unfolding lookup
  desired_full k [] x _ h = cc
  desired_full k ((j, d) ∷ ds) x (this, rest) h = elim (Bool-cases (j == k)) [
    | inl same ↦
        subst (λ (y : Object S). laws.admitted y.spec ≡ y.spec) (some-injective d x (rw same at h))
          this
    | inr other ↦ desired_full k ds x rest (rw other at h)
  ]

  -- After an apply that returned no error, over a client that keeps its laws: with the same desired
  -- objects, which are under their own keys, none of which would be skipped and in whose specs the
  -- schema has no default to fill in, and with listings that are complete both times and show no object
  -- that is being deleted, a second apply returns no error and makes no call, whatever the client would
  -- answer.
  pub apply_endpoints_stable :
      {V : Type 0} (other : Client V S) (x : V) (desired : Desired S)
      (current current' : List (Object S)) (w : W)
      → IsKeyed desired
      → All (λ p. should_be_skipped_in_apply v p.1 ≡ false) desired
      → All (λ p. laws.admitted p.1.spec ≡ p.1.spec) desired
      → IsListing c v laws w current
      → (apply_endpoints c v desired current w).0 ≡ none
      → IsListing c v laws (apply_endpoints c v desired current w).1 current'
      → apply_endpoints other v desired current' x ≡ (none, x)
  apply_endpoints_stable other x desired current current' w keyed ours full before ok after =
      let w' = (apply_endpoints c v desired current w).1 in
      let settles = λ (k : NamespacedName).
        apply_endpoints-Settles c v laws desired current w k keyed before.distinct before.there
          ok in
      let quiet =
        listed-IsQuiet desired w' current'
          (λ o here free.
            settled-IsQuiet v laws.admitted desired o (managed_at v (object_key o) current)
              (lookup (object_key o) desired) (laws.frame.get w (object_key o)) free refl
              (λ d at. desired_full (object_key o) desired d full at)
              (λ was. before.complete (object_key o) o was free)
              (subst
                (Settles laws.admitted (managed_at v (object_key o) current)
                  (lookup (object_key o) desired) (laws.frame.get w (object_key o)))
                here (settles (object_key o))))
          after.there in
      let gone = λ (k : NamespacedName).
        lookup-remaining v k current' desired
        ∙ desired_listed w' current' k (managed_at v k current) (lookup k desired)
            (laws.frame.get w k) (laws.frame.get w' k) after refl
            (λ d at. desired_ours k desired d ours at) (λ o at. managed_at_ours k current o at)
            (settles k) in
      apply_endpoints_empty v other desired current' x
        (apply_current_quiet v other current' desired x after.distinct quiet)
        (nothing_left (remaining v current' desired) gone)
