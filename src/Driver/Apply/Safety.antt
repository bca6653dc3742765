-- ===== src/Driver/Apply/Safety.antt =====
-- What `applyAgentEndpoints` and `applyCloudEndpoints` of pkg/managerdriver/endpoints.go leave alone,
-- whether they succeed or not.
use ngrok_operator.Common.{
  none, List, [], ◌∷◌, string_eq, pair_eq, list_eq, option_eq, Eq, lookup, lookup-none-cons, ◌≡◌,
  refl, inl, inr, arith, Bool-cases, Option-cases, ◌∙◌,
}
use ngrok_operator.Labels.{ControllerLabelValues}
use ngrok_operator.Translator.Assemble.{NamespacedName, namespaced_name_eq}
use ngrok_operator.Driver.Apply.{
  Object, Client, should_be_skipped_in_apply, Desired, apply_one, apply_current, create_each,
  apply_endpoints,
}
use ngrok_operator.Driver.Apply.Laws.{ClientFrame}
use ngrok_operator.Driver.Apply.Keys.{managed_at, IsFrame, apply_one-IsFrame, apply_one_skipped}
use ngrok_operator.Driver.Apply.Converges.{IsKeyed, IsKeyed-apply_current}

module _ {W S : Type 0} ⦃e : Eq S⦄ (c : Client W S) (v : ControllerLabelValues)
    (laws : ClientFrame W S c) where
  -- The object is skipped, or it is not the one of the key.
  one_apart :
      (k : NamespacedName) (o : Object S) (os : List (Object S)) (desired : Desired S) (w : W)
      → managed_at v k (o ∷ os) ≡ none
      → IsFrame c v laws k desired w (apply_one c v o desired w)
  unfolding managed_at
  one_apart k o os desired w free = elim (Bool-cases (should_be_skipped_in_apply v o)) [
    | inl skip ↦ apply_one_skipped c v laws k o desired w skip
    | inr ours ↦ apply_one-IsFrame c v laws k o desired w (ground arith)
  ]

  rest_apart :
      (k : NamespacedName) (o : Object S) (os : List (Object S))
      → managed_at v k (o ∷ os) ≡ none
      → managed_at v k os ≡ none
  unfolding managed_at
  rest_apart k o os free = ground arith

  apply_current-IsFrame :
      (k : NamespacedName) (os : List (Object S)) (desired : Desired S) (w : W)
      → managed_at v k os ≡ none
      → IsFrame c v laws k desired w (apply_current c v os desired w)
  unfolding apply_current
  apply_current-IsFrame k [] desired w free = record { same = refl; wanted = refl }
  apply_current-IsFrame k (o ∷ os) desired w free =
      let (_, desired', w') = apply_one c v o desired w in
      let one = one_apart k o os desired w free in
      elim (Option-cases (apply_one c v o desired w).0) [
        | inr (err, failed) ↦
            rw (apply_current, failed) (record { same = one.same; wanted = one.wanted })
        | inl fine ↦
            let h = apply_current-IsFrame k os desired' w' (rest_apart k o os free) in
            rw (apply_current, fine)
              (record { same = h.same ∙ one.same; wanted = h.wanted ∙ one.wanted })
      ]

  create_each_frame :
      (k : NamespacedName) (ds : Desired S) (w : W)
      → IsKeyed ds
      → lookup k ds ≡ none
      → laws.get (create_each c v ds w).1 k ≡ laws.get w k
  unfolding create_each
  create_each_frame k [] w _ absent = refl
  create_each_frame k ((j, d) ∷ ds) w (own, keyed) absent =
      let (other, rest) = lookup-none-cons k j d ds absent in
      let one = laws.create_frame w d k (rw own other) in
      elim (Option-cases (c.create w d).0) [
        | inr (err, failed) ↦ rw (create_each, failed) one
        | inl fine ↦
            rw (create_each, fine) (create_each_frame k ds (c.create w d).1 keyed rest ∙ one)
      ]

  -- However the calls of an API client end, each of which changes at most the object it is for, with desired objects under their own
  -- keys: a key that is not desired, and under which no current object is listed but one that has to be
  -- skipped, is as it was.
  pub untouched :
      (desired : Desired S) (current : List (Object S)) (w : W) (k : NamespacedName)
      → IsKeyed desired
      → managed_at v k current ≡ none
      → lookup k desired ≡ none
      → laws.get (apply_endpoints c v desired current w).1 k ≡ laws.get w k
  unfolding apply_endpoints
  untouched desired current w k keyed free absent =
      let (_, desired', w') = apply_current c v current desired w in
      let h = apply_current-IsFrame k current desired w free in
      elim (Option-cases (apply_current c v current desired w).0) [
        | inr (err, failed) ↦ rw (apply_endpoints, failed) h.same
        | inl fine ↦
            rw (apply_endpoints, fine)
              (create_each_frame k desired' w' (IsKeyed-apply_current c v current desired w keyed)
                  (h.wanted ∙ absent)
                ∙ h.same)
      ]
