-- ===== src/Driver/Apply/Laws.antt =====
-- The API client that pkg/managerdriver/endpoints.go relies on, and the object that it writes.
use ngrok_operator.Common.{
  String, Bool, false, Option, none, some, ◌==◌, string_eq, pair_eq, list_eq, option_eq, Eq, ◌≡◌,
  refl, inl, inr, arith, Bool-cases, ==_path,
}
use ngrok_operator.Translator.Assemble.{NamespacedName, namespaced_name_eq}
use ngrok_operator.Driver.Apply.{
  Object, object_key, Client, ignore_not_found, bring_up_to_date, set_spec, set_labels,
  set_annotations,
}

-- A call changes at most the object it is for. `get` shows the objects without a deletion timestamp.
pub record ClientFrame (W S : Type 0) (c : Client W S) : Type 0 where
  pub get : W → NamespacedName → Option (Object S)
  pub create_frame :
      (w : W) (o : Object S) (k : NamespacedName)
      → (object_key o == k) ≡ false
      → get (c.create w o).1 k ≡ get w k
  pub update_frame :
      (w : W) (o : Object S) (k : NamespacedName)
      → (object_key o == k) ≡ false
      → get (c.update w o).1 k ≡ get w k
  pub remove_frame :
      (w : W) (o : Object S) (k : NamespacedName)
      → (object_key o == k) ≡ false
      → get (c.remove w o).1 k ≡ get w k

-- What is assumed of the API client besides. The server fills in the defaults of the resource's schema
-- in the spec that it stores, and chooses the UID of an object that is created. An object that is
-- deleted gets its deletion timestamp, so that `get` does not show it, and may stay until its finalizers
-- are removed; a name is not created as long as it does. No other client writes in between.
pub record ClientLaws (W S : Type 0) (c : Client W S) : Type 0 where
  pub frame : ClientFrame W S c
  pub new_uid : W → Object S → String
  pub admitted : S → S
  pub stored :
      (w : W) (k : NamespacedName) (o : Object S)
      → frame.get w k ≡ some o
      → admitted o.spec ≡ o.spec
  pub create_new :
      (w : W) (o : Object S) → (c.create w o).0 ≡ none → frame.get w (object_key o) ≡ none
  pub create_done :
      (w : W) (o : Object S)
      → (c.create w o).0 ≡ none
      → frame.get (c.create w o).1 (object_key o)
        ≡ some (record o { uid = new_uid w o; spec = admitted o.spec })
  pub update_done :
      (w : W) (o x : Object S)
      → frame.get w (object_key o) ≡ some x
      → (c.update w o).0 ≡ none
      → frame.get (c.update w o).1 (object_key o) ≡ some (record o { spec = admitted o.spec })
  pub remove_done :
      (w : W) (o : Object S)
      → ignore_not_found (c.remove w o).0 ≡ none
      → frame.get (c.remove w o).1 (object_key o) ≡ none

-- A desired object with the defaults that the server fills in.
abbrev pub stored_as : {S : Type 0} → (S → S) → Object S → Object S
stored_as admitted o = record o { spec = admitted o.spec }

-- The current object with what the desired one says.
abbrev pub updated : {S : Type 0} → Object S → Object S → Object S
updated d o = record o { spec = d.spec; labels = d.labels; annotations = d.annotations }

module _ {S : Type 0} ⦃e : Eq S⦄ where
  -- Each setter sets its field, and says whether that changed anything.
  pub record IsWritten (p q : Bool × Object S) (o : Object S) : Type 0 where
    pub sets : q.1 ≡ o
    pub tells : q.0 ≡ false → (p.0 ≡ false) × (o ≡ p.1)

  spec-IsWritten :
      (d : Object S) (p : Bool × Object S)
      → IsWritten p (set_spec d p) (record p.1 { spec = d.spec })
  unfolding set_spec
  spec-IsWritten d p = elim (Bool-cases (d.spec == p.1.spec)) [
    | inl same ↦
        let there = ==_path d.spec p.1.spec same in
        rw same (record { sets = ground arith; tells = λ h. (h, ground arith) })
    | inr other ↦ rw other (record { sets = refl; tells = λ h. cc })
  ]

  labels-IsWritten :
      (d : Object S) (p : Bool × Object S)
      → IsWritten p (set_labels d p) (record p.1 { labels = d.labels })
  unfolding set_labels
  labels-IsWritten d p = elim (Bool-cases (d.labels == p.1.labels)) [
    | inl same ↦
        let there = ==_path d.labels p.1.labels same in
        rw same (record { sets = ground arith; tells = λ h. (h, ground arith) })
    | inr other ↦ rw other (record { sets = refl; tells = λ h. cc })
  ]

  annotations-IsWritten :
      (d : Object S) (p : Bool × Object S)
      → IsWritten p (set_annotations d p) (record p.1 { annotations = d.annotations })
  unfolding set_annotations
  annotations-IsWritten d p = elim (Bool-cases (d.annotations == p.1.annotations)) [
    | inl same ↦
        let there = ==_path d.annotations p.1.annotations same in
        rw same (record { sets = ground arith; tells = λ h. (h, ground arith) })
    | inr other ↦ rw other (record { sets = refl; tells = λ h. cc })
  ]

  pub bring_up_to_date_lem :
      (d o : Object S) → IsWritten (false, o) (bring_up_to_date d o) (updated d o)
  unfolding bring_up_to_date
  bring_up_to_date_lem d o =
      let p = set_spec d (false, o) in
      let q = set_labels d p in
      let a = spec-IsWritten d (false, o) in
      let b = labels-IsWritten d p in
      let f = annotations-IsWritten d q in
      record {
        sets = ground (arith, a.sets, b.sets, f.sets);
        tells = λ h. ground (arith, a.sets, b.sets, f.sets, a.tells, b.tells, f.tells);
      }
