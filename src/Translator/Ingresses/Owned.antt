-- ===== src/Translator/Ingresses/Owned.antt =====
-- The virtual host of one rule of pkg/managerdriver/translate_ingresses.go, and whom it belongs to.
use ngrok_operator.Common.{
  true, false, Bool-cases, Option, none, some, List, [], ◌∷◌, ◌==◌, string_eq, lookup, insert,
  contains, ◌≡◌, refl, arith, All, All-append, inl, inr, String, ==_path, sym,
}
use ngrok_operator.Policy.{TrafficPolicy}
use ngrok_operator.Ir.{OwningResource, IrVirtualHost}
use ngrok_operator.Ir.Service.{add_owning, add_owning_resource, owning_resource_eq}
use ngrok_operator.Translator.Ingresses.{traffic_policy_from_annotation, named_policy}
use ngrok_operator.Translator.Ingresses.ServicePorts.{Store}
use ngrok_operator.Translator.Ingresses.Hosts.{
  rule_host, agrees, new_host, rule_policy, policy_ref, virtual_host,
}
use ngrok_operator.Translator.Ingresses.Resources.{
  NameAnnotation, missing, invalid, named, Ingress, Translator, Reading, HostCache, owner,
}

-- An optional value of which a predicate holds, if it is there.
abbrev pub IfSome {ℓ κ} : {A : Type ℓ} → (A → Type κ) → Option A → Type κ
IfSome P none = Unit
IfSome P (some a) = P a

-- An ingress of the namespace.
abbrev pub IsOwner : String → OwningResource → Type 0
IsOwner namespace o = (o.kind ≡ "Ingress") × (o.namespace ≡ namespace)

abbrev pub IsIn : String → OwningResource → Type 0
IsIn namespace o = o.namespace ≡ namespace

-- Owners and policy are of the namespace of the virtual host, which listens on port 443 of some host
-- and carries the labels of the operator.
abbrev pub IsOwned : Translator → IrVirtualHost → Type 0
IsOwned t v =
    All (IsOwner v.namespace) v.owning_resources
    × IfSome (IsIn v.namespace) v.traffic_policy_obj_ref
    × (v.listener.port ≡ 443)
    × ((v.listener.hostname == "") ≡ false)
    × (v.labels_to_add ≡ t.managed_resource_labels)

abbrev pub AreOwned : Translator → HostCache → Type 0
AreOwned t hosts = All (λ e. IsOwned t e.1) hosts

agrees-namespace :
    (t : Translator) (i : Ingress) (r : Reading) (v : IrVirtualHost)
    → agrees t i r v ≡ true
    → v.namespace ≡ i.namespace
unfolding agrees
agrees-namespace t i r v g =
    let same : (v.namespace == i.namespace) ≡ true = ground arith in
    ==_path v.namespace i.namespace same

named_policy-IsIn :
    (name namespace : String) (tp : Option TrafficPolicy)
    → IfSome (λ p. IfSome (IsIn namespace) (policy_ref p)) (named_policy name namespace tp)
unfolding named_policy policy_ref
named_policy-IsIn name namespace none = tt
named_policy-IsIn name namespace (some tp) = refl

pub policy-IsIn :
    (store : Store) (a : NameAnnotation) (namespace : String)
    → IfSome
        (λ p. IfSome (IsIn namespace) (policy_ref p))
        (traffic_policy_from_annotation store a namespace)
unfolding traffic_policy_from_annotation policy_ref
policy-IsIn store missing namespace = tt
policy-IsIn store invalid namespace = tt
policy-IsIn store (named name) namespace =
    named_policy-IsIn name namespace (store.get_traffic_policy name namespace)

module _ (t : Translator) where
  pub insert-AreOwned :
      (h : String) (v : IrVirtualHost) (hosts : HostCache)
      → IsOwned t v
      → AreOwned t hosts
      → AreOwned t (insert h v hosts)
  unfolding insert
  insert-AreOwned h v [] p a = (p, a)
  insert-AreOwned h v ((k, w) ∷ hosts) p (q, a) = elim (Bool-cases (k == h)) [
    | inl e ↦ rw e (p, a)
    | inr e ↦ rw e (q, insert-AreOwned h v hosts p a)
  ]

  pub lookup-IsOwned :
      (h : String) (hosts : HostCache) → AreOwned t hosts → IfSome (IsOwned t) (lookup h hosts)
  unfolding lookup
  lookup-IsOwned h [] a = a
  lookup-IsOwned h ((k, w) ∷ hosts) (q, a) = elim (Bool-cases (k == h)) [
    | inl e ↦ rw e q
    | inr e ↦ rw e (lookup-IsOwned h hosts a)
  ]

  add_owning-IsOwner :
      (namespace : String) (owners : List OwningResource) (o : OwningResource)
      → All (IsOwner namespace) owners
      → IsOwner namespace o
      → All (IsOwner namespace) (add_owning owners o)
  unfolding add_owning
  add_owning-IsOwner namespace owners o a p = elim (Bool-cases (contains owners o)) [
    | inl e ↦ rw e a
    | inr e ↦ rw e (All-append (IsOwner namespace) owners (o ∷ []) a (p, tt))
  ]

  new_host-IsOwned :
      (i : Ingress) (r : Reading) (h : String) (p : Option (Option TrafficPolicy))
      → (h == "") ≡ false
      → IfSome (IsIn i.namespace) (policy_ref r.policy)
      → IfSome (IsOwned t) (new_host t i r h p)
  unfolding new_host virtual_host owner
  new_host-IsOwned i r h none e q = tt
  new_host-IsOwned i r h (some p) e q = (((refl, refl), tt), q, refl, e, refl)

  pub rule_host-IsOwned :
      (i : Ingress) (r : Reading) (h : String) (m : Option IrVirtualHost)
      → (h == "") ≡ false
      → IfSome (IsIn i.namespace) (policy_ref r.policy)
      → IfSome (IsOwned t) m
      → IfSome (IsOwned t) (rule_host t i r h m)
  unfolding rule_host add_owning_resource owner
  rule_host-IsOwned i r h none e q p = new_host-IsOwned i r h (rule_policy t r.policy) e q
  rule_host-IsOwned i r h (some v) e q (a, ref, port, host, labels) =
      elim (Bool-cases (agrees t i r v)) [
        | inl g ↦ rw g (
          add_owning-IsOwner v.namespace v.owning_resources (owner i) a
              (refl, sym (agrees-namespace t i r v g)),
          ref,
          port,
          host,
          labels,
        )
        | inr g ↦ rw g tt
      ]
