-- ===== src/Translator/Ingresses/Owners.antt =====
-- Whom the virtual hosts of pkg/managerdriver/translate_ingresses.go belong to.
use ngrok_operator.Common.{
  Bool-cases, Option, none, some, List, [], ◌∷◌, ◌==◌, string_eq, lookup, All, inl, inr, String,
}
use ngrok_operator.Policy.{TrafficPolicy}
use ngrok_operator.Ir.{OwningResource, IrVirtualHost, IrDestination}
use ngrok_operator.Ir.Service.{owning_resource_eq}
use ngrok_operator.Translator.Ingresses.{
  with_paths, with_host, rule_to_ir, ingress_to_ir, ingress_paths_to_ir, add_routes, with_bindings,
  with_default, with_policy, read_ingress, read_ingresses, default_of,
  traffic_policy_from_annotation, ingresses_to_ir,
}
use ngrok_operator.Translator.Ingresses.Backends.{Upstreams}
use ngrok_operator.Translator.Ingresses.ServicePorts.{Store}
use ngrok_operator.Translator.Ingresses.Hosts.{rule_host, policy_ref}
use ngrok_operator.Translator.Ingresses.Refresh.{refresh_hosts, refresh_host}
use ngrok_operator.Translator.Ingresses.Resources.{
  IngressPath, IngressRule, Ingress, Translator, Reading, HostCache, owner,
}
use ngrok_operator.Translator.Ingresses.Owned.{
  IfSome, IsIn, IsOwned, AreOwned, policy-IsIn, insert-AreOwned, lookup-IsOwned, rule_host-IsOwned,
}

module _ (t : Translator) where
  with_paths-AreOwned :
      (store : Store) (o : OwningResource) (h : String) (v : IrVirtualHost)
      (paths : Option (List IngressPath)) (hosts : HostCache) (cache : Upstreams)
      → IsOwned t v
      → AreOwned t hosts
      → AreOwned t (with_paths store o h v paths hosts cache).0
  unfolding with_paths
  with_paths-AreOwned store o h v none hosts cache p a = insert-AreOwned t h v hosts p a
  with_paths-AreOwned store o h v (some paths) hosts cache p a =
      let routes = ingress_paths_to_ir store o paths cache in
      insert-AreOwned t h (add_routes v routes.0) hosts p a

  with_host-AreOwned :
      (store : Store) (o : OwningResource) (rule : IngressRule) (m : Option IrVirtualHost)
      (hosts : HostCache) (cache : Upstreams)
      → IfSome (IsOwned t) m
      → AreOwned t hosts
      → AreOwned t (with_host store o rule m hosts cache).0
  unfolding with_host
  with_host-AreOwned store o rule none hosts cache p a = a
  with_host-AreOwned store o rule (some v) hosts cache p a =
      with_paths-AreOwned store o rule.host v rule.http hosts cache p a

  rule_to_ir-AreOwned :
      (i : Ingress) (r : Reading) (rule : IngressRule) (hosts : HostCache) (cache : Upstreams)
      → IfSome (IsIn i.namespace) (policy_ref r.policy)
      → AreOwned t hosts
      → AreOwned t (rule_to_ir t i r rule hosts cache).0
  unfolding rule_to_ir
  rule_to_ir-AreOwned i r rule hosts cache q a = elim (Bool-cases (rule.host == "")) [
    | inl e ↦ rw e a
    | inr e ↦
        let m = lookup rule.host hosts in
        let p = rule_host-IsOwned t i r rule.host m e q (lookup-IsOwned t rule.host hosts a) in
        rw e
          (with_host-AreOwned t.store (owner i) rule (rule_host t i r rule.host m) hosts cache p a)
  ]

  ingress_to_ir-AreOwned :
      (i : Ingress) (r : Reading) (rules : List IngressRule) (hosts : HostCache) (cache : Upstreams)
      → IfSome (IsIn i.namespace) (policy_ref r.policy)
      → AreOwned t hosts
      → AreOwned t (ingress_to_ir t i r rules hosts cache).0
  unfolding ingress_to_ir
  ingress_to_ir-AreOwned i r [] hosts cache q a = a
  ingress_to_ir-AreOwned i r (rule ∷ rules) hosts cache q a =
      let next = rule_to_ir t i r rule hosts cache in
      ingress_to_ir-AreOwned i r rules next.0 next.1 q
        (rule_to_ir-AreOwned i r rule hosts cache q a)

  with_bindings-AreOwned :
      (i : Ingress) (policy : Option (TrafficPolicy × OwningResource)) (d : Option IrDestination)
      (b : Option (List String)) (hosts : HostCache) (cache : Upstreams)
      → IfSome (IsIn i.namespace) (policy_ref policy)
      → AreOwned t hosts
      → AreOwned t (with_bindings t i policy d b hosts cache).0
  unfolding with_bindings
  with_bindings-AreOwned i policy d none hosts cache q a = a
  with_bindings-AreOwned i policy d (some b) hosts cache q a =
      let r : Reading = record { default_destination = d; policy = policy; bindings = b } in
      ingress_to_ir-AreOwned i r i.rules hosts cache q a

  with_default-AreOwned :
      (i : Ingress) (policy : Option (TrafficPolicy × OwningResource))
      (d : Option (Option IrDestination × Upstreams)) (hosts : HostCache) (cache : Upstreams)
      → IfSome (IsIn i.namespace) (policy_ref policy)
      → AreOwned t hosts
      → AreOwned t (with_default t i policy d hosts cache).0
  unfolding with_default
  with_default-AreOwned i policy none hosts cache q a = a
  with_default-AreOwned i policy (some (d, next)) hosts cache q a =
      with_bindings-AreOwned i policy d i.bindings hosts next q a

  with_policy-AreOwned :
      (i : Ingress) (policy : Option (Option (TrafficPolicy × OwningResource))) (hosts : HostCache)
      (cache : Upstreams)
      → IfSome (λ p. IfSome (IsIn i.namespace) (policy_ref p)) policy
      → AreOwned t hosts
      → AreOwned t (with_policy t i policy hosts cache).0
  unfolding with_policy
  with_policy-AreOwned i none hosts cache q a = a
  with_policy-AreOwned i (some policy) hosts cache q a =
      with_default-AreOwned i policy (default_of t.store (owner i) i.default_backend cache) hosts
        cache q a

  read_ingresses-AreOwned :
      (is : List Ingress) (hosts : HostCache) (cache : Upstreams)
      → AreOwned t hosts
      → AreOwned t (read_ingresses t is hosts cache).0
  unfolding read_ingresses read_ingress
  read_ingresses-AreOwned [] hosts cache a = a
  read_ingresses-AreOwned (i ∷ is) hosts cache a =
      let policy = traffic_policy_from_annotation t.store i.traffic_policy i.namespace in
      let next = read_ingress t i hosts cache in
      read_ingresses-AreOwned is next.0 next.1 (
        with_policy-AreOwned i policy hosts cache (policy-IsIn t.store i.traffic_policy i.namespace)
          a)

  refresh_hosts-IsOwned :
      (cache : Upstreams) (hosts : HostCache)
      → AreOwned t hosts
      → All (IsOwned t) (refresh_hosts cache hosts)
  unfolding refresh_hosts refresh_host
  refresh_hosts-IsOwned cache [] a = tt
  refresh_hosts-IsOwned cache ((h, v) ∷ hosts) (p, a) = (p, refresh_hosts-IsOwned cache hosts a)

-- Every virtual host made from ingresses belongs to one namespace: all its owners are ingresses of
-- that namespace, and so is the policy it refers to, if any, a resource of that namespace. It listens
-- on port 443 of a hostname that is not empty, and carries exactly the labels of the operator.
pub ingresses_to_ir-IsOwned :
    (t : Translator) (is : List Ingress) → All (IsOwned t) (ingresses_to_ir t is)
unfolding ingresses_to_ir
ingresses_to_ir-IsOwned t is =
    let all = read_ingresses t is [] [] in
    refresh_hosts-IsOwned t all.1 all.0 (read_ingresses-AreOwned t is [] [] tt)
