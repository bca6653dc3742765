-- ===== src/Translator/Ingresses/Laws.antt =====
-- Ingresses that share a hostname, for pkg/managerdriver/translate_ingresses.go.
use ngrok_operator.Common.{
  false, Bool-cases, Option, none, some, List, [], ◌∷◌, ◌==◌, string_eq, lookup, lookup-insert, ◌≡◌,
  ◌∙◌, refl, arith, All, inl, inr, String, ==_path,
}
use ngrok_operator.Policy.{TrafficPolicy}
use ngrok_operator.Ir.{OwningResource, IrVirtualHost, IrDestination}
use ngrok_operator.Translator.Ingresses.{
  with_paths, with_host, rule_to_ir, ingress_to_ir, ingress_paths_to_ir, add_routes, with_bindings,
  with_default, with_policy, read_ingress, read_ingresses, default_of,
  traffic_policy_from_annotation,
}
use ngrok_operator.Translator.Ingresses.Backends.{Upstreams}
use ngrok_operator.Translator.Ingresses.ServicePorts.{Store}
use ngrok_operator.Translator.Ingresses.Hosts.{rule_host, agrees}
use ngrok_operator.Translator.Ingresses.Resources.{
  IngressPath, IngressRule, Ingress, Translator, Reading, HostCache, owner,
}

rule_host_foreign :
    (t : Translator) (i : Ingress) (r : Reading) (host : String) (v : IrVirtualHost)
    → (v.namespace == i.namespace) ≡ false
    → rule_host t i r host (some v) ≡ none
unfolding rule_host agrees
rule_host_foreign t i r host v e = ground arith

module _ (store : Store) (o : OwningResource) (h : String) where
  with_paths_other :
      (host : String) (v : IrVirtualHost) (paths : Option (List IngressPath)) (hosts : HostCache)
      (cache : Upstreams)
      → (host == h) ≡ false
      → lookup h (with_paths store o host v paths hosts cache).0 ≡ lookup h hosts
  unfolding with_paths
  with_paths_other host v none hosts cache e = ground (arith, lookup-insert host h v hosts)
  with_paths_other host v (some paths) hosts cache e =
      let routes = ingress_paths_to_ir store o paths cache in
      ground (arith, lookup-insert host h (add_routes v routes.0) hosts)

  with_host_other :
      (rule : IngressRule) (m : Option IrVirtualHost) (hosts : HostCache) (cache : Upstreams)
      → (rule.host == h) ≡ false
      → lookup h (with_host store o rule m hosts cache).0 ≡ lookup h hosts
  unfolding with_host
  with_host_other rule none hosts cache e = refl
  with_host_other rule (some v) hosts cache e = with_paths_other rule.host v rule.http hosts cache e

module _ (t : Translator) (h : String) (v : IrVirtualHost) where
  rule_to_ir_foreign :
      (i : Ingress) (r : Reading) (rule : IngressRule) (hosts : HostCache) (cache : Upstreams)
      → (v.namespace == i.namespace) ≡ false
      → lookup h hosts ≡ some v
      → lookup h (rule_to_ir t i r rule hosts cache).0 ≡ some v
  unfolding rule_to_ir with_host
  rule_to_ir_foreign i r rule hosts cache e k = elim (Bool-cases (rule.host == "")) [
    | inl s ↦ rw s k
    | inr s ↦ rw s (elim (Bool-cases (rule.host == h)) [
      | inl same ↦
          let found : lookup rule.host hosts ≡ some v = rw (==_path rule.host h same) k in
          rw (found, rule_host_foreign t i r rule.host v e) k
      | inr other ↦
          with_host_other t.store (owner i) h rule
            (rule_host t i r rule.host (lookup rule.host hosts)) hosts cache other
          ∙ k
    ])
  ]

  ingress_to_ir_foreign :
      (i : Ingress) (r : Reading) (rules : List IngressRule) (hosts : HostCache) (cache : Upstreams)
      → (v.namespace == i.namespace) ≡ false
      → lookup h hosts ≡ some v
      → lookup h (ingress_to_ir t i r rules hosts cache).0 ≡ some v
  unfolding ingress_to_ir
  ingress_to_ir_foreign i r [] hosts cache e k = k
  ingress_to_ir_foreign i r (rule ∷ rules) hosts cache e k =
      let next = rule_to_ir t i r rule hosts cache in
      ingress_to_ir_foreign i r rules next.0 next.1 e (rule_to_ir_foreign i r rule hosts cache e k)

  with_bindings_foreign :
      (i : Ingress) (policy : Option (TrafficPolicy × OwningResource)) (d : Option IrDestination)
      (b : Option (List String)) (hosts : HostCache) (cache : Upstreams)
      → (v.namespace == i.namespace) ≡ false
      → lookup h hosts ≡ some v
      → lookup h (with_bindings t i policy d b hosts cache).0 ≡ some v
  unfolding with_bindings
  with_bindings_foreign i policy d none hosts cache e k = k
  with_bindings_foreign i policy d (some b) hosts cache e k =
      ingress_to_ir_foreign i (record { default_destination = d; policy = policy; bindings = b })
        i.rules hosts cache e k

  with_default_foreign :
      (i : Ingress) (policy : Option (TrafficPolicy × OwningResource))
      (d : Option (Option IrDestination × Upstreams)) (hosts : HostCache) (cache : Upstreams)
      → (v.namespace == i.namespace) ≡ false
      → lookup h hosts ≡ some v
      → lookup h (with_default t i policy d hosts cache).0 ≡ some v
  unfolding with_default
  with_default_foreign i policy none hosts cache e k = k
  with_default_foreign i policy (some (d, next)) hosts cache e k =
      with_bindings_foreign i policy d i.bindings hosts next e k

  with_policy_foreign :
      (i : Ingress) (policy : Option (Option (TrafficPolicy × OwningResource))) (hosts : HostCache)
      (cache : Upstreams)
      → (v.namespace == i.namespace) ≡ false
      → lookup h hosts ≡ some v
      → lookup h (with_policy t i policy hosts cache).0 ≡ some v
  unfolding with_policy
  with_policy_foreign i none hosts cache e k = k
  with_policy_foreign i (some policy) hosts cache e k =
      with_default_foreign i policy (default_of t.store (owner i) i.default_backend cache) hosts
        cache e k

  -- Once a hostname has a virtual host, ingresses that are all in other namespaces leave that
  -- virtual host as it is, whatever their rules, annotations and backends are.
  pub lookup-read_ingresses :
      (is : List Ingress) (hosts : HostCache) (cache : Upstreams)
      → All (λ i. (v.namespace == i.namespace) ≡ false) is
      → lookup h hosts ≡ some v
      → lookup h (read_ingresses t is hosts cache).0 ≡ some v
  unfolding read_ingresses read_ingress
  lookup-read_ingresses [] hosts cache a k = k
  lookup-read_ingresses (i ∷ is) hosts cache (e, a) k =
      let policy = traffic_policy_from_annotation t.store i.traffic_policy i.namespace in
      let next = read_ingress t i hosts cache in
      lookup-read_ingresses is next.0 next.1 a (with_policy_foreign i policy hosts cache e k)
