-- ===== src/Translator/Ingresses/Hosts.antt =====
-- The virtual host of a rule: the one that another rule made, if the two agree, or a new one.
use ngrok_operator.Common.{
  String, Bool, true, false, ◌&&◌, Option, none, some, [], ◌∷◌, ◌==◌, string_eq, if◌then◌else◌,
  option_eq, option_beq,
}
use ngrok_operator.Policy.{TrafficPolicy}
use ngrok_operator.Ir.{OwningResource, https, IrUpstream, IrDestination, IrVirtualHost}
use ngrok_operator.Ir.Service.{key, add_owning_resource, owning_resource_eq}
use ngrok_operator.Translator.Ingresses.Merge.{merge_metadata}
use ngrok_operator.Translator.Ingresses.Resources.{Ingress, Translator, Reading, owner}

unfoldable pub policy_ref : Option (TrafficPolicy × OwningResource) → Option OwningResource
policy_ref none = none
policy_ref (some (tp, ref)) = some ref

-- `ptr.Equal` of two Booleans.
bool_beq : Bool → Bool → Bool
bool_beq true b = b
bool_beq false true = false
bool_beq false false = true

-- `reflect.DeepEqual` of destinations: upstreams are the same if their keys are.
same_upstream : Option IrUpstream → Option IrUpstream → Bool
same_upstream none none = true
same_upstream (some u) (some v) = key u.service == key v.service
same_upstream _ _ = false

same_destination : Translator → Option IrDestination → Option IrDestination → Bool
unfolding same_upstream
same_destination t none none = true
same_destination t (some d) (some e) =
    same_upstream d.upstream e.upstream && t.same_policies d.traffic_policies e.traffic_policies
same_destination _ _ _ = false

unfoldable pub agrees : Translator → Ingress → Reading → IrVirtualHost → Bool
unfolding same_destination policy_ref bool_beq
agrees t i r v =
    v.traffic_policy_obj_ref == policy_ref r.policy
    && (option_beq bool_beq v.endpoint_pooling_enabled i.use_endpoint_pooling
        && (v.namespace == i.namespace
            && same_destination t v.default_destination r.default_destination))

copied : Option TrafficPolicy → Option (Option TrafficPolicy)
copied none = none
copied (some tp) = some (some tp)

-- The copy of a policy, where there is one; none is an error.
unfoldable pub rule_policy :
    Translator → Option (TrafficPolicy × OwningResource) → Option (Option TrafficPolicy)
unfolding copied
rule_policy t none = some none
rule_policy t (some (tp, ref)) = copied (t.deep_copy tp)

unfoldable pub virtual_host :
    Translator → Ingress → Reading → String → Option TrafficPolicy → IrVirtualHost
unfolding owner policy_ref merge_metadata
virtual_host t i r host tp = record {
  name_prefix = none;
  namespace = i.namespace;
  listener = record { hostname = host; port = 443; protocol = https };
  endpoint_pooling_enabled = i.use_endpoint_pooling;
  traffic_policy = tp;
  traffic_policy_obj_ref = policy_ref r.policy;
  routes = [];
  default_destination = r.default_destination;
  tls_termination = none;
  client_cert_refs = [];
  labels_to_add = t.managed_resource_labels;
  annotations_to_add = [];
  owning_resources = owner i ∷ [];
  metadata = merge_metadata t.json t.default_ingress_metadata i.metadata;
  description = i.description;
  bindings = r.bindings;
  mapping_strategy = i.mapping_strategy;
  collapse_into_service_key = none;
}

unfoldable pub new_host :
    Translator → Ingress → Reading → String → Option (Option TrafficPolicy) → Option IrVirtualHost
unfolding virtual_host
new_host t i r host none = none
new_host t i r host (some tp) = some (virtual_host t i r host tp)

-- The virtual host for a rule, given the one in the cache; none where the rule is skipped.
unfoldable pub rule_host :
    Translator → Ingress → Reading → String → Option IrVirtualHost → Option IrVirtualHost
unfolding agrees add_owning_resource owner rule_policy new_host
rule_host t i r host (some v) =
    if agrees t i r v then some (add_owning_resource v (owner i)) else none
rule_host t i r host none = new_host t i r host (rule_policy t r.policy)
