-- ===== src/Translator/Ingresses/Backends.antt =====
-- `ingressBackendToIR` of pkg/managerdriver/translate_ingresses.go. An upstream is shared through a
-- cache by the key of its service.
use ngrok_operator.Common.{
  String, Bool, true, ◌&&◌, Option, none, some, List, [], ◌∷◌, ◌==◌, nat_eq, string_eq, lookup,
  insert, if◌then◌else◌,
}
use ngrok_operator.Policy.{TrafficPolicy}
use ngrok_operator.Ir.{
  OwningResource, http, IrScheme, http_scheme, IrService, IrUpstream, IrDestination,
}
use ngrok_operator.Ir.Service.{key, upstream_add_owning_resource}
use ngrok_operator.Names.{chars, protocol_string_to_ir_scheme}
use ngrok_operator.Translator.Ingresses.ServicePorts.{
  ServicePort, Service, ServiceBackendPort, Store, find_services_port, get_proto_for_service_port,
  get_port_app_protocol, lower_text_is,
}

pub record ResourceRef : Type 0 where
  pub kind : String
  pub api_group : Option String
  pub name : String

pub record IngressBackend : Type 0 where
  pub resource : Option ResourceRef
  pub service : Option (String × ServiceBackendPort)

abbrev scheme_or_http : Option IrScheme → IrScheme
scheme_or_http none = http_scheme
scheme_or_http (some s) = s

abbrev pub Upstreams : Type 0
Upstreams = List (String × IrUpstream)

-- The upstream of a service, with one more owner; the cached one, if there is one, keeps its service.
shared_upstream : IrService → OwningResource → Option IrUpstream → IrUpstream
unfolding upstream_add_owning_resource
shared_upstream s owner none = record { service = s; owning_resources = owner ∷ [] }
shared_upstream s owner (some u) = upstream_add_owning_resource u owner

to_service : IrService → OwningResource → Upstreams → IrDestination × Upstreams
unfolding key shared_upstream
to_service s owner cache =
    let u = shared_upstream s owner (lookup (key s) cache) in
    (record { weight = none; upstream = some u; traffic_policies = [] }, insert (key s) u cache)

service_of : Store → Service → String → String → ServicePort → IrService
unfolding get_proto_for_service_port get_port_app_protocol protocol_string_to_ir_scheme
service_of store s name namespace p = record {
  uid = s.uid;
  namespace = namespace;
  name = name;
  port = p.port;
  client_cert_refs = [];
  scheme =
      scheme_or_http
        (protocol_string_to_ir_scheme (get_proto_for_service_port store s p.name http));
  protocol = get_port_app_protocol p;
}

-- Only a policy of the group of the operator, without rules for new connections, can be a backend.
policy_backend : Option TrafficPolicy → Option IrDestination
policy_backend none = none
policy_backend (some tp) = elim tp.on_tcp_connect [
  | [] ↦ some (record { weight = none; upstream = none; traffic_policies = tp ∷ [] })
  | r ∷ rs ↦ none
]

group_is_ours : Option String → Bool
group_is_ours none = true
group_is_ours (some g) = g == "ngrok.k8s.ngrok.com"

resource_backend : Store → String → ResourceRef → Option IrDestination
unfolding lower_text_is policy_backend group_is_ours
resource_backend store namespace r =
    if lower_text_is (chars r.kind) (chars "ngroktrafficpolicy") && group_is_ours r.api_group
    then policy_backend (store.get_traffic_policy r.name namespace)
    else none

at_port :
    Store
    → OwningResource
    → String
    → Service
    → Option ServicePort
    → Upstreams
    → Option (IrDestination × Upstreams)
at_port store owner name s none cache = none
at_port store owner name s (some p) cache =
    some (to_service (service_of store s name owner.namespace p) owner cache)

at_service :
    Store
    → OwningResource
    → String
    → ServiceBackendPort
    → Option Service
    → Upstreams
    → Option (IrDestination × Upstreams)
at_service store owner name b none cache = none
at_service store owner name b (some s) cache =
    at_port store owner name s (find_services_port s.ports b) cache

service_backend :
    Store
    → OwningResource
    → Option (String × ServiceBackendPort)
    → Upstreams
    → Option (IrDestination × Upstreams)
service_backend store owner none cache = none
service_backend store owner (some (name, b)) cache =
    at_service store owner name b (store.get_service name owner.namespace) cache

with_cache : Option IrDestination → Upstreams → Option (IrDestination × Upstreams)
with_cache none cache = none
with_cache (some d) cache = some (d, cache)

backend_of :
    Store
    → OwningResource
    → IngressBackend
    → Option ResourceRef
    → Upstreams
    → Option (IrDestination × Upstreams)
backend_of store owner b none cache = service_backend store owner b.service cache
backend_of store owner b (some r) cache =
    with_cache (resource_backend store owner.namespace r) cache

-- The destination of a backend of the ingress `owner`, or none where an error is returned.
unfoldable pub ingress_backend_to_ir :
    Store → OwningResource → IngressBackend → Upstreams → Option (IrDestination × Upstreams)
unfolding backend_of service_backend at_service at_port with_cache to_service service_of
    resource_backend
ingress_backend_to_ir store owner b cache = backend_of store owner b b.resource cache
