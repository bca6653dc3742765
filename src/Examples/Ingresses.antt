-- ===== src/Examples/Ingresses.antt =====
-- Two ingresses of different namespaces that ask for the same hostname.
use ngrok_operator.Common.{
  ℕ, String, true, none, some, [], ◌∷◌, ◌==◌, string_eq, if◌then◌else◌, ◌≡◌, refl, length, lookup,
  All, map,
}
use ngrok_operator.Policy.{text}
use ngrok_operator.Ir.{IrVirtualHost, endpoints_collapsed, http, https}
use ngrok_operator.Ir.Service.{owning_resource_beq}
use ngrok_operator.Translator.Ingresses.{read_ingresses, ingresses_to_ir}
use ngrok_operator.Translator.Ingresses.ServicePorts.{
  get_proto_for_service_port, Service, Store, find_services_port,
}
use ngrok_operator.Translator.Ingresses.Hosts.{virtual_host}
use ngrok_operator.Translator.Ingresses.Laws.{lookup-read_ingresses}
use ngrok_operator.Translator.Ingresses.Merge.{Json, merge_metadata}
use ngrok_operator.Translator.Ingresses.Owned.{IsOwned}
use ngrok_operator.Translator.Ingresses.Owners.{ingresses_to_ir-IsOwned}
use ngrok_operator.Translator.Ingresses.Resources.{Ingress, IngressRule, Translator, missing}

abbrev web_service : Service
web_service = record {
  uid = "u1";
  annotations = [];
  ports = record { name = "web"; port = 80; app_protocol = none } ∷ [];
}

abbrev services : Store
services = record {
  get_service = λ name namespace. if name == "web" then some web_service else none;
  get_traffic_policy = λ name namespace. none;
  parse_protocols = λ s. none;
}

-- Objects with at most one field.
abbrev one_field : Json
one_field = record {
  parse = λ s. if s == "not json" then none else some ((s, text s) ∷ []);
  print = λ m. elim m [ [] ↦ "{}" | e ∷ rest ↦ e.0 ];
}

abbrev translator : Translator
translator = record {
  store = services;
  json = one_field;
  deep_copy = λ tp. some tp;
  same_policies = λ a b. true;
  managed_resource_labels = ("by", "operator") ∷ [];
  default_ingress_metadata = "";
}

abbrev shop_host : String
shop_host = "shop.example.com"

abbrev web_rule : IngressRule
web_rule = record {
  host = shop_host;
  http = some (
      record {
        path = "/";
        path_type = some "Exact";
        backend = record {
          resource = none;
          service = some ("web", record { name = "web"; number = 0 });
        };
      }
      ∷ []);
}

-- An ingress of a namespace for the hostname of the shop, with a rule without a hostname before it.
abbrev ingress_of : String → Ingress
ingress_of namespace = record {
  namespace = namespace;
  name = "front";
  rules = record { host = ""; http = none } ∷ (web_rule ∷ []);
  default_backend = none;
  mapping_strategy = endpoints_collapsed;
  use_endpoint_pooling = none;
  traffic_policy = missing;
  bindings = some [];
  metadata = "";
  description = "";
}

-- The protocol of a port is that of the annotation, in any case of letters, or the default.
protocol_test :
    get_proto_for_service_port
      (record services { parse_protocols = λ s. some (("web", "Https") ∷ []) })
      (record web_service { annotations = ("k8s.ngrok.com/app-protocols", "{}") ∷ [] })
      "web"
      http
    ≡ https
unfolding get_proto_for_service_port lookup
protocol_test = refl

-- An override that is no object leaves the base as it is, even one that is none either.
merge_test : merge_metadata one_field "not json" "not json" ≡ "not json"
unfolding merge_metadata
merge_test = refl

-- A number finds a port without a name where the backend gives no name.
unnamed_port_test :
    find_services_port
      (record { name = ""; port = 80; app_protocol = none }
        ∷ (record { name = ""; port = 90; app_protocol = none } ∷ []))
      (record { name = ""; number = 90 })
    ≡ some (record { name = ""; port = 80; app_protocol = none })
unfolding find_services_port
unnamed_port_test = refl

-- What the ingress of the second namespace asks for is refused.
first_namespace_test :
    map {B = String × ℕ}
      (λ v. (v.namespace, length v.routes))
      (ingresses_to_ir translator (ingress_of "shop" ∷ (ingress_of "other" ∷ [])))
    ≡ ("shop", 1) ∷ []
unfolding ingresses_to_ir owning_resource_beq find_services_port
first_namespace_test = refl

-- Ingresses of one namespace share the virtual host.
shared_host_test :
    map {B = ℕ × ℕ}
      (λ v. (length v.owning_resources, length v.routes))
      (ingresses_to_ir translator
        (ingress_of "shop" ∷ (record (ingress_of "shop") { name = "back" } ∷ [])))
    ≡ (2, 2) ∷ []
unfolding ingresses_to_ir owning_resource_beq find_services_port
shared_host_test = refl

abbrev claimed : IrVirtualHost
claimed =
    virtual_host translator (ingress_of "shop")
      (record { default_destination = none; policy = none; bindings = [] }) shop_host none

lookup-read_ingresses_example :
    lookup shop_host
      (read_ingresses translator (ingress_of "other" ∷ []) ((shop_host, claimed) ∷ []) []).0
    ≡ some claimed
unfolding virtual_host lookup
lookup-read_ingresses_example =
    lookup-read_ingresses translator shop_host claimed (ingress_of "other" ∷ [])
      ((shop_host, claimed) ∷ []) [] (refl, tt) refl

ingresses_to_ir-IsOwned_example :
    All
      (IsOwned translator)
      (ingresses_to_ir translator (ingress_of "shop" ∷ (ingress_of "other" ∷ [])))
ingresses_to_ir-IsOwned_example =
    ingresses_to_ir-IsOwned translator (ingress_of "shop" ∷ (ingress_of "other" ∷ []))
