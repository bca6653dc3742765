-- ===== src/Translator/Ingresses/ServicePorts.antt =====
-- The ports of services for pkg/managerdriver/utils.go: `findServicesPort`, `getProtoForServicePort`,
-- `getPortAppProtocol` and `netv1PathTypeToIR`, and the store that a translator reads.
use Prim.Native.Char.{Char, code}
use ngrok_operator.Common.{
  ℕ, String, Bool, true, false, ◌&&◌, ◌||◌, Option, none, some, List, [], ◌∷◌, ◌==◌, nat_eq,
  string_eq, ltb, lookup, if◌then◌else◌, first_of,
}
use ngrok_operator.Policy.{TrafficPolicy}
use ngrok_operator.Ir.{IrProtocol, http, https, tcp, tls, IrPathMatchType, prefix, exact}
use ngrok_operator.Names.{chars, lower}

pub record ServicePort : Type 0 where
  pub name : String
  pub port : ℕ
  pub app_protocol : Option String

pub record Service : Type 0 where
  pub uid : String
  pub annotations : List (String × String)
  pub ports : List ServicePort

-- The port of a backend: 0 is no number, and the empty text no name.
pub record ServiceBackendPort : Type 0 where
  pub name : String
  pub number : ℕ

-- What a translator reads: services and traffic policies of the store by name and namespace, a policy
-- already parsed, and the JSON object in the annotation for application protocols.
pub record Store : Type 0 where
  pub get_service : String → String → Option Service
  pub get_traffic_policy : String → String → Option TrafficPolicy
  pub parse_protocols : String → Option (List (String × String))

unfoldable pub find_services_port : List ServicePort → ServiceBackendPort → Option ServicePort
find_services_port [] b = none
find_services_port (p ∷ ps) b =
    let rest = find_services_port ps b in
    if (ltb 0 b.number && p.port == b.number) || p.name == b.name then some p else rest

abbrev app_protocols_annotation : String
app_protocols_annotation = "ngrok.com/app-protocols"

abbrev legacy_app_protocols_annotation : String
legacy_app_protocols_annotation = "k8s.ngrok.com/app-protocols"

-- The annotation, or the one under the older key.
app_protocols : List (String × String) → Option String
app_protocols annotations =
    first_of (lookup app_protocols_annotation annotations)
      (lookup legacy_app_protocols_annotation annotations)

-- Equality but for the case of ASCII letters, of a text with one in lower case.
unfoldable pub lower_text_is : List Char → List Char → Bool
unfolding lower
lower_text_is [] [] = true
lower_text_is (c ∷ cs) (d ∷ ds) = code (lower c) == code d && lower_text_is cs ds
lower_text_is _ _ = false

known_protocol : String → IrProtocol → IrProtocol
unfolding lower_text_is
known_protocol s default =
    if lower_text_is (chars s) (chars "http")
    then http
    else if lower_text_is (chars s) (chars "https")
    then https
    else if lower_text_is (chars s) (chars "tcp")
    then tcp
    else if lower_text_is (chars s) (chars "tls")
    then tls
    else default

protocol_at : Option String → IrProtocol → IrProtocol
protocol_at none default = default
protocol_at (some s) default = known_protocol s default

protocol_in : Option (List (String × String)) → String → IrProtocol → IrProtocol
unfolding protocol_at known_protocol
protocol_in none port_name default = default
protocol_in (some m) port_name default = protocol_at (lookup port_name m) default

proto_of :
    (String → Option (List (String × String))) → Option String → String → IrProtocol → IrProtocol
unfolding protocol_in
proto_of parse none port_name default = default
proto_of parse (some s) port_name default =
    if s == "" then default else protocol_in (parse s) port_name default

-- The protocol is the default also where an error is returned, which is only logged.
unfoldable pub get_proto_for_service_port : Store → Service → String → IrProtocol → IrProtocol
unfolding proto_of app_protocols
get_proto_for_service_port store s port_name default =
    proto_of store.parse_protocols (app_protocols s.annotations) port_name default

known_app_protocol : String → Option String
known_app_protocol p =
    if p == "ngrok.com/http2" || p == "k8s.ngrok.com/http2" || p == "kubernetes.io/h2c"
    then some "http2"
    else if p == "http"
    then some "http1"
    else none

unfoldable pub get_port_app_protocol : ServicePort → Option String
unfolding known_app_protocol
get_port_app_protocol p = elim p.app_protocol [ none ↦ none | some s ↦ known_app_protocol s ]

unfoldable pub path_type_to_ir : Option String → IrPathMatchType
path_type_to_ir none = prefix
path_type_to_ir (some s) = if s == "Exact" then exact else prefix
