-- ===== src/Examples/Data.antt =====
-- A shop of two services, its routes and its virtual hosts.
use Prim.Native.Char.{Char}
use ngrok_operator.Common.{ℕ, String, Option, none, some, List, [], ◌∷◌}
use ngrok_operator.Policy.{Rule, TrafficPolicy, new_traffic_policy, text, obj, single, deny, log}
use ngrok_operator.Ir.{
  https, endpoints_collapsed, endpoints_verbose, prefix, exact, IrPathMatchType, IrHttpMatch,
  http_scheme, IrService, IrUpstream, IrDestination, IrRoute, IrVirtualHost, IrMappingStrategy,
}
use ngrok_operator.Translator.Endpoints.{Env, AgentEndpoint}

abbrev pub deny_rule : Rule
deny_rule = record {
  name = text "deny";
  expressions = [];
  actions = (record { type = deny; config = obj (single "status_code" (text "404")) }) ∷ [];
}

abbrev pub log_rule : Rule
log_rule = record {
  name = text "log";
  expressions = [];
  actions = (record { type = log; config = obj (single "a" (text "b")) }) ∷ [];
}

abbrev pub denying : TrafficPolicy
denying = record new_traffic_policy { on_http_request = deny_rule ∷ [] }

abbrev pub logging : TrafficPolicy
logging = record new_traffic_policy { on_tcp_connect = log_rule ∷ [] }

abbrev pub service : String → IrService
service name = record {
  uid = name;
  namespace = "shop";
  name = name;
  port = 80;
  client_cert_refs = [];
  scheme = http_scheme;
  protocol = none;
}

abbrev pub upstream : String → IrUpstream
upstream name = record { owning_resources = []; service = service name }

abbrev pub destination : String → Option ℕ → IrDestination
destination name weight = record {
  weight = weight;
  upstream = some (upstream name);
  traffic_policies = [];
}

abbrev pub path_match : IrPathMatchType → String → IrHttpMatch
path_match kind path = record {
  path = some path;
  path_type = some kind;
  headers = [];
  query_params = [];
  method = none;
}

abbrev pub route : IrPathMatchType → String → List IrDestination → IrRoute
route kind path ds = record {
  http_match_criteria = some (path_match kind path);
  traffic_policies = [];
  destinations = ds;
}

abbrev pub host : String → IrMappingStrategy → List IrRoute → Option IrDestination → IrVirtualHost
host hostname strategy routes default_destination = record {
  name_prefix = none;
  namespace = "shop";
  listener = record { hostname = hostname; port = 443; protocol = https };
  endpoint_pooling_enabled = none;
  traffic_policy = none;
  traffic_policy_obj_ref = none;
  routes = routes;
  default_destination = default_destination;
  tls_termination = none;
  client_cert_refs = [];
  labels_to_add = [];
  annotations_to_add = [];
  owning_resources = [];
  metadata = "";
  description = "";
  bindings = [];
  mapping_strategy = strategy;
  collapse_into_service_key = none;
}

-- Two weighted destinations behind one route, and a more specific route to a third.
abbrev pub cart_and_stock : List IrDestination
cart_and_stock = destination "cart" (some 3) ∷ (destination "stock" none ∷ [])

abbrev pub wide : IrRoute
wide = route prefix "/a" cart_and_stock

abbrev pub narrow : IrRoute
narrow = route exact "/a/b" (destination "cart" none ∷ [])

abbrev pub shop : IrVirtualHost
shop = host "shop.test" endpoints_collapsed (wide ∷ (narrow ∷ [])) none

abbrev pub blog : IrVirtualHost
blog =
    host "blog.test" endpoints_verbose (route prefix "/" (destination "stock" none ∷ []) ∷ []) none

abbrev pub digits : String → List Char
digits s = "0" ∷ ("1" ∷ ("2" ∷ ("3" ∷ ("4" ∷ ("5" ∷ ("6" ∷ ("7" ∷ [])))))))

abbrev pub env : Env
env = record { cluster_domain = "svc.cluster.local"; sha256_hex = digits }

abbrev pub endpoint : AgentEndpoint
endpoint = record {
  name = "stock-80";
  namespace = "shop";
  labels = [];
  annotations = [];
  url = "https://stock-80.internal";
  metadata = none;
  description = "";
  upstream_url = "http://stock.shop:80";
  upstream_protocol = none;
  bindings = [];
  client_certificate_refs = [];
  traffic_policy = none;
}
