-- ===== src/Ir.antt =====
-- internal/ir/ir.go: the intermediate representation between Kubernetes resources and endpoints.
-- An int32 port is a natural number: Kubernetes admits 1 to 65535. A string type with named
-- constants is a data type with a constructor for each constant and one for any other text.
pub mod Service
pub mod Order
use ngrok_operator.Common.{ℕ, String, Bool, true, false, Option, none, some, List, ◌==◌, string_eq}
use ngrok_operator.Policy.{TrafficPolicy}

pub record OwningResource : Type 0 where
  pub kind : String
  pub name : String
  pub namespace : String

pub data IrProtocol : Type 0 where
  https http tcp tls : IrProtocol
  other_protocol : String → IrProtocol

pub record IrListener : Type 0 where
  pub hostname : String
  pub port : ℕ
  pub protocol : IrProtocol

pub data IrMappingStrategy : Type 0 where
  endpoints_collapsed endpoints_verbose edges : IrMappingStrategy

pub data IrPathMatchType : Type 0 where
  prefix exact regex : IrPathMatchType
  other_path_type : String → IrPathMatchType

pub data IrStringValueType : Type 0 where
  exact regex : IrStringValueType
  other_value_type : String → IrStringValueType

-- `IRHeaderMatch` and `IRQueryParamMatch`, which have the same fields.
pub record IrHeaderMatch : Type 0 where
  pub name : String
  pub value : String
  pub value_type : IrStringValueType

pub record IrHttpMatch : Type 0 where
  pub path : Option String
  pub path_type : Option IrPathMatchType
  pub headers : List IrHeaderMatch
  pub query_params : List IrHeaderMatch
  pub method : Option String

pub record IrObjectRef : Type 0 where
  pub name : String
  pub namespace : String

pub data IrScheme : Type 0 where
  http_scheme https_scheme tcp_scheme tls_scheme : IrScheme

pub record IrService : Type 0 where
  pub uid : String
  pub namespace : String
  pub name : String
  pub port : ℕ
  pub client_cert_refs : List IrObjectRef
  pub scheme : IrScheme
  pub protocol : Option String

pub record IrUpstream : Type 0 where
  pub owning_resources : List OwningResource
  pub service : IrService

pub record IrDestination : Type 0 where
  pub weight : Option ℕ
  pub upstream : Option IrUpstream
  pub traffic_policies : List TrafficPolicy

pub record IrRoute : Type 0 where
  pub http_match_criteria : Option IrHttpMatch
  pub traffic_policies : List TrafficPolicy
  pub destinations : List IrDestination

pub record IrTlsTermination : Type 0 where
  pub extended_options : List (String × String)
  pub server_private_key : Option String
  pub server_certificate : Option String
  pub mutual_tls_certificate_authorities : List String

pub record IrVirtualHost : Type 0 where
  pub name_prefix : Option String
  pub namespace : String
  pub listener : IrListener
  pub endpoint_pooling_enabled : Option Bool
  pub traffic_policy : Option TrafficPolicy
  pub traffic_policy_obj_ref : Option OwningResource
  pub routes : List IrRoute
  pub default_destination : Option IrDestination
  pub tls_termination : Option IrTlsTermination
  pub client_cert_refs : List IrObjectRef
  pub labels_to_add : List (String × String)
  pub annotations_to_add : List (String × String)
  pub owning_resources : List OwningResource
  pub metadata : String
  pub description : String
  pub bindings : List String
  pub mapping_strategy : IrMappingStrategy
  pub collapse_into_service_key : Option String

-- The text of a scheme, and of a value type.
unfoldable pub scheme_text : IrScheme → String
scheme_text http_scheme = "http://"
scheme_text https_scheme = "https://"
scheme_text tcp_scheme = "tcp://"
scheme_text tls_scheme = "tls://"

unfoldable pub value_type_text : IrStringValueType → String
value_type_text exact = "exact"
value_type_text regex = "regex"
value_type_text (other_value_type s) = s
