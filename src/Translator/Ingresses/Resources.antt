-- ===== src/Translator/Ingresses/Resources.antt =====
-- Ingresses as pkg/managerdriver/translate_ingresses.go reads them, and the translator.
use ngrok_operator.Common.{String, Bool, Option, List, string_eq, option_eq}
use ngrok_operator.Policy.{TrafficPolicy}
use ngrok_operator.Ir.{OwningResource, IrMappingStrategy, IrDestination, IrVirtualHost}
use ngrok_operator.Ir.Service.{owning_resource_eq}
use ngrok_operator.Translator.Ingresses.Backends.{IngressBackend}
use ngrok_operator.Translator.Ingresses.ServicePorts.{Store}
use ngrok_operator.Translator.Ingresses.Merge.{Json}

pub record IngressPath : Type 0 where
  pub path : String
  pub path_type : Option String
  pub backend : IngressBackend

pub record IngressRule : Type 0 where
  pub host : String
  pub http : Option (List IngressPath)

-- What reading an annotation gives: nothing under its key, an error, or a name.
pub data NameAnnotation : Type 0 where
  missing invalid : NameAnnotation
  named : String → NameAnnotation

-- An ingress with the values of its annotations; `bindings` is none where reading them fails.
pub record Ingress : Type 0 where
  pub namespace : String
  pub name : String
  pub rules : List IngressRule
  pub default_backend : Option IngressBackend
  pub mapping_strategy : IrMappingStrategy
  pub use_endpoint_pooling : Option Bool
  pub traffic_policy : NameAnnotation
  pub bindings : Option (List String)
  pub metadata : String
  pub description : String

-- The translator: `deep_copy` is a policy written as JSON and read again, `same_policies` is
-- `reflect.DeepEqual`.
pub record Translator : Type 0 where
  pub store : Store
  pub json : Json
  pub deep_copy : TrafficPolicy → Option TrafficPolicy
  pub same_policies : List TrafficPolicy → List TrafficPolicy → Bool
  pub managed_resource_labels : List (String × String)
  pub default_ingress_metadata : String

abbrev pub HostCache : Type 0
HostCache = List (String × IrVirtualHost)

unfoldable pub owner : Ingress → OwningResource
owner i = record { kind = "Ingress"; name = i.name; namespace = i.namespace }

-- What `ingressesToIR` reads before it looks at the rules of an ingress.
pub record Reading : Type 0 where
  pub default_destination : Option IrDestination
  pub policy : Option (TrafficPolicy × OwningResource)
  pub bindings : List String
