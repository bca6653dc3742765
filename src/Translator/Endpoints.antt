-- ===== src/Translator/Endpoints.antt =====
-- `buildPublicURL`, `buildCloudEndpoint` and `buildAgentEndpoint` of
-- pkg/managerdriver/translator.go. An error is `none`. Metadata is the text inside its JSON string.
use Prim.Native.Char.{Char}
use ngrok_operator.Common.{
  ℕ, String, ◌<>◌, Bool, false, not, Option, none, some, List, [], map, ◌==◌, nat_eq, string_eq,
  decimal, if◌then◌else◌,
}
use ngrok_operator.Policy.{TrafficPolicy}
use ngrok_operator.Ir.{
  IrProtocol, https, http, tcp, tls, other_protocol, IrObjectRef, IrService, IrVirtualHost,
  scheme_text,
}
use ngrok_operator.Ir.Service.{key}
use ngrok_operator.Names.{
  sanitize_string_for_k8s_name, protocol_string_to_ir_scheme, internal_agent_endpoint_name,
  build_internal_endpoint_url, agent_endpoint_upstream_url,
}

-- What the translator is given beside the resources: its cluster domain, and SHA-256 in
-- hexadecimal.
pub record Env : Type 0 where
  pub cluster_domain : String
  pub sha256_hex : String → List Char

pub record AgentEndpoint : Type 0 where
  pub name : String
  pub namespace : String
  pub labels : List (String × String)
  pub annotations : List (String × String)
  pub url : String
  pub metadata : Option String
  pub description : String
  pub upstream_url : String
  pub upstream_protocol : Option String
  pub bindings : List String
  pub client_certificate_refs : List String
  pub traffic_policy : Option TrafficPolicy

-- The policy is written twice, under `inline` and under the older `policy`.
pub record CloudEndpoint : Type 0 where
  pub name : String
  pub namespace : String
  pub labels : List (String × String)
  pub annotations : List (String × String)
  pub url : String
  pub pooling_enabled : Option Bool
  pub metadata : Option String
  pub description : String
  pub bindings : List String
  pub traffic_policy_inline : Option TrafficPolicy
  pub traffic_policy_policy : Option TrafficPolicy

-- The port that the public URL shows: none where it is the default of the protocol.
public_port : IrProtocol → ℕ → Option ℕ
public_port https port = if not (port == 443) then some port else none
public_port http port = if not (port == 80) then some port else none
public_port tcp port = some port
public_port tls port = some port
public_port (other_protocol s) port = none

with_port : String → Option ℕ → String
with_port url none = url
with_port url (some port) = url <> ":" <> decimal port

unfoldable pub build_public_url : IrVirtualHost → Option String
unfolding public_port with_port protocol_string_to_ir_scheme scheme_text decimal
build_public_url v = elim (protocol_string_to_ir_scheme v.listener.protocol) [
  | none ↦ none
  | some scheme ↦ some (
      with_port (scheme_text scheme <> v.listener.hostname)
        (public_port v.listener.protocol v.listener.port))
]

unfoldable pub metadata_from_legacy_string : String → Option String
metadata_from_legacy_string s = if s == "" then none else some s

prefixed : Option String → String → String
prefixed none hostname = hostname
prefixed (some p) hostname = p <> "-" <> hostname

unfoldable pub build_cloud_endpoint : Env → IrVirtualHost → Option CloudEndpoint
unfolding build_public_url prefixed sanitize_string_for_k8s_name metadata_from_legacy_string
build_cloud_endpoint env v = elim (build_public_url v) [
  | none ↦ none
  | some url ↦ some (record {
    name = sanitize_string_for_k8s_name env.sha256_hex (prefixed v.name_prefix v.listener.hostname);
    namespace = v.namespace;
    labels = v.labels_to_add;
    annotations = v.annotations_to_add;
    url = url;
    pooling_enabled = v.endpoint_pooling_enabled;
    metadata = metadata_from_legacy_string v.metadata;
    description = v.description;
    bindings = v.bindings;
    traffic_policy_inline = none;
    traffic_policy_policy = none;
  })
]

-- Whether a virtual host collapses into a service.
unfoldable pub collapses_into : IrVirtualHost → IrService → Bool
collapses_into v s = elim v.collapse_into_service_key [ none ↦ false | some k ↦ key s == k ]

-- The URL of the endpoint for a service: the public one where the virtual host collapses into it.
unfoldable pub endpoint_url : Env → IrVirtualHost → IrService → Option String
unfolding build_public_url build_internal_endpoint_url
endpoint_url env v s =
    if collapses_into v s
    then build_public_url v
    else build_internal_endpoint_url env.sha256_hex v.listener.protocol s.uid s.name s.namespace
        env.cluster_domain s.port s.client_cert_refs

unfoldable pub build_agent_endpoint : Env → IrVirtualHost → IrService → Option AgentEndpoint
unfolding endpoint_url collapses_into key internal_agent_endpoint_name metadata_from_legacy_string
    agent_endpoint_upstream_url
build_agent_endpoint env v s = elim (endpoint_url env v s) [
  | none ↦ none
  | some url ↦ some (record {
    name =
        internal_agent_endpoint_name env.sha256_hex s.uid s.name s.namespace env.cluster_domain
          s.port s.client_cert_refs;
    namespace = s.namespace;
    labels = v.labels_to_add;
    annotations = v.annotations_to_add;
    url = url;
    metadata = metadata_from_legacy_string v.metadata;
    description = v.description;
    upstream_url =
        agent_endpoint_upstream_url s.name s.namespace env.cluster_domain s.port s.scheme;
    upstream_protocol = s.protocol;
    bindings = if collapses_into v s then v.bindings else [];
    client_certificate_refs = map (λ (r : IrObjectRef). r.name) s.client_cert_refs;
    traffic_policy = none;
  })
]
