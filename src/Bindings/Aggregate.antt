-- ===== src/Bindings/Aggregate.antt =====
-- internal/ngrokapi/bindingendpoint_aggregator.go: the endpoints of the API, grouped into the bound
-- endpoints that are desired. `url.Parse` is a parameter, and so is `strconv.Atoi` with the conversion
-- to an int32, for numbers that fit one. An error of one endpoint is its ID.
pub mod Groups
use ngrok_operator.Common.{
  ℕ, String, ◌<>◌, Bool, true, false, not, ◌&&◌, Option, none, some, List, [], ◌∷◌, ◌++◌, ◌==◌,
  string_eq, decimal, lookup, insert, if◌then◌else◌,
}
use ngrok_operator.Bindings.{Ref, BoundEndpoint, Desired}

-- What the code reads of an endpoint of the API.
pub record ApiEndpoint : Type 0 where
  pub id : String
  pub uri : String
  pub proto : String
  pub public_url : String

-- What a parsed URL answers: its scheme, its host name split at the dots, and the text of its port.
pub record ParsedUrl : Type 0 where
  pub scheme : String
  pub parts : List String
  pub port : String

pub record ParsedHostport : Type 0 where
  pub scheme : String
  pub service_name : String
  pub namespace : String
  pub port : ℕ

unfoldable pub endpoint_url_of : ParsedHostport → String
endpoint_url_of p =
    p.scheme <> "://" <> p.service_name <> "." <> p.namespace <> ":" <> decimal p.port

-- The port that belongs to a scheme, 0 where there is none.
abbrev default_port : String → ℕ
default_port scheme =
    if scheme == "http"
    then 80
    else if scheme == "https"
    then 443
    else if scheme == "tls"
    then 443
    else 0

module _ (parse : String → Option ParsedUrl) (port_of : String → Option ℕ) where
  pub with_port : ParsedUrl → String → String → Option ParsedHostport
  with_port u service namespace =
      if u.port == ""
      then some (record {
        scheme = u.scheme;
        service_name = service;
        namespace = namespace;
        port = default_port u.scheme;
      })
      else elim (port_of u.port) [
        | none ↦ none
        | some port ↦ some (record {
          scheme = u.scheme;
          service_name = service;
          namespace = namespace;
          port = port;
        })
      ]

  -- The host is `<service>.<namespace>`; TCP has no default port.
  pub parse_parts : ParsedUrl → List String → Option ParsedHostport
  parse_parts u (service ∷ (namespace ∷ [])) =
      if u.scheme == "tcp" && u.port == "" then none else with_port u service namespace
  parse_parts u _ = none

  pub parse_again : Option ParsedUrl → Option ParsedHostport
  parse_again none = none
  parse_again (some u) = parse_parts u u.parts

  pub parse_scheme : String → String → Option ParsedUrl → Option ParsedHostport
  parse_scheme proto url none = none
  parse_scheme proto url (some u) =
      if u.scheme == ""
      then parse_again (parse ((if proto == "" then "https" else proto) <> "://" <> url))
      else if not (proto == "") && not (u.scheme == proto)
      then none
      else parse_parts u u.parts

  unfoldable pub parse_hostport : String → String → Option ParsedHostport
  parse_hostport proto url = if url == "" then none else parse_scheme proto url (parse url)

  -- The bound endpoint of a URL so far, or a new one.
  pub group_of : ParsedHostport → Option BoundEndpoint → BoundEndpoint
  group_of p (some b) = b
  group_of p none = record {
    name = "";
    spec = record {
      endpoint_url = endpoint_url_of p;
      scheme = p.scheme;
      port = 0;
      target = record {
        service = p.service_name;
        namespace = p.namespace;
        protocol = "TCP";
        port = p.port;
        metadata = record { labels = []; annotations = [] };
      };
    };
    status = record {
      observed_generation = 0;
      conditions = [];
      target_service_ref = none;
      upstream_service_ref = none;
      endpoints = [];
      hashed_name = "";
      endpoints_summary = "";
    };
  }

  abbrev pub ref_of : ApiEndpoint → Ref
  ref_of e = record { id = e.id; uri = e.uri }

  abbrev pub with_ref : ApiEndpoint → BoundEndpoint → BoundEndpoint
  with_ref e b = record b {
    status = record b.status { endpoints = b.status.endpoints ++ (ref_of e ∷ []) };
  }

  pub add_endpoint :
      ApiEndpoint → Option ParsedHostport → Desired × List String → Desired × List String
  add_endpoint e none (m, errors) = (m, errors ++ (e.id ∷ []))
  add_endpoint e (some p) (m, errors) = (
    insert (endpoint_url_of p) (with_ref e (group_of p (lookup (endpoint_url_of p) m))) m,
    errors,
  )

  pub aggregate_from : List ApiEndpoint → Desired × List String → Desired × List String
  aggregate_from [] s = s
  aggregate_from (e ∷ es) s =
      aggregate_from es (add_endpoint e (parse_hostport e.proto e.public_url) s)

  unfoldable pub aggregate_binding_endpoints : List ApiEndpoint → Desired × List String
  aggregate_binding_endpoints es = aggregate_from es ([], [])
