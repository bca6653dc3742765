-- ===== src/Examples/Groups.antt =====
-- Two endpoints of the API with one URL, and one that cannot be parsed.
use ngrok_operator.Common.{
  ℕ, String, Option, none, some, List, [], ◌∷◌, map, keep, lookup, ◌==◌, string_eq, if◌then◌else◌,
  ◌≡◌,
}
use ngrok_operator.Bindings.Aggregate.{ApiEndpoint, ParsedUrl, ref_of, aggregate_binding_endpoints}
use ngrok_operator.Bindings.Aggregate.Groups.{
  refs_in, goes_to, refs_in-aggregate_binding_endpoints, IsGrouped,
  aggregate_binding_endpoints-IsGrouped,
}

abbrev parse : String → Option ParsedUrl
parse url =
    if url == "https://cart.shop"
    then some (record { scheme = "https"; parts = "cart" ∷ ("shop" ∷ []); port = "" })
    else if url == "nowhere"
    then some (record { scheme = ""; parts = "nowhere" ∷ []; port = "" })
    else none

abbrev port_of : String → Option ℕ
port_of s = none

abbrev api_endpoint : String → String → ApiEndpoint
api_endpoint id url = record { id = id; uri = ""; proto = ""; public_url = url }

abbrev api_endpoints : List ApiEndpoint
api_endpoints =
    api_endpoint "ep_1" "https://cart.shop"
    ∷ (api_endpoint "ep_2" "nowhere" ∷ (api_endpoint "ep_3" "https://cart.shop" ∷ []))

refs_in-aggregate_binding_endpoints_example :
    refs_in
      (lookup "https://cart.shop:443" (aggregate_binding_endpoints parse port_of api_endpoints).0)
    ≡ map
        (ref_of parse port_of)
        (keep (goes_to parse port_of "https://cart.shop:443") api_endpoints)
refs_in-aggregate_binding_endpoints_example =
    refs_in-aggregate_binding_endpoints parse port_of "https://cart.shop:443" api_endpoints

aggregate_binding_endpoints-IsGrouped_example :
    IsGrouped parse port_of (aggregate_binding_endpoints parse port_of api_endpoints).0
aggregate_binding_endpoints-IsGrouped_example =
    aggregate_binding_endpoints-IsGrouped parse port_of api_endpoints
