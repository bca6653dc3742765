-- ===== src/Examples/Domains.antt =====
-- Two ingresses and a gateway that ask for one host.
use ngrok_operator.Common.{none, some, List, [], ◌∷◌, lookup, string_eq, first_of, ◌≡◌}
use ngrok_operator.Driver.Domains.{Ingress, Gateway, calculate_domain_set}
use ngrok_operator.Driver.Domains.Laws.{last_ingress, first_gateway, lookup-calculate_domain_set}

abbrev ingresses : List Ingress
ingresses =
    (record { namespace = "a"; hosts = "shop.example" ∷ [] })
    ∷ (record { namespace = "b"; hosts = "" ∷ "shop.example" ∷ [] })
    ∷ []

abbrev gateways : List Gateway
gateways = (record { namespace = "c"; hostnames = none ∷ some "shop.example" ∷ [] }) ∷ []

lookup-calculate_domain_set_example :
    lookup "shop.example" (calculate_domain_set "i" "g" ingresses gateways).total_domains
    ≡ first_of
        (last_ingress "i" "shop.example" ingresses)
        (first_gateway "g" "shop.example" gateways)
lookup-calculate_domain_set_example =
    lookup-calculate_domain_set "i" "g" "shop.example" ingresses gateways
