-- ===== src/Driver/Domains/Laws.antt =====
-- Whose domain is in the set that `calculateDomainSet` of pkg/managerdriver/domains.go makes.
use ngrok_operator.Common.{
  String, Bool, false, not, ◌&&◌, ◌||◌, Option, none, some, List, [], ◌∷◌, ◌==◌, string_eq,
  option_eq, lookup, lookup-insert, is_some, if◌then◌else◌, first_of, contains, ◌≡◌, refl, arith,
  eq_iff,
}
use ngrok_operator.Names.{chars}
use ngrok_operator.Endpoints.Internal.{is_internal_domain}
use ngrok_operator.Driver.Domains.{
  Domain, Domains, Ingress, Gateway, domain_of, add_domain, ingress_domains_from,
  ingress_to_domains, gateway_domains_from, gateway_to_domains, DomainSet, copy_into, add_ingresses,
  add_gateways, no_domains, calculate_domain_set,
}

-- A host that can be reserved.
abbrev pub is_reservable : String → Bool
is_reservable h = not (h == "") && not (is_internal_domain (chars h))

abbrev pub lists_hostname : String → List (Option String) → Bool
lists_hostname h [] = false
lists_hostname h (none ∷ hs) = lists_hostname h hs
lists_hostname h (some x ∷ hs) = x == h || lists_hostname h hs

-- The domain that an ingress or a gateway asks for under a host.
abbrev pub asked_by_ingress : String → String → Ingress → Option Domain
asked_by_ingress metadata h i =
    if is_reservable h && contains i.hosts h then some (domain_of i.namespace metadata h) else none

abbrev pub asked_by_gateway : String → String → Gateway → Option Domain
asked_by_gateway metadata h g =
    if is_reservable h && lists_hostname h g.hostnames
    then some (domain_of g.namespace metadata h)
    else none

abbrev pub last_ingress : String → String → List Ingress → Option Domain
last_ingress metadata h [] = none
last_ingress metadata h (i ∷ is) =
    first_of (last_ingress metadata h is) (asked_by_ingress metadata h i)

abbrev pub first_gateway : String → String → List Gateway → Option Domain
first_gateway metadata h [] = none
first_gateway metadata h (g ∷ gs) =
    first_of (asked_by_gateway metadata h g) (first_gateway metadata h gs)

lookup-copy_into :
    (h : String) (from m : Domains)
    → lookup h (copy_into from m) ≡ first_of (lookup h from) (lookup h m)
unfolding copy_into lookup
lookup-copy_into h [] m = refl
lookup-copy_into h ((k, d) ∷ from) m =
    ground (arith, lookup-insert k h d (copy_into from m), lookup-copy_into h from m)

lookup-add_domain :
    (ns meta h host : String) (existing domains : Domains)
    → lookup h (add_domain ns meta existing host domains) ≡ (
        if host == h && (is_reservable h && not (is_some (lookup h existing)))
        then some (domain_of ns meta h)
        else lookup h domains)
unfolding add_domain
lookup-add_domain ns meta h host existing domains =
    ground (arith, lookup-insert host h (domain_of ns meta host) domains, eq_iff host h)

lookup-ingress_domains_from :
    (ns meta h : String) (existing : Domains) (hosts : List String) (domains : Domains)
    → lookup h (ingress_domains_from ns meta existing hosts domains) ≡ (
        if contains hosts h && (is_reservable h && not (is_some (lookup h existing)))
        then some (domain_of ns meta h)
        else lookup h domains)
unfolding ingress_domains_from
lookup-ingress_domains_from ns meta h existing [] domains = refl
lookup-ingress_domains_from ns meta h existing (x ∷ xs) domains = ground (
  arith,
  lookup-ingress_domains_from ns meta h existing xs (add_domain ns meta existing x domains),
  lookup-add_domain ns meta h x existing domains,
)

lookup-gateway_domains_from :
    (ns meta h : String) (existing : Domains) (hosts : List (Option String)) (domains : Domains)
    → lookup h (gateway_domains_from ns meta existing hosts domains) ≡ (
        if lists_hostname h hosts && (is_reservable h && not (is_some (lookup h existing)))
        then some (domain_of ns meta h)
        else lookup h domains)
unfolding gateway_domains_from
lookup-gateway_domains_from ns meta h existing [] domains = refl
lookup-gateway_domains_from ns meta h existing (none ∷ xs) domains =
    lookup-gateway_domains_from ns meta h existing xs domains
lookup-gateway_domains_from ns meta h existing (some x ∷ xs) domains = ground (
  arith,
  lookup-gateway_domains_from ns meta h existing xs (add_domain ns meta existing x domains),
  lookup-add_domain ns meta h x existing domains,
)

lookup-ingress_to_domains :
    (meta h : String) (i : Ingress)
    → lookup h (ingress_to_domains i meta []) ≡ asked_by_ingress meta h i
unfolding ingress_to_domains lookup
lookup-ingress_to_domains meta h i =
    ground (arith, lookup-ingress_domains_from i.namespace meta h [] i.hosts [])

lookup-gateway_to_domains :
    (meta h : String) (existing : Domains) (g : Gateway)
    → lookup h (gateway_to_domains g meta existing)
      ≡ (if is_some (lookup h existing) then none else asked_by_gateway meta h g)
unfolding gateway_to_domains lookup
lookup-gateway_to_domains meta h existing g =
    ground (arith, lookup-gateway_domains_from g.namespace meta h existing g.hostnames [])

lookup-add_ingresses :
    (meta h : String) (is : List Ingress) (s : DomainSet)
    → lookup h (add_ingresses meta is s).total_domains
      ≡ first_of (last_ingress meta h is) (lookup h s.total_domains)
unfolding add_ingresses
lookup-add_ingresses meta h [] s = refl
lookup-add_ingresses meta h (i ∷ is) s =
    let found = ingress_to_domains i meta [] in
    ground (
      arith,
      lookup-add_ingresses meta h is (record s {
        endpoint_ingress_domains = copy_into found s.endpoint_ingress_domains;
        total_domains = copy_into found s.total_domains;
      }),
      lookup-copy_into h found s.total_domains,
      lookup-ingress_to_domains meta h i,
    )

lookup-add_gateways :
    (meta h : String) (gs : List Gateway) (s : DomainSet)
    → lookup h (add_gateways meta gs s).total_domains
      ≡ first_of (lookup h s.total_domains) (first_gateway meta h gs)
unfolding add_gateways
lookup-add_gateways meta h [] s = ground arith
lookup-add_gateways meta h (g ∷ gs) s =
    let found = gateway_to_domains g meta s.total_domains in
    ground (
      arith,
      lookup-add_gateways meta h gs (record s {
        endpoint_gateway_domains = copy_into found s.endpoint_gateway_domains;
        total_domains = copy_into found s.total_domains;
      }),
      lookup-copy_into h found s.total_domains,
      lookup-gateway_to_domains meta h s.total_domains g,
    )

-- The domain of a host in the set of all domains is that of the last ingress that has a rule for the
-- host; where no ingress has, it is that of the first gateway with a listener for it; and there is
-- none where no gateway has either. An empty host and an internal domain have none.
pub lookup-calculate_domain_set :
    (ingress_metadata gateway_metadata h : String) (ingresses : List Ingress)
    (gateways : List Gateway)
    → lookup h
        (calculate_domain_set ingress_metadata gateway_metadata ingresses gateways).total_domains
      ≡ first_of
          (last_ingress ingress_metadata h ingresses)
          (first_gateway gateway_metadata h gateways)
unfolding calculate_domain_set lookup
lookup-calculate_domain_set im gm h ingresses gateways = ground (
  arith,
  lookup-add_gateways gm h gateways (add_ingresses im ingresses no_domains),
  lookup-add_ingresses im h ingresses no_domains,
)
