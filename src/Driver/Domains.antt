-- ===== src/Driver/Domains.antt =====
-- pkg/managerdriver/domains.go: the domains that ingresses and gateways ask for, and
-- `HyphenatedDomainNameFromURL` of api/ingress/v1alpha1/domain_types.go. `CreateOrPatch` of
-- controller-runtime is a parameter.
pub mod Laws
use Prim.Native.Char.{Char, code}
use ngrok_operator.Common.{
  String, Bool, true, false, not, ◌&&◌, Option, none, some, List, [], ◌∷◌, ◌++◌, ◌==◌, nat_eq,
  string_eq, lookup, insert, is_some, if◌then◌else◌, first_of, ◌≡◌, refl,
}
use ngrok_operator.Names.{chars, text}
use ngrok_operator.Endpoints.Internal.{is_internal_domain}
use ngrok_operator.Translator.Endpoints.{metadata_from_legacy_string}
use ngrok_operator.Labels.{LabelMap, ControllerLabelValues, ensure_controller_labels}

replaced : List Char → List Char
replaced [] = []
replaced (c ∷ cs) =
    let rest = replaced cs in
    if code c == b'.'
    then chars "-" ++ rest
    else if code c == b'*'
    then chars "wildcard" ++ rest
    else c ∷ rest

unfoldable pub hyphenated_domain_name_from_url : String → String
unfolding replaced text
hyphenated_domain_name_from_url s = text (replaced (chars s))

hyphenated_test : hyphenated_domain_name_from_url "*.shop.example" ≡ "wildcard-shop-example"
unfolding hyphenated_domain_name_from_url
hyphenated_test = refl

pub record Domain : Type 0 where
  pub name : String
  pub namespace : String
  pub domain : String
  pub metadata : Option String

-- What is read of an ingress, the hosts of its rules, and of a gateway, the hostnames of its
-- listeners.
pub record Ingress : Type 0 where
  pub namespace : String
  pub hosts : List String

pub record Gateway : Type 0 where
  pub namespace : String
  pub hostnames : List (Option String)

abbrev pub Domains : Type 0
Domains = List (String × Domain)

unfoldable pub domain_of : String → String → String → Domain
unfolding hyphenated_domain_name_from_url metadata_from_legacy_string
domain_of namespace metadata host = record {
  name = hyphenated_domain_name_from_url host;
  namespace = namespace;
  domain = host;
  metadata = metadata_from_legacy_string metadata;
}

-- One round of either loop: an empty name, an internal one and one that exists are passed over.
unfoldable pub add_domain : String → String → Domains → String → Domains → Domains
add_domain namespace metadata existing host domains =
    if host == ""
    then domains
    else if is_internal_domain (chars host)
    then domains
    else if is_some (lookup host existing)
    then domains
    else insert host (domain_of namespace metadata host) domains

unfoldable pub ingress_domains_from : String → String → Domains → List String → Domains → Domains
ingress_domains_from namespace metadata existing [] domains = domains
ingress_domains_from namespace metadata existing (h ∷ hs) domains =
    ingress_domains_from namespace metadata existing hs
      (add_domain namespace metadata existing h domains)

unfoldable pub ingress_to_domains : Ingress → String → Domains → Domains
unfolding ingress_domains_from add_domain
ingress_to_domains i metadata existing =
    ingress_domains_from i.namespace metadata existing i.hosts []

unfoldable pub gateway_domains_from :
    String → String → Domains → List (Option String) → Domains → Domains
gateway_domains_from namespace metadata existing [] domains = domains
gateway_domains_from namespace metadata existing (none ∷ hs) domains =
    gateway_domains_from namespace metadata existing hs domains
gateway_domains_from namespace metadata existing (some h ∷ hs) domains =
    gateway_domains_from namespace metadata existing hs
      (add_domain namespace metadata existing h domains)

unfoldable pub gateway_to_domains : Gateway → String → Domains → Domains
unfolding gateway_domains_from add_domain
gateway_to_domains g metadata existing =
    gateway_domains_from g.namespace metadata existing g.hostnames []

pub record DomainSet : Type 0 where
  pub endpoint_ingress_domains : Domains
  pub endpoint_gateway_domains : Domains
  pub total_domains : Domains

-- The loop over a map that sets its entries in another; its order makes no difference.
unfoldable pub copy_into : Domains → Domains → Domains
copy_into [] m = m
copy_into ((k, d) ∷ from) m = insert k d (copy_into from m)

unfoldable pub add_ingresses : String → List Ingress → DomainSet → DomainSet
unfolding copy_into
add_ingresses metadata [] s = s
add_ingresses metadata (i ∷ is) s =
    let found = ingress_to_domains i metadata [] in
    add_ingresses metadata is (record s {
      endpoint_ingress_domains = copy_into found s.endpoint_ingress_domains;
      total_domains = copy_into found s.total_domains;
    })

unfoldable pub add_gateways : String → List Gateway → DomainSet → DomainSet
unfolding copy_into
add_gateways metadata [] s = s
add_gateways metadata (g ∷ gs) s =
    let found = gateway_to_domains g metadata s.total_domains in
    add_gateways metadata gs (record s {
      endpoint_gateway_domains = copy_into found s.endpoint_gateway_domains;
      total_domains = copy_into found s.total_domains;
    })

abbrev pub no_domains : DomainSet
no_domains = record {
  endpoint_ingress_domains = [];
  endpoint_gateway_domains = [];
  total_domains = [];
}

-- `calculateDomainSet`, from the metadata and the resources of the store.
unfoldable pub calculate_domain_set : String → String → List Ingress → List Gateway → DomainSet
calculate_domain_set ingress_metadata gateway_metadata ingresses gateways =
    add_gateways gateway_metadata gateways (add_ingresses ingress_metadata ingresses no_domains)

-- What `applyDomains` reads and sets of a domain object; `created` says that it has a creation
-- timestamp.
pub record DomainObject : Type 0 where
  pub created : Bool
  pub spec_domain : String
  pub reclaim_policy : Option String
  pub labels : Option LabelMap

-- The function that `CreateOrPatch` is given.
unfoldable pub mutate_domain :
    ControllerLabelValues → Option String → Domain → DomainObject → DomainObject
mutate_domain v default_policy d o = record o {
  spec_domain = d.domain;
  reclaim_policy =
      if not o.created && is_some default_policy then default_policy else o.reclaim_policy;
  labels = (ensure_controller_labels v o.labels).1;
}

-- Every domain is applied, whatever becomes of the others, and the first error is returned.
unfoldable pub apply_domains :
    {W : Type 0}
    → (W → String → String → (DomainObject → DomainObject) → Option String × W)
    → ControllerLabelValues
    → Option String
    → Domains
    → W
    → Option String × W
apply_domains create_or_patch v default_policy [] w = (none, w)
apply_domains create_or_patch v default_policy ((k, d) ∷ ds) w =
    let (failed, w') = create_or_patch w d.namespace d.name (mutate_domain v default_policy d) in
    let (later, w'') = apply_domains create_or_patch v default_policy ds w' in
    (first_of failed later, w'')
