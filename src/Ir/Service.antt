-- ===== src/Ir/Service.antt =====
-- Services of the intermediate representation: their keys, how many of them a virtual host routes
-- to, and the resources that a virtual host was made from.
pub mod Laws
use ngrok_operator.Common.{
  ℕ, String, ◌<>◌, Bool, true, false, ◌&&◌, Option, none, some, List, [], ◌∷◌, ◌++◌, ◌==◌,
  string_eq, decimal, lookup, insert, length, contains, Eq, ◌≡◌, ◌↔◌, arith, eq_iff, refl,
  if◌then◌else◌, All, Bool-cases, inl, inr,
}
use ngrok_operator.Ir.{
  OwningResource, IrObjectRef, IrService, IrDestination, IrRoute, IrVirtualHost, IrUpstream,
}

-- The loop of `Key` over the certificates.
cert_keys : List IrObjectRef → String
cert_keys [] = ""
cert_keys (ref ∷ refs) = "/" <> ref.name <> "." <> ref.namespace <> cert_keys refs

protocol_key : Option String → String
protocol_key none = ""
protocol_key (some p) = "/" <> p

unfoldable pub key : IrService → String
unfolding cert_keys protocol_key decimal
key s =
    s.uid
    <> "/"
    <> s.namespace
    <> "/"
    <> s.name
    <> "/"
    <> decimal s.port
    <> protocol_key s.protocol
    <> cert_keys s.client_cert_refs

-- The keys of the services behind some destinations, with repetitions, in order.
unfoldable pub destination_keys : List IrDestination → List String
destination_keys [] = []
destination_keys (d ∷ ds) = elim d.upstream [
  | none ↦ destination_keys ds
  | some u ↦ key u.service ∷ destination_keys ds
]

unfoldable pub route_keys : List IrRoute → List String
unfolding destination_keys
route_keys [] = []
route_keys (r ∷ rs) = destination_keys r.destinations ++ route_keys rs

unfoldable pub default_keys : Option IrDestination → List String
unfolding destination_keys
default_keys none = []
default_keys (some d) = destination_keys (d ∷ [])

-- The set of keys that `UniqueServiceCount` collects, in the order of their first use.
pub add_key : String → List (String × Bool) → List (String × Bool)
add_key k m = insert k true m

pub add_keys : List String → List (String × Bool) → List (String × Bool)
add_keys [] m = m
add_keys (k ∷ ks) m = add_keys ks (add_key k m)

unfoldable pub unique_service_count : IrVirtualHost → ℕ
unfolding add_key add_keys route_keys default_keys
unique_service_count v =
    length (add_keys (route_keys v.routes ++ default_keys v.default_destination) [])

unfoldable pub owning_resource_beq : OwningResource → OwningResource → Bool
owning_resource_beq a b = a.kind == b.kind && (a.name == b.name && a.namespace == b.namespace)

pub owning_resource_beq_iff : (a b : OwningResource) → (owning_resource_beq a b ≡ true) ↔ (a ≡ b)
unfolding owning_resource_beq
owning_resource_beq_iff a b =
    ground (arith, eq_iff a.kind b.kind, eq_iff a.name b.name, eq_iff a.namespace b.namespace)

instance abbrev pub owning_resource_eq : Eq OwningResource
owning_resource_eq = record { equal = owning_resource_beq; equal_iff = owning_resource_beq_iff }

-- `AddOwningResource` of a virtual host and of an upstream.
unfoldable pub add_owning : List OwningResource → OwningResource → List OwningResource
add_owning owners new = if contains owners new then owners else owners ++ (new ∷ [])

unfoldable pub add_owning_resource : IrVirtualHost → OwningResource → IrVirtualHost
unfolding add_owning
add_owning_resource v new = record v { owning_resources = add_owning v.owning_resources new }

unfoldable pub upstream_add_owning_resource : IrUpstream → OwningResource → IrUpstream
unfolding add_owning
upstream_add_owning_resource u new = record u {
  owning_resources = add_owning u.owning_resources new;
}
