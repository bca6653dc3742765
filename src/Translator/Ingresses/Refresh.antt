-- ===== src/Translator/Ingresses/Refresh.antt =====
-- Destinations of pkg/managerdriver/translate_ingresses.go point to the upstreams of the cache: here
-- they hold an upstream as it was, and get the one of the cache at the end.
use ngrok_operator.Common.{
  Option, none, some, List, [], ◌∷◌, string_eq, lookup, map, first_of, option_eq,
}
use ngrok_operator.Ir.{IrUpstream, IrDestination, IrRoute, IrVirtualHost}
use ngrok_operator.Ir.Service.{key, owning_resource_eq}
use ngrok_operator.Translator.Ingresses.Backends.{Upstreams}
use ngrok_operator.Translator.Ingresses.Resources.{HostCache}

-- The upstream that a pointer to the one of a key reads at the end.
current : Upstreams → Option IrUpstream → Option IrUpstream
unfolding key lookup
current cache none = none
current cache (some u) = first_of (lookup (key u.service) cache) (some u)

refresh_destination : Upstreams → IrDestination → IrDestination
unfolding current
refresh_destination cache d = record d { upstream = current cache d.upstream }

refresh_route : Upstreams → IrRoute → IrRoute
unfolding refresh_destination
refresh_route cache r = record r { destinations = map (refresh_destination cache) r.destinations }

refresh_default : Upstreams → Option IrDestination → Option IrDestination
unfolding refresh_destination
refresh_default cache none = none
refresh_default cache (some d) = some (refresh_destination cache d)

unfoldable pub refresh_host : Upstreams → IrVirtualHost → IrVirtualHost
unfolding refresh_route refresh_default
refresh_host cache v = record v {
  routes = map (refresh_route cache) v.routes;
  default_destination = refresh_default cache v.default_destination;
}

unfoldable pub refresh_hosts : Upstreams → HostCache → List IrVirtualHost
unfolding refresh_host
refresh_hosts cache [] = []
refresh_hosts cache ((h, v) ∷ hosts) = refresh_host cache v ∷ refresh_hosts cache hosts
