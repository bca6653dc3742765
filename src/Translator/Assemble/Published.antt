-- ===== src/Translator/Assemble/Published.antt =====
-- What `IRToEndpoints` publishes for a virtual host that does not collapse.
use mathlib.Core.List.{append_assoc}
use ngrok_operator.Common.{
  String, true, false, not, ◌&&◌, ◌||◌, Option, none, some, List, [], ◌∷◌, ◌++◌, string_eq, lookup,
  lookup-insert, is_some, ◌≡◌, refl, arith, ==_refl,
}
use ngrok_operator.Policy.{Rule, TrafficPolicy, merge, add_rule_on_http_request}
use ngrok_operator.Policy.Laws.{merge-some}
use ngrok_operator.Ir.{IrVirtualHost, IrTlsTermination}
use ngrok_operator.Names.{is_http}
use ngrok_operator.Translator.Endpoints.{Env, CloudEndpoint, build_cloud_endpoint}
use ngrok_operator.Translator.Rules.{build_default_404_tp_rule, tls_rule}
use ngrok_operator.Translator.Routing.{Cache, has_some, build_routing_policy}
use ngrok_operator.Translator.Assemble.{
  namespaced_name_eq, Clouds, cloud_key, or_new, terminate, unless_matched, add_fallback, add_cloud,
  publish, publish_to, finish_host, translate_host, build_default_destination_policy,
}

-- The rules of a TLS termination.
abbrev pub tls_rules : Option IrTlsTermination → List Rule
tls_rules none = []
tls_rules (some t) = tls_rule t ∷ []

-- A published policy, phase by phase.
pub record IsAssembled (v : IrVirtualHost) (routing default tp : TrafficPolicy) : Type 0 where
  pub requests :
      tp.on_http_request
      ≡ (or_new v.traffic_policy).on_http_request
        ++ (routing.on_http_request
            ++ (default.on_http_request ++ (build_default_404_tp_rule ∷ [])))
  pub responses :
      tp.on_http_response
      ≡ (or_new v.traffic_policy).on_http_response
        ++ (routing.on_http_response ++ default.on_http_response)
  pub connects :
      tp.on_tcp_connect
      ≡ tls_rules v.tls_termination
        ++ ((or_new v.traffic_policy).on_tcp_connect
            ++ (routing.on_tcp_connect ++ default.on_tcp_connect))

-- The policy that is built for a virtual host.
abbrev assembled : IrVirtualHost → TrafficPolicy → TrafficPolicy → TrafficPolicy
assembled v routing default = add_fallback v (
    merge (merge (terminate v.tls_termination (or_new v.traffic_policy)) (some routing))
      (some default))

terminate-phases :
    (t : Option IrTlsTermination) (tp : TrafficPolicy)
    → terminate t tp ≡ record tp { on_tcp_connect = tls_rules t ++ tp.on_tcp_connect }
unfolding terminate
terminate-phases none tp = refl
terminate-phases (some t) tp = refl

assembled-IsAssembled :
    (v : IrVirtualHost) (routing default : TrafficPolicy)
    → is_http v.listener.protocol ≡ true
    → v.collapse_into_service_key ≡ none
    → IsAssembled v routing default (assembled v routing default)
unfolding add_fallback unless_matched add_rule_on_http_request
assembled-IsAssembled v routing default h n =
    rw (merge-some, merge-some, terminate-phases, h)
      (record {
        requests = simp (n, append_assoc);
        responses = simp append_assoc;
        connects = simp append_assoc;
      })

-- The cloud endpoint with a policy, which is written under both names.
abbrev pub published : CloudEndpoint → TrafficPolicy → CloudEndpoint
published c tp = record c { traffic_policy_inline = some tp; traffic_policy_policy = some tp }

add_cloud-lookup :
    (c : CloudEndpoint) (tp : TrafficPolicy) (clouds : Clouds)
    → lookup (cloud_key c) (add_cloud (some c) tp clouds) ≡ some (published c tp)
unfolding add_cloud
add_cloud-lookup c tp clouds =
    simp (lookup-insert (cloud_key c) (cloud_key c) (published c tp) clouds, ==_refl (cloud_key c))

publish_to-lookup :
    (env : Env) (v : IrVirtualHost) (c : CloudEndpoint) (tp : TrafficPolicy) (o : Option String)
    (s : Cache × Clouds)
    → o ≡ none
    → build_cloud_endpoint env v ≡ some c
    → lookup (cloud_key c) (publish_to env v tp o s).1 ≡ some (published c tp)
unfolding publish_to
publish_to-lookup env v c tp none (cache, clouds) n b = rw b (add_cloud-lookup c tp clouds)
publish_to-lookup env v c tp (some k) s n b = cc

-- A virtual host that speaks HTTP or HTTPS, has a policy or a route and does not collapse: if its
-- URL and the endpoint of its default destination can be built, its cloud endpoint is published
-- under its name. Its policy, the same as `inline` and as `policy`, has in each phase the rules of
-- the user's policy, then those of the routes, then those of the default destination; before them
-- the TLS termination, in the phase of TCP connections, and after them the answer 404, in the phase
-- of requests.
pub translate_host_publishes :
    (env : Env) (v : IrVirtualHost) (cache cache' : Cache) (clouds : Clouds) (c : CloudEndpoint)
    (default : TrafficPolicy)
    → is_http v.listener.protocol ≡ true
    → v.collapse_into_service_key ≡ none
    → (is_some v.traffic_policy || has_some v.routes) ≡ true
    → build_default_destination_policy env v (build_routing_policy env v cache).1
      ≡ some (default, cache')
    → build_cloud_endpoint env v ≡ some c
    → (tp : TrafficPolicy) × (lookup (cloud_key c) (translate_host env v (cache, clouds)).1
        ≡ some (published c tp))
      × IsAssembled v (build_routing_policy env v cache).0 default tp
unfolding translate_host finish_host publish
translate_host_publishes env v cache cache' clouds c default h n some_work d b =
    let tp = assembled v (build_routing_policy env v cache).0 default in
    let works : (not (is_some v.traffic_policy) && not (has_some v.routes)) ≡ false =
      ground arith in
    (
      tp,
      rw (works, d) (publish_to-lookup env v c tp v.collapse_into_service_key (cache', clouds) n b),
      assembled-IsAssembled v (build_routing_policy env v cache).0 default h n,
    )
