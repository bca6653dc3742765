-- ===== src/Examples/Clouds.antt =====
-- What is published for a virtual host that does not collapse.
use ngrok_operator.Common.{some, none, [], ◌≡◌, refl, lookup, string_eq}
use ngrok_operator.Policy.{TrafficPolicy, new_traffic_policy}
use ngrok_operator.Translator.Endpoints.{CloudEndpoint, build_cloud_endpoint, build_public_url}
use ngrok_operator.Translator.Routing.{build_routing_policy}
use ngrok_operator.Translator.Assemble.{
  translate_host, cloud_key, build_default_destination_policy, default_destination_policy,
  namespaced_name_eq,
}
use ngrok_operator.Translator.Assemble.Published.{IsAssembled, published, translate_host_publishes}
use ngrok_operator.Examples.Data.{env, blog}

abbrev blog_endpoint : CloudEndpoint
blog_endpoint = record {
  name = "blog.test";
  namespace = "shop";
  labels = [];
  annotations = [];
  url = "https://blog.test";
  pooling_enabled = none;
  metadata = none;
  description = "";
  bindings = [];
  traffic_policy_inline = none;
  traffic_policy_policy = none;
}

-- The URL leaves out the port that belongs to the scheme.
build_cloud_endpoint_test : build_cloud_endpoint env blog ≡ some blog_endpoint
unfolding build_cloud_endpoint build_public_url
build_cloud_endpoint_test = refl

translate_host_publishes_example :
    (tp : TrafficPolicy) × (lookup (cloud_key blog_endpoint) (translate_host env blog ([], [])).1
      ≡ some (published blog_endpoint tp))
    × IsAssembled blog (build_routing_policy env blog []).0 new_traffic_policy tp
unfolding build_default_destination_policy default_destination_policy
translate_host_publishes_example =
    translate_host_publishes env blog [] (build_routing_policy env blog []).1 [] blog_endpoint
      new_traffic_policy refl refl refl refl build_cloud_endpoint_test
