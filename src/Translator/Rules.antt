-- ===== src/Translator/Rules.antt =====
-- The rules that pkg/managerdriver/translator.go generates.
use ngrok_operator.Common.{String, Bool, Option, none, some, List, [], ◌∷◌, insert, string_eq}
use ngrok_operator.Policy.{
  Value, Values, Fields, Rule, Action, text, num, flag, arr, obj, nil, cons, end, field, single,
  only, forward_internal, set_vars, custom_response, terminate_tls,
}
use ngrok_operator.Ir.{IrTlsTermination}

-- A rule with one action and no expression.
abbrev plain_rule : String → Action → Rule
plain_rule name action = record { name = text name; expressions = []; actions = action ∷ [] }

unfoldable pub build_endpoint_service_route_rule : String → String → Rule
build_endpoint_service_route_rule name url =
    plain_rule name (record { type = forward_internal; config = obj (single "url" (text url)) })

unfoldable pub build_route_locally_var_rule : String → Bool → Rule
build_route_locally_var_rule name value = plain_rule name (record {
  type = set_vars;
  config = obj (single "vars" (arr (only (obj (single "request_matched_local_svc" (flag value))))));
})

unfoldable pub build_default_404_tp_rule : Rule
build_default_404_tp_rule = plain_rule "Fallback-404" (record {
  type = custom_response;
  config = obj (
      field "status_code" (num 404) (
        field "content" (text "No route was found for this ngrok Endpoint")
          (single "headers" (obj (single "content-type" (text "text/plain"))))));
})

unfoldable pub capture_rule : Rule
capture_rule = plain_rule "Capture-Original-Request-Data" (record {
  type = set_vars;
  config = obj (
      single "vars" (
        arr (
          cons (obj (single "original_path" (text "${req.url.path}"))) (
            cons (obj (single "original_headers" (text "${req.headers.encodeJson()}"))) (
              only (
                obj (
                  single "original_query_params"
                    (text "${req.url.query_params.encodeJson()}"))))))));
})

-- The rule that draws the random number of a weighted route.
unfoldable pub random_number_rule : String → List String → Rule
random_number_rule number expressions = record {
  name = text "Gen-Random-Number";
  expressions = expressions;
  actions =
      record {
        type = set_vars;
        config =
            obj
              (single "vars" (arr (only (obj (single "weighted_route_random_num" (text number))))));
      }
      ∷ [];
}

texts : List String → Values
texts [] = nil
texts (s ∷ ss) = cons (text s) (texts ss)

add_optional : String → Option String → List (String × Value) → List (String × Value)
add_optional k none m = m
add_optional k (some s) m = insert k (text s) m

add_authorities : List String → List (String × Value) → List (String × Value)
add_authorities [] m = m
add_authorities (c ∷ cs) m = insert "mutual_tls_certificate_authorities" (arr (texts (c ∷ cs))) m

-- The options that the user gives overwrite those of the same name.
add_options : List (String × String) → List (String × Value) → List (String × Value)
add_options [] m = m
add_options ((k, v) ∷ options) m = add_options options (insert k (text v) m)

fields : List (String × Value) → Fields
fields [] = end
fields ((k, v) ∷ m) = field k v (fields m)

tls_config : IrTlsTermination → List (String × Value)
unfolding texts add_optional add_authorities add_options insert
tls_config t = add_options t.extended_options (
    add_optional "server_private_key" t.server_private_key (
      add_optional "server_certificate" t.server_certificate
        (add_authorities t.mutual_tls_certificate_authorities [])))

unfoldable pub tls_rule : IrTlsTermination → Rule
unfolding tls_config fields
tls_rule t =
    plain_rule "Gateway-TLS-Termination"
      (record { type = terminate_tls; config = obj (fields (tls_config t)) })
