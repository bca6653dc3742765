-- ===== src/Policy.antt =====
-- internal/trafficpolicy/policy.go: traffic policies, their phases, rules and actions. A policy is
-- a value here: a method on a pointer returns the new policy. A field of Go type `any` holds a
-- value of `Value`.
pub mod Laws
use ngrok_operator.Common.{
  ℕ, String, Bool, true, false, Option, none, some, List, [], ◌∷◌, ◌++◌, ◌&&◌, ◌||◌, ◌==◌,
  string_eq, if◌then◌else◌, any, ◌≡◌,
}

mutual
  pub data Value : Type 0 where
    null : Value
    text : String → Value
    num : ℕ → Value
    flag : Bool → Value
    arr : Values → Value
    obj : Fields → Value

  pub data Values : Type 0 where
    nil : Values
    cons : Value → Values → Values

  pub data Fields : Type 0 where
    end : Fields
    field : String → Value → Fields → Fields

-- One element of an array; one field of an object.
pattern abbrev pub only : Value → Values
only v = cons v nil

pattern abbrev pub single : String → Value → Fields
single k v = field k v end

pub data ActionType : Type 0 where
  add_headers basic_auth circuit_breaker compress_response custom_response deny : ActionType
  forward_internal jwt_validation log set_vars oauth openid_connect rate_limit : ActionType
  redirect remove_headers restrict_ips terminate_tls url_rewrite verify_webhook : ActionType
  other_action : String → ActionType

-- The text that an action type stands for.
unfoldable pub action_name : ActionType → String
action_name add_headers = "add-headers"
action_name basic_auth = "basic-auth"
action_name circuit_breaker = "circuit-breaker"
action_name compress_response = "compress-response"
action_name custom_response = "custom-response"
action_name deny = "deny"
action_name forward_internal = "forward-internal"
action_name jwt_validation = "jwt-validation"
action_name log = "log"
action_name set_vars = "set-vars"
action_name oauth = "oauth"
action_name openid_connect = "openid-connect"
action_name rate_limit = "rate-limit"
action_name redirect = "redirect"
action_name remove_headers = "remove-headers"
action_name restrict_ips = "restrict-ips"
action_name terminate_tls = "terminate-tls"
action_name url_rewrite = "url-rewrite"
action_name verify_webhook = "verify-webhook"
action_name (other_action s) = s

pub record Action : Type 0 where
  pub type : ActionType
  pub config : Value

pub record Rule : Type 0 where
  pub name : Value
  pub expressions : List String
  pub actions : List Action

pub record TrafficPolicy : Type 0 where
  pub on_http_request : List Rule
  pub on_http_response : List Rule
  pub on_tcp_connect : List Rule

abbrev pub new_traffic_policy : TrafficPolicy
new_traffic_policy = record { on_http_request = []; on_http_response = []; on_tcp_connect = [] }

unfoldable pub add_rule_on_http_request : TrafficPolicy → Rule → TrafficPolicy
add_rule_on_http_request tp rule = record tp { on_http_request = tp.on_http_request ++ (rule ∷ []) }

unfoldable pub add_rule_on_http_response : TrafficPolicy → Rule → TrafficPolicy
add_rule_on_http_response tp rule = record tp {
  on_http_response = tp.on_http_response ++ (rule ∷ []);
}

unfoldable pub add_rule_on_tcp_connect : TrafficPolicy → Rule → TrafficPolicy
add_rule_on_tcp_connect tp rule = record tp { on_tcp_connect = tp.on_tcp_connect ++ (rule ∷ []) }

-- One of the three loops of `ContainsAction`.
phase_contains_action : List Rule → ActionType → Bool
phase_contains_action rules t =
    any (λ (r : Rule). any (λ (a : Action). action_name a.type == action_name t) r.actions) rules

unfoldable pub contains_action : TrafficPolicy → ActionType → Bool
unfolding phase_contains_action
contains_action tp t =
    phase_contains_action tp.on_http_request t
    || (phase_contains_action tp.on_http_response t || phase_contains_action tp.on_tcp_connect t)

abbrev no_rules : List Rule → Bool
no_rules [] = true
no_rules (_ ∷ _) = false

unfoldable pub is_empty : TrafficPolicy → Bool
is_empty tp =
    no_rules tp.on_http_request && (no_rules tp.on_http_response && no_rules tp.on_tcp_connect)

-- The other policy may be nil.
unfoldable pub merge : TrafficPolicy → Option TrafficPolicy → TrafficPolicy
unfolding is_empty
merge tp none = tp
merge tp (some other) = if is_empty other then tp else record {
  on_http_request = tp.on_http_request ++ other.on_http_request;
  on_http_response = tp.on_http_response ++ other.on_http_response;
  on_tcp_connect = tp.on_tcp_connect ++ other.on_tcp_connect;
}
