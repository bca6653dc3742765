-- ===== src/Translator/Routing/Growth.antt =====
-- What the steps of `buildRoutingPolicy` keep of the policy and of the cache.
use ngrok_operator.Common.{
  String, Bool, true, false, Option, some, List, [], ◌∷◌, ◌++◌, string_eq, lookup, lookup-insert,
  if◌then◌else◌, ◌≡◌, refl, ◌⊎◌, inl, inr, arith, eq_iff,
}
use ngrok_operator.Policy.{
  TrafficPolicy, Rule, add_rule_on_http_request, add_rule_on_http_response, add_rule_on_tcp_connect,
}
use ngrok_operator.Ir.{IrDestination, IrService, IrVirtualHost}
use ngrok_operator.Ir.Service.{key}
use ngrok_operator.Translator.Endpoints.{Env, AgentEndpoint}
use ngrok_operator.Translator.Routing.{
  Cache, add_route_rule, add_request_rules, add_response_rules, add_policies, add_random_number,
  cached_endpoint, with_expressions,
}

-- A rule stands in a list.
abbrev pub Has : Rule → List Rule → Type 0
Has x [] = ⊥
Has x (y ∷ l) = (x ≡ y) ⊎ Has x l

pub Has-append_left : (x : Rule) (l m : List Rule) → Has x l → Has x (l ++ m)
Has-append_left x [] m h = absurd h
Has-append_left x (y ∷ l) m (inl e) = inl e
Has-append_left x (y ∷ l) m (inr h) = inr (Has-append_left x l m h)

pub Has-append_self : (x : Rule) (l : List Rule) → Has x (l ++ (x ∷ []))
Has-append_self x [] = inl refl
Has-append_self x (y ∷ l) = inr (Has-append_self x l)

-- The second policy has the rules for HTTP requests of the first.
pub record Keeps (a b : TrafficPolicy) : Type 0 where
  pub rules : (x : Rule) → Has x a.on_http_request → Has x b.on_http_request

pub Keeps-refl : (a : TrafficPolicy) → Keeps a a
Keeps-refl a = record { rules = λ x h. h }

pub Keeps-trans : {a b c : TrafficPolicy} → Keeps a b → Keeps b c → Keeps a c
Keeps-trans p q = record { rules = λ x h. q.rules x (p.rules x h) }

pub Keeps-request : (tp : TrafficPolicy) (r : Rule) → Keeps tp (add_rule_on_http_request tp r)
unfolding add_rule_on_http_request
Keeps-request tp r = record { rules = λ x h. Has-append_left x tp.on_http_request (r ∷ []) h }

Keeps-response : (tp : TrafficPolicy) (r : Rule) → Keeps tp (add_rule_on_http_response tp r)
unfolding add_rule_on_http_response
Keeps-response tp r = record { rules = λ x h. h }

Keeps-tcp : (tp : TrafficPolicy) (r : Rule) → Keeps tp (add_rule_on_tcp_connect tp r)
unfolding add_rule_on_tcp_connect
Keeps-tcp tp r = record { rules = λ x h. h }

Keeps-if : (b : Bool) (a c d : TrafficPolicy) → Keeps a c → Keeps a d → Keeps a (if b then c else d)
Keeps-if true a c d h k = h
Keeps-if false a c d h k = k

pub Keeps-route_rule :
    (v : IrVirtualHost) (tp : TrafficPolicy) (r : Rule) → Keeps tp (add_route_rule v tp r)
unfolding add_route_rule
Keeps-route_rule v tp r =
    Keeps-if _ tp _ _ (Keeps-request tp r) (Keeps-if _ tp _ _ (Keeps-tcp tp r) (Keeps-refl tp))

Keeps-request_rules :
    (es : List String) (w : Option String) (rules : List Rule) (tp : TrafficPolicy)
    → Keeps tp (add_request_rules es w rules tp)
unfolding add_request_rules
Keeps-request_rules es w [] tp = Keeps-refl tp
Keeps-request_rules es w (r ∷ rs) tp =
    Keeps-trans (Keeps-request tp (with_expressions es w r)) (Keeps-request_rules es w rs _)

Keeps-response_rules :
    (es : List String) (w : Option String) (rules : List Rule) (tp : TrafficPolicy)
    → Keeps tp (add_response_rules es w rules tp)
unfolding add_response_rules
Keeps-response_rules es w [] tp = Keeps-refl tp
Keeps-response_rules es w (r ∷ rs) tp =
    Keeps-trans (Keeps-response tp (with_expressions es w r)) (Keeps-response_rules es w rs _)

pub Keeps-policies :
    (es : List String) (w : Option String) (ps : List TrafficPolicy) (tp : TrafficPolicy)
    → Keeps tp (add_policies es w ps tp)
unfolding add_policies
Keeps-policies es w [] tp = Keeps-refl tp
Keeps-policies es w (p ∷ ps) tp =
    Keeps-trans (Keeps-request_rules es w p.on_http_request tp)
      (Keeps-trans (Keeps-response_rules es w p.on_http_response _) (Keeps-policies es w ps _))

pub Keeps-random_number :
    (v : IrVirtualHost) (es : List String) (ds : List IrDestination) (tp : TrafficPolicy)
    → Keeps tp (add_random_number v es ds tp)
unfolding add_random_number
Keeps-random_number v es ds tp =
    Keeps-if _ tp _ _
      (Keeps-if _ tp _ _ (Keeps-request tp _) (Keeps-if _ tp _ _ (Keeps-tcp tp _) (Keeps-refl tp)))
      (Keeps-refl tp)

-- The second cache has the agent endpoints of the first.
pub record KeepsCache (a b : Cache) : Type 0 where
  pub endpoints : (k : String) (e : AgentEndpoint) → lookup k a ≡ some e → lookup k b ≡ some e

pub KeepsCache-refl : (a : Cache) → KeepsCache a a
KeepsCache-refl a = record { endpoints = λ k e h. h }

pub KeepsCache-trans : {a b c : Cache} → KeepsCache a b → KeepsCache b c → KeepsCache a c
KeepsCache-trans p q = record { endpoints = λ k e h. q.endpoints k e (p.endpoints k e h) }

-- An agent endpoint that is asked for is in the cache from then on.
pub cached_endpoint_keeps :
    (env : Env) (v : IrVirtualHost) (s : IrService) (cache : Cache) (e : AgentEndpoint)
    (cache' : Cache)
    → cached_endpoint env v s cache ≡ some (e, cache')
    → (lookup (key s) cache' ≡ some e) × KeepsCache cache cache'
unfolding cached_endpoint
cached_endpoint_keeps env v s cache e cache' h = (
  ground (arith, lookup-insert (key s) (key s) e cache, eq_iff (key s) (key s)),
  record { endpoints = λ k f g. ground (arith, lookup-insert (key s) k e cache, eq_iff (key s) k) },
)
