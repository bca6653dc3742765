-- ===== src/Policy/Laws.antt =====
-- `Merge` and `ContainsAction` of internal/trafficpolicy/policy.go.
use mathlib.Core.List.{append_assoc, append-nil}
use ngrok_operator.Common.{◌≡◌, refl, Bool, some, List, [], ◌∷◌, ◌++◌, ◌||◌, any, arith}
use ngrok_operator.Policy.{
  TrafficPolicy, Rule, ActionType, phase_contains_action, contains_action, merge,
}

any-append {ℓ} :
    {A : Type ℓ} (p : A → Bool) (xs ys : List A) → any p (xs ++ ys) ≡ (any p xs || any p ys)
any-append p [] ys = refl
any-append p (x ∷ xs) ys = ground (arith, any-append p xs ys)

phase_contains_action-append :
    (xs ys : List Rule) (t : ActionType)
    → phase_contains_action (xs ++ ys) t
      ≡ (phase_contains_action xs t || phase_contains_action ys t)
unfolding phase_contains_action
phase_contains_action-append xs ys t = any-append _ xs ys

-- The phases of a merge: the guard for an empty policy changes nothing.
pub merge-some :
    (tp other : TrafficPolicy)
    → merge tp (some other) ≡ (record {
      on_http_request = tp.on_http_request ++ other.on_http_request;
      on_http_response = tp.on_http_response ++ other.on_http_response;
      on_tcp_connect = tp.on_tcp_connect ++ other.on_tcp_connect;
    })
unfolding merge
merge-some tp other = ground (
  arith,
  append-nil tp.on_http_request,
  append-nil tp.on_http_response,
  append-nil tp.on_tcp_connect,
)

-- The rules of all phases, in the order in which `ContainsAction` looks at them.
abbrev pub all_rules : TrafficPolicy → List Rule
all_rules tp = tp.on_http_request ++ (tp.on_http_response ++ tp.on_tcp_connect)

-- `ContainsAction` answers for the rules of all three phases together.
contains_action-all_rules :
    (tp : TrafficPolicy) (t : ActionType)
    → contains_action tp t ≡ phase_contains_action (all_rules tp) t
unfolding contains_action
contains_action-all_rules tp t =
    rw phase_contains_action-append (rw phase_contains_action-append refl)

-- A merged policy contains an action type exactly when one of its two parts contains it, whether
-- or not the part that is merged in is empty.
pub contains_action-merge :
    (tp other : TrafficPolicy) (t : ActionType)
    → contains_action (merge tp (some other)) t ≡ (contains_action tp t || contains_action other t)
contains_action-merge tp other t = rw merge-some (
    unfold contains_action in
    ground (
      arith,
      phase_contains_action-append tp.on_http_request other.on_http_request t,
      phase_contains_action-append tp.on_http_response other.on_http_response t,
      phase_contains_action-append tp.on_tcp_connect other.on_tcp_connect t,
    ))

-- Merging is associative.
pub merge_assoc :
    (a b c : TrafficPolicy) → merge (merge a (some b)) (some c) ≡ merge a (some (merge b (some c)))
merge_assoc a b c = simp (merge-some, append_assoc)
