-- ===== src/Endpoints/Laws.antt =====
-- What `ParseAndSanitizeEndpointURL` of internal/util/endpoints.go accepts.
use Prim.Native.Char.{Char}
use ngrok_operator.Common.{
  String, Bool, true, false, not, ◌&&◌, ◌||◌, Option, none, some, List, [], ◌∷◌, ◌++◌, ◌==◌,
  string_eq, any, all, if◌then◌else◌, ◌≡◌, refl, arith, eq_iff, Bool-cases, inl, inr, ap, subst,
  ◌∙◌,
}
use ngrok_operator.Names.{chars}
use ngrok_operator.Endpoints.{
  Url, is_colon, is_digit, at_last_colon, split_host_port, split_at, port_of, hostname_of,
  join_host_port, UrlLib, UrlResult, parsed, refused, with_port_80, domain_shorthand,
  is_supported_scheme, scheme_shorthand, inferred_port, checked_port, with_scheme, sanitize_parsed,
  parse_and_sanitize_endpoint_url, is_empty_text, same_chars, with_default_scheme,
}

at_last_colon-join :
    (xs ds : List Char)
    → at_last_colon ds ≡ none
    → at_last_colon (xs ++ (chars ":" ++ ds)) ≡ some (xs, ds)
unfolding at_last_colon
at_last_colon-join [] ds h = rw h refl
at_last_colon-join (x ∷ xs) ds h = rw (at_last_colon-join xs ds h) refl

append_assoc : (a b d : List Char) → (a ++ b) ++ d ≡ a ++ (b ++ d)
append_assoc [] b d = refl
append_assoc (x ∷ a) b d = ap (λ l. x ∷ l) (append_assoc a b d)

split_behind_colon :
    (xs p : List Char)
    → at_last_colon p ≡ none
    → all is_digit p ≡ true
    → (split_host_port (xs ++ (chars ":" ++ p))).1 ≡ p
unfolding split_host_port
split_behind_colon xs p bare digits =
    let h = xs ++ (chars ":" ++ p) in
    ap (λ o. (split_at h o).1) (at_last_colon-join xs p bare) ∙ rw digits refl

-- A port that is joined to a host is the one that is read.
split_host_port-join_host_port :
    (h p : List Char)
    → at_last_colon p ≡ none
    → all is_digit p ≡ true
    → (split_host_port (join_host_port h p)).1 ≡ p
unfolding join_host_port
split_host_port-join_host_port h p bare digits = elim (Bool-cases (any is_colon h)) [
  | inl colon ↦
      let front = chars "[" ++ (h ++ chars "]") in
      let same : front ++ (chars ":" ++ p) ≡ chars "[" ++ (h ++ (chars "]" ++ (chars ":" ++ p))) =
        ap (λ l. chars "[" ++ l) (append_assoc h (chars "]") (chars ":" ++ p)) in
      rw (colon, ← same) (split_behind_colon front p bare digits)
  | inr plain ↦ rw plain (split_behind_colon h p bare digits)
]

-- What holds of every URL that is accepted.
record IsUsable (is_ingress_url : Bool) (u : Url) : Type 0 where
  supported : is_supported_scheme u.scheme ≡ true
  ported : is_empty_text (port_of u) ≡ false
  tls_port : u.scheme ≡ "tls" → is_ingress_url ≡ true → same_chars (port_of u) (chars "443") ≡ true

abbrev Accepts : Bool → UrlResult → Type 0
Accepts i (refused e) = Unit
Accepts i (parsed u) = IsUsable i u

port_80 : (h : List Char) → (split_host_port (join_host_port h (chars "80"))).1 ≡ chars "80"
unfolding at_last_colon
port_80 h = split_host_port-join_host_port h (chars "80") refl refl

port_443 : (h : List Char) → (split_host_port (join_host_port h (chars "443"))).1 ≡ chars "443"
unfolding at_last_colon
port_443 h = split_host_port-join_host_port h (chars "443") refl refl

tls_is_not_http : (s : String) (b : Bool) → (s == "http") ≡ true → s ≡ "tls" → b ≡ true
tls_is_not_http s b h t = let wrong : false ≡ true = subst (λ x. (x == "http") ≡ true) t h in cc

-- A URL of which the port was inferred.
IsUsable-with_port :
    (i : Bool) (u : Url) (p : List Char)
    → port_of u ≡ p
    → is_empty_text p ≡ false
    → is_supported_scheme u.scheme ≡ true
    → (u.scheme ≡ "tls" → same_chars p (chars "443") ≡ true)
    → IsUsable i u
IsUsable-with_port i u p at some_port s tls = record {
  supported = s;
  ported = rw at some_port;
  tls_port = λ t _. rw at (tls t);
}

with_port_80-IsUsable :
    (i : Bool) (u : Url)
    → (u.scheme == "http") ≡ true
    → IsUsable i (record (with_port_80 u) { path = [] })
unfolding with_port_80 is_supported_scheme port_of
with_port_80-IsUsable i u http = elim (Bool-cases (is_empty_text (port_of u))) [
  | inl none_given ↦ rw none_given (
      IsUsable-with_port i
        (record u { host = join_host_port (hostname_of u) (chars "80"); path = [] }) (chars "80")
        (port_80 (hostname_of u)) refl (rw http refl) (λ t. tls_is_not_http u.scheme _ http t))
  | inr given ↦ rw given (
      IsUsable-with_port i (record u { path = [] }) (port_of u) refl given (rw http refl)
        (λ t. tls_is_not_http u.scheme _ http t))
]

inferred_port-IsUsable :
    (i : Bool) (u : Url) → is_supported_scheme u.scheme ≡ true → Accepts i (inferred_port u)
unfolding inferred_port port_of
inferred_port-IsUsable i u s = elim (Bool-cases (u.scheme == "http")) [
  | inl http ↦ rw http (
      IsUsable-with_port i (record u { host = join_host_port (hostname_of u) (chars "80") })
        (chars "80") (port_80 (hostname_of u)) refl s (λ t. tls_is_not_http u.scheme _ http t))
  | inr other ↦ elim (Bool-cases (u.scheme == "https" || u.scheme == "tls")) [
    | inl secure ↦
        rw (other, secure)
          (IsUsable-with_port i (record u { host = join_host_port (hostname_of u) (chars "443") })
            (chars "443") (port_443 (hostname_of u)) refl s (λ t. refl))
    | inr plain ↦ rw (other, plain) tt
  ]
]

checked_port-IsUsable :
    (i : Bool) (u : Url) → is_supported_scheme u.scheme ≡ true → Accepts i (checked_port i u)
unfolding checked_port
checked_port-IsUsable i u s = elim (Bool-cases (is_empty_text (port_of u))) [
  | inl bare ↦ rw bare (inferred_port-IsUsable i u s)
  | inr given ↦
      elim (Bool-cases (u.scheme == "tls" && (i && not (same_chars (port_of u) (chars "443"))))) [
        | inl wrong ↦ rw (given, wrong) tt
        | inr right ↦
            rw (given, right)
              (record {
                supported = s;
                ported = given;
                tls_port = λ t ingress. ground (arith, eq_iff u.scheme "tls");
              })
      ]
]

scheme_shorthand-IsUsable :
    (i : Bool) (u : Url) → is_supported_scheme u.scheme ≡ true → Accepts i (scheme_shorthand u)
unfolding scheme_shorthand port_of split_host_port at_last_colon
scheme_shorthand-IsUsable i u s = elim (Bool-cases (u.scheme == "http")) [
  | inl http ↦ rw http (
      IsUsable-with_port i (record u { host = chars "localhost:80" }) (chars "80") refl refl s
        (λ t. tls_is_not_http u.scheme _ http t))
  | inr other ↦ elim (Bool-cases (u.scheme == "https")) [
    | inl https ↦
        rw (other, https)
          (IsUsable-with_port i (record u { host = chars "localhost:443" }) (chars "443") refl refl
            s (λ t. refl))
    | inr plain ↦ rw (other, plain) tt
  ]
]

with_scheme-IsUsable : (i : Bool) (u : Url) → Accepts i (with_scheme i u)
unfolding with_scheme
with_scheme-IsUsable i u = elim (Bool-cases (is_supported_scheme u.scheme)) [
  | inr unknown ↦ rw unknown tt
  | inl s ↦ elim (Bool-cases (is_empty_text u.host)) [
    | inl bare ↦ rw (s, bare) (scheme_shorthand-IsUsable i u s)
    | inr hosted ↦ elim (Bool-cases (is_empty_text (hostname_of u))) [
      | inl nameless ↦ rw (s, hosted, nameless) tt
      | inr named ↦ rw (s, hosted, named) (checked_port-IsUsable i u s)
    ]
  ]
]

sanitize_parsed-IsUsable :
    (i : Bool) (input : List Char) (o : Option Url) → Accepts i (sanitize_parsed i input o)
unfolding sanitize_parsed domain_shorthand
sanitize_parsed-IsUsable i input none = tt
sanitize_parsed-IsUsable i input (some u) = elim (Bool-cases (u.scheme == "")) [
  | inl bare ↦ rw bare (
      with_port_80-IsUsable i
        (record u { scheme = "http"; host = if is_empty_text u.host then input else u.host }) refl)
  | inr given ↦ rw given (with_scheme-IsUsable i u)
]

-- Every URL that is accepted, if the input is not the shorthand of a port number, has one of the four
-- supported schemes and a port, whatever `url.Parse` answers; the port of a `tls` URL for ingress is
-- 443.
pub accepted_url :
    (lib : UrlLib) (input : List Char) (is_ingress_url : Bool) (u : Url)
    → lib.atoi input ≡ false
    → parse_and_sanitize_endpoint_url lib input is_ingress_url ≡ parsed u
    → (is_supported_scheme u.scheme ≡ true)
      × (is_empty_text (port_of u) ≡ false)
      × (u.scheme ≡ "tls" → is_ingress_url ≡ true → same_chars (port_of u) (chars "443") ≡ true)
unfolding parse_and_sanitize_endpoint_url
accepted_url lib input i u long ok =
    let full = with_default_scheme input in
    let h = subst (Accepts i) (rw long at ok) (sanitize_parsed-IsUsable i full (lib.parse full)) in
    (h.supported, h.ported, h.tls_port)
