-- ===== src/Endpoints.antt =====
-- internal/util/endpoints.go: `ParseAndSanitizeEndpointURL`; the child module `Internal` has
-- `IsInternalDomain`. Hosts and inputs are lists of characters. `url.Parse` and the test whether
-- `strconv.Atoi` accepts a text are parameters; `Port`, `Hostname` and `net.JoinHostPort` are written
-- out.
pub mod Internal
pub mod Laws
use Prim.Native.Char.{Char, code}
use ngrok_operator.Common.{
  ℕ, String, Bool, true, false, not, ◌&&◌, ◌||◌, Option, none, some, List, [], ◌∷◌, ◌++◌, ◌==◌,
  nat_eq, string_eq, leb, any, all, if◌then◌else◌, ◌≡◌, refl,
}
use ngrok_operator.Names.{chars, lower}

abbrev pub same_chars : List Char → List Char → Bool
same_chars [] [] = true
same_chars (c ∷ cs) (d ∷ ds) = code c == code d && same_chars cs ds
same_chars _ _ = false

pub record Url : Type 0 where
  pub scheme : String
  pub host : List Char
  pub path : List Char

abbrev pub is_colon : Char → Bool
is_colon c = code c == b':'

abbrev pub is_digit : Char → Bool
is_digit c = leb b'0' (code c) && leb (code c) b'9'

-- What stands before and behind the last colon.
unfoldable pub at_last_colon : List Char → Option (List Char × List Char)
at_last_colon [] = none
at_last_colon (c ∷ cs) = elim (at_last_colon cs) [
  | some (a, b) ↦ some (c ∷ a, b)
  | none ↦ if is_colon c then some ([], cs) else none
]

abbrev pub split_at : List Char → Option (List Char × List Char) → List Char × List Char
split_at h none = (h, [])
split_at h (some (a, b)) = if all is_digit b then (a, b) else (h, [])

-- `splitHostPort` of net/url, before it takes the brackets off: the port is empty where what stands
-- behind the last colon is not all digits.
unfoldable pub split_host_port : List Char → List Char × List Char
split_host_port h = split_at h (at_last_colon h)

abbrev drop_last_bracket : List Char → Option (List Char)
drop_last_bracket [] = none
drop_last_bracket (c ∷ []) = if code c == b']' then some [] else none
drop_last_bracket (c ∷ d ∷ ds) = elim (drop_last_bracket (d ∷ ds)) [
  | none ↦ none
  | some l ↦ some (c ∷ l)
]

unbracketed : List Char → List Char
unbracketed [] = []
unbracketed (c ∷ cs) = elim (drop_last_bracket cs) [
  | none ↦ c ∷ cs
  | some l ↦ if code c == b'[' then l else c ∷ cs
]

-- `URL.Port` and `URL.Hostname`
unfoldable pub port_of : Url → List Char
port_of u = (split_host_port u.host).1

unfoldable pub hostname_of : Url → List Char
unfolding unbracketed
hostname_of u = unbracketed (split_host_port u.host).0

-- `net.JoinHostPort`
unfoldable pub join_host_port : List Char → List Char → List Char
join_host_port h p =
    if any is_colon h
    then chars "[" ++ (h ++ (chars "]" ++ (chars ":" ++ p)))
    else h ++ (chars ":" ++ p)

abbrev starts_with : List Char → List Char → Bool
starts_with [] l = true
starts_with (c ∷ cs) [] = false
starts_with (c ∷ cs) (d ∷ ds) = code c == code d && starts_with cs ds

-- `strings.Contains`
contains_text : List Char → List Char → Bool
contains_text part [] = starts_with part []
contains_text part (c ∷ cs) = starts_with part (c ∷ cs) || contains_text part cs

-- The package functions that are not written out.
pub record UrlLib : Type 0 where
  pub atoi : List Char → Bool
  pub parse : List Char → Option Url

pub data UrlError : Type 0 where
  parse_failed unsupported_scheme shorthand_without_hostname : UrlError
  missing_hostname tcp_without_port tls_ingress_port : UrlError

pub data UrlResult : Type 0 where
  parsed : Url → UrlResult
  refused : UrlError → UrlResult

unfoldable pub port_shorthand : List Char → Url
port_shorthand input = record {
  scheme = "http";
  host = join_host_port (chars "localhost") input;
  path = [];
}

-- The input with a scheme, where it has a colon and no scheme.
unfoldable pub with_default_scheme : List Char → List Char
unfolding contains_text
with_default_scheme input =
    if any is_colon input && not (contains_text (chars "://") input)
    then chars "http://" ++ input
    else input

abbrev pub is_empty_text : List Char → Bool
is_empty_text [] = true
is_empty_text (c ∷ cs) = false

unfoldable pub with_port_80 : Url → Url
with_port_80 u =
    if is_empty_text (port_of u)
    then record u { host = join_host_port (hostname_of u) (chars "80") }
    else u

-- A domain without a scheme.
unfoldable pub domain_shorthand : List Char → Url → Url
unfolding with_port_80
domain_shorthand input u =
    record (with_port_80
      (record u { scheme = "http"; host = if is_empty_text u.host then input else u.host })) {
        path = [];
      }

unfoldable pub is_supported_scheme : String → Bool
is_supported_scheme s = s == "http" || s == "https" || s == "tcp" || s == "tls"

unfoldable pub scheme_shorthand : Url → UrlResult
scheme_shorthand u =
    if u.scheme == "http"
    then parsed (record u { host = chars "localhost:80" })
    else if u.scheme == "https"
    then parsed (record u { host = chars "localhost:443" })
    else refused shorthand_without_hostname

-- The port of a scheme, where the URL has none.
unfoldable pub inferred_port : Url → UrlResult
inferred_port u =
    if u.scheme == "http"
    then parsed (record u { host = join_host_port (hostname_of u) (chars "80") })
    else if u.scheme == "https" || u.scheme == "tls"
    then parsed (record u { host = join_host_port (hostname_of u) (chars "443") })
    else refused tcp_without_port

unfoldable pub checked_port : Bool → Url → UrlResult
checked_port is_ingress_url u =
    if is_empty_text (port_of u)
    then inferred_port u
    else if u.scheme == "tls" && (is_ingress_url && not (same_chars (port_of u) (chars "443")))
    then refused tls_ingress_port
    else parsed u

unfoldable pub with_scheme : Bool → Url → UrlResult
with_scheme is_ingress_url u =
    if not (is_supported_scheme u.scheme)
    then refused unsupported_scheme
    else if is_empty_text u.host
    then scheme_shorthand u
    else if is_empty_text (hostname_of u)
    then refused missing_hostname
    else checked_port is_ingress_url u

unfoldable pub sanitize_parsed : Bool → List Char → Option Url → UrlResult
sanitize_parsed is_ingress_url input none = refused parse_failed
sanitize_parsed is_ingress_url input (some u) =
    if u.scheme == "" then parsed (domain_shorthand input u) else with_scheme is_ingress_url u

unfoldable pub parse_and_sanitize_endpoint_url : UrlLib → List Char → Bool → UrlResult
parse_and_sanitize_endpoint_url lib input is_ingress_url =
    if lib.atoi input
    then parsed (port_shorthand input)
    else let full = with_default_scheme input in
      sanitize_parsed is_ingress_url full (lib.parse full)
