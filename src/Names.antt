-- ===== src/Names.antt =====
-- Names and URLs of pkg/managerdriver/utils.go. A text is worked on as a list of characters; after
-- the invalid ones are replaced all are ASCII, so that a length in bytes is one in characters.
-- SHA-256 in hexadecimal is a parameter.
pub mod Laws
use Prim.Native.Char.{Char, code}
use Prim.Native.String.{char_at}
use ngrok_operator.Common.{
  ℕ, ◌+◌, ◌-◌, String, ◌<>◌, Bool, true, false, not, ◌&&◌, ◌||◌, Option, none, some, List, [], ◌∷◌,
  ◌++◌, ◌==◌, nat_eq, string_eq, ltb, leb, length, take, decimal, if◌then◌else◌,
}
use ngrok_operator.Ir.{
  IrProtocol, https, http, tcp, tls, other_protocol, IrScheme, http_scheme, https_scheme,
  tcp_scheme, tls_scheme, scheme_text, IrObjectRef,
}

abbrev pub chars : String → List Char
chars String.[] = []
chars (String.◌∷◌ c s) = c ∷ chars s

unfoldable pub text : List Char → String
text [] = ""
text (c ∷ cs) = String.◌∷◌ c (text cs)

abbrev pub dash : Char
dash = "-"

abbrev between : ℕ → ℕ → ℕ → Bool
between lo hi n = leb lo n && leb n hi

abbrev pub is_alnum_lower : Char → Bool
is_alnum_lower c = between b'a' b'z' (code c) || between b'0' b'9' (code c)

-- `[a-z0-9.-]`
abbrev pub is_name_char : Char → Bool
is_name_char c = is_alnum_lower c || (code c == b'.' || code c == b'-')

-- `[a-zA-Z0-9._~-]`
abbrev pub is_url_char : Char → Bool
is_url_char c = is_name_char c || (between b'A' b'Z' (code c) || (code c == b'_' || code c == b'~'))

replace_wildcards : List Char → List Char
replace_wildcards [] = []
replace_wildcards (c ∷ cs) =
    let rest = replace_wildcards cs in if code c == b'*' then chars "wildcard" ++ rest else c ∷ rest

-- `strings.ToLower`, as far as the next step can tell: two characters that are not ASCII have an
-- ASCII lower case, and the other ones are replaced there in either case.
unfoldable pub lower : Char → Char
lower c =
    if between b'A' b'Z' (code c)
    then char_at "abcdefghijklmnopqrstuvwxyz" (code c - b'A')
    else if code c == 0x130
    then "i"
    else if code c == 0x212a
    then "k"
    else c

lower_all : List Char → List Char
unfolding lower
lower_all [] = []
lower_all (c ∷ cs) = lower c ∷ lower_all cs

-- Each run of invalid characters becomes one dash; `in_run` says that the one before was invalid.
squeeze : Bool → List Char → List Char
squeeze in_run [] = []
squeeze in_run (c ∷ cs) =
    let valid = squeeze false cs in
    let run = squeeze true cs in
    if is_name_char c then c ∷ valid else if in_run then run else dash ∷ run

trim_leading : List Char → List Char
trim_leading [] = []
trim_leading (c ∷ cs) = let rest = trim_leading cs in if is_alnum_lower c then c ∷ cs else rest

abbrev keep_unless_last : Char → List Char → List Char
keep_unless_last c [] = if is_alnum_lower c then c ∷ [] else []
keep_unless_last c (d ∷ ds) = c ∷ d ∷ ds

trim_trailing : List Char → List Char
trim_trailing [] = []
trim_trailing (c ∷ cs) = keep_unless_last c (trim_trailing cs)

or_default : List Char → List Char
or_default [] = chars "default"
or_default (c ∷ cs) = c ∷ cs

module _ (sha256_hex : String → List Char) where
  -- The first 8 digits of the hash stand for what is cut off.
  bounded : List Char → List Char
  unfolding text
  bounded cs =
      let hash = take 8 (sha256_hex (text cs)) in
      if ltb 63 (length cs) then take (63 - length hash - 1) cs ++ (dash ∷ hash) else cs

  sanitize_chars_for_k8s_name : List Char → List Char
  unfolding bounded replace_wildcards lower_all squeeze trim_leading trim_trailing or_default
  sanitize_chars_for_k8s_name cs =
      bounded (
        or_default
          (trim_trailing (trim_leading (squeeze false (lower_all (replace_wildcards cs))))))

  unfoldable pub sanitize_string_for_k8s_name : String → String
  unfolding sanitize_chars_for_k8s_name text
  sanitize_string_for_k8s_name s = text (sanitize_chars_for_k8s_name (chars s))

replace_invalid_url : List Char → List Char
replace_invalid_url [] = []
replace_invalid_url (c ∷ cs) = (if is_url_char c then c else dash) ∷ replace_invalid_url cs

unfoldable pub sanitize_string_for_url : String → String
unfolding replace_invalid_url replace_wildcards text
sanitize_string_for_url s = text (replace_invalid_url (replace_wildcards (chars s)))

unfoldable pub protocol_string_to_ir_scheme : IrProtocol → Option IrScheme
protocol_string_to_ir_scheme http = some http_scheme
protocol_string_to_ir_scheme https = some https_scheme
protocol_string_to_ir_scheme tcp = some tcp_scheme
protocol_string_to_ir_scheme tls = some tls_scheme
protocol_string_to_ir_scheme (other_protocol s) = none

abbrev default_cluster_domain : String
default_cluster_domain = "svc.cluster.local"

is_custom_domain : String → Bool
is_custom_domain d = not (d == default_cluster_domain) && not (d == "")

cert_text : List IrObjectRef → String
cert_text [] = ""
cert_text (ref ∷ refs) = ref.name <> "." <> ref.namespace <> cert_text refs

module _ (sha256_hex : String → List Char) where
  -- The suffix for client certificates, with the dash in front of it.
  mtls_suffix : List IrObjectRef → String
  unfolding cert_text text
  mtls_suffix [] = ""
  mtls_suffix (ref ∷ refs) = "-mtls-" <> text (take 5 (sha256_hex (cert_text (ref ∷ refs))))

  unfoldable pub internal_agent_endpoint_name :
      String → String → String → String → ℕ → List IrObjectRef → String
  unfolding sanitize_string_for_k8s_name mtls_suffix is_custom_domain decimal
  internal_agent_endpoint_name uid name namespace cluster_domain port certs =
      sanitize_string_for_k8s_name sha256_hex (
        text (take 5 (sha256_hex uid))
        <> "-"
        <> name
        <> "-"
        <> namespace
        <> mtls_suffix certs
        <> (if is_custom_domain cluster_domain then "-" <> cluster_domain else "")
        <> "-"
        <> decimal port)

dots_to_dashes : String → String
dots_to_dashes String.[] = ""
dots_to_dashes (String.◌∷◌ c s) = String.◌∷◌ (if code c == b'.' then dash else c) (dots_to_dashes s)

abbrev pub is_http : IrProtocol → Bool
is_http http = true
is_http https = true
is_http _ = false

abbrev pub is_stream : IrProtocol → Bool
is_stream tcp = true
is_stream tls = true
is_stream _ = false

module _ (sha256_hex : String → List Char) where
  unfoldable pub build_internal_endpoint_url :
      IrProtocol → String → String → String → String → ℕ → List IrObjectRef → Option String
  unfolding sanitize_string_for_url mtls_suffix is_custom_domain decimal dots_to_dashes scheme_text
      protocol_string_to_ir_scheme
  build_internal_endpoint_url protocol uid name namespace cluster_domain port certs =
      elim (protocol_string_to_ir_scheme protocol) [
        | none ↦ none
        | some scheme ↦ some (
            dots_to_dashes (
              scheme_text scheme
              <> sanitize_string_for_url (text (take 5 (sha256_hex uid)))
              <> "-"
              <> sanitize_string_for_url name
              <> "-"
              <> sanitize_string_for_url namespace
              <> mtls_suffix sha256_hex certs
              <> (if is_custom_domain cluster_domain
                  then "-" <> sanitize_string_for_url cluster_domain
                  else "")
              <> (if is_http protocol then "-" <> decimal port else ""))
            <> ".internal"
            <> (if is_stream protocol then ":" <> decimal port else ""))
      ]

unfoldable pub agent_endpoint_upstream_url : String → String → String → ℕ → IrScheme → String
unfolding sanitize_string_for_url is_custom_domain decimal scheme_text
agent_endpoint_upstream_url name namespace cluster_domain port scheme =
    scheme_text scheme
    <> sanitize_string_for_url name
    <> "."
    <> sanitize_string_for_url namespace
    <> (if is_custom_domain cluster_domain then "-" <> cluster_domain else "")
    <> ":"
    <> decimal port
