-- ===== src/Examples/Headers.antt =====
-- A message of two bytes over a pipe, and endpoint URLs.
use ngrok_operator.Common.{
  ℕ, true, false, none, some, List, [], ◌∷◌, ◌++◌, take, drop, length, leb, if◌then◌else◌, ◌≡◌,
  refl, arith,
}
use ngrok_operator.Mux.{Conn, Proto, write_proxy_message, read_proxy_message}
use ngrok_operator.Mux.Laws.{PipeLaws, header_roundtrip}
use ngrok_operator.Names.{chars}
use ngrok_operator.Endpoints.{
  Url, UrlLib, parsed, parse_and_sanitize_endpoint_url, sanitize_parsed, with_default_scheme,
  with_scheme, checked_port, inferred_port, domain_shorthand, split_host_port, at_last_colon,
  join_host_port, hostname_of, port_shorthand, is_supported_scheme, port_of, is_empty_text,
  same_chars,
}
use ngrok_operator.Endpoints.Laws.{accepted_url}

-- The bytes that were sent and not read.
abbrev pipe : Conn (List ℕ)
pipe = record {
  write = λ sent bs. (none, sent ++ bs);
  read_full =
      λ sent n. if leb n (length sent) then (some (take n sent), drop n sent) else (none, []);
}

pipe-PipeLaws : PipeLaws pipe
pipe-PipeLaws = record {
  sent = λ w. w;
  sent-write = λ w bs h. refl;
  read_enough = λ w n h. ground arith;
  sent-read_full = λ w n h. ground arith;
}

-- A message is its own encoding.
abbrev raw : Proto (List ℕ)
raw = record { marshal = λ m. some m; unmarshal = λ bs. (true, bs); empty = [] }

header_roundtrip_example :
    let w' = (write_proxy_message pipe raw (7 ∷ 9 ∷ []) []).1 in
    ((read_proxy_message pipe raw w').0 ≡ (none, 7 ∷ 9 ∷ []))
    × ((read_proxy_message pipe raw w').1 ≡ [])
unfolding write_proxy_message pipe-PipeLaws
header_roundtrip_example =
    header_roundtrip pipe raw pipe-PipeLaws [] (7 ∷ 9 ∷ []) (7 ∷ 9 ∷ []) refl refl (omega arith)
      refl refl

-- A parser that knows two texts.
abbrev urls : UrlLib
urls = record {
  atoi = λ s. same_chars s (chars "8080");
  parse = λ s.
      if same_chars s (chars "shop.example")
      then some (record { scheme = ""; host = []; path = chars "shop.example" })
      else if same_chars s (chars "tls://shop.example")
      then some (record { scheme = "tls"; host = chars "shop.example"; path = [] })
      else none;
}

abbrev shop : Url
shop = record { scheme = "tls"; host = chars "shop.example:443"; path = [] }

url_tests :
    (parse_and_sanitize_endpoint_url urls (chars "shop.example") true
      ≡ parsed (record { scheme = "http"; host = chars "shop.example:80"; path = [] }))
    × (parse_and_sanitize_endpoint_url urls (chars "8080") true
        ≡ parsed (record { scheme = "http"; host = chars "localhost:8080"; path = [] }))
unfolding parse_and_sanitize_endpoint_url sanitize_parsed with_default_scheme with_scheme
    checked_port inferred_port is_supported_scheme domain_shorthand port_of split_host_port
    at_last_colon join_host_port hostname_of port_shorthand
url_tests = (refl, refl)

accepted_url_example :
    (is_supported_scheme shop.scheme ≡ true)
    × (is_empty_text (port_of shop) ≡ false)
    × (shop.scheme ≡ "tls" → true ≡ true → same_chars (port_of shop) (chars "443") ≡ true)
unfolding parse_and_sanitize_endpoint_url sanitize_parsed with_default_scheme with_scheme
    checked_port inferred_port is_supported_scheme domain_shorthand port_of split_host_port
    at_last_colon join_host_port hostname_of port_shorthand
accepted_url_example = accepted_url urls (chars "tls://shop.example") true shop refl refl
