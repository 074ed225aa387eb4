-- ===== src/Tests/Router.antt =====
-- Hosts that are decoded, and hosts that are not.
use training_platform.Shared.{
  ◌&&◌, ◌++◌, some, is_empty, cut_prefix, Bytes, codes, ℕ, ◌≡◌, ◌≤◌, refl, true, false, not, none,
  [], ◌∷◌, all, length, ◌==◌, arith,
}
use training_platform.Shared.Runs.{run_while}
use training_platform.Content.Links.{link_code, link_host, link_token, dots_to_dashes, dot_to_dash}
use training_platform.Router.Links.{IsNumber, IsAddress}
use training_platform.Router.{
  Target, Match, dotted, octets_fit, is_port, target, no_instance, octet_too_large, decode_host,
  find_encoding, match_encoding, octet_dash, number_of, port_and_end, is_host_end, is_domain_byte,
  is_browser_port, decode_match, is_octet,
}
use training_platform.Shared.Decimal.{is_digit, digits_value}
use training_platform.Session.Pods.{is_token_byte, keep_token_bytes}
use training_platform.Shared.Decimal.{format_ℕ}
use training_platform.Shared.Suffixes.{has_suffix}
use training_platform.Router.Proxy.{Inbound, answered, Network, proxy_target}
use training_platform.Server.Hosts.{strip_port, by_proxy, serve_host}
use training_platform.Server.Hosts.PodLinks.{serve_host-link_host, IsByte, serve_host-decode_host}

abbrev shipping : Bytes
shipping = codes "shipping-ip10-244-0-16-abcd1234-8080.direct.example.com:443"

abbrev shipping_target : Target
shipping_target = record { ip = codes "10.244.0.16"; port = 8080; session_id = codes "abcd1234" }

shipping_decoded : decode_host shipping 80 ≡ target shipping_target
unfolding decode_host find_encoding cut_prefix match_encoding octet_dash number_of run_while
    is_digit is_empty is_token_byte port_and_end is_host_end is_domain_byte is_browser_port
    decode_match octets_fit is_octet digits_value dotted is_port
shipping_decoded = refl

default_port_decoded :
    decode_host (codes "ip192-168-1-1-sess1.direct.example.com:443") 80
    ≡ target (record { ip = codes "192.168.1.1"; port = 80; session_id = codes "sess1" })
unfolding decode_host find_encoding cut_prefix match_encoding octet_dash number_of run_while
    is_digit is_empty is_token_byte port_and_end is_host_end is_domain_byte is_browser_port
    decode_match octets_fit is_octet digits_value dotted is_port
default_port_decoded = refl

plain_host : decode_host (codes "pwdsomething.direct.example.com") 80 ≡ no_instance
unfolding decode_host find_encoding cut_prefix match_encoding octet_dash number_of run_while
    is_digit is_empty is_token_byte port_and_end is_host_end is_domain_byte is_browser_port
    decode_match octets_fit is_octet digits_value dotted is_port
plain_host = refl

large_octet : decode_host (codes "ip10-244-0-999-sess1.direct.example.com") 80 ≡ octet_too_large
unfolding decode_host find_encoding cut_prefix match_encoding octet_dash number_of run_while
    is_digit is_empty is_token_byte port_and_end is_host_end is_domain_byte is_browser_port
    decode_match octets_fit is_octet digits_value dotted is_port
large_octet = refl

-- A link to port 8080 of a Pod.
abbrev pod_address : Match
pod_address = record {
  octet_0 = codes "10";
  octet_1 = codes "0";
  octet_2 = codes "3";
  octet_3 = codes "217";
  session = [];
  port = none;
}

is_number :
    (s : Bytes) (n : ℕ) → all is_digit s ≡ true → is_empty s ≡ false → length s ≤ n → IsNumber n s
is_number s n h k l = record { digits = h; filled = k; short = l }

pod_address-IsAddress : IsAddress pod_address
unfolding all is_digit is_empty octets_fit is_octet digits_value
pod_address-IsAddress = record {
  number_0 = is_number (codes "10") 3 refl refl (omega arith);
  number_1 = is_number (codes "0") 3 refl refl (omega arith);
  number_2 = is_number (codes "3") 3 refl refl (omega arith);
  number_3 = is_number (codes "217") 3 refl refl (omega arith);
  fits = refl;
}

port-IsNumber : IsNumber 5 (codes "8080")
unfolding all is_digit is_empty
port-IsNumber = is_number (codes "8080") 5 refl refl (omega arith)

port_in_range : is_port (digits_value (codes "8080")) ≡ true
unfolding is_port digits_value
port_in_range = refl

one_line : all (λ c. not (c == 10)) (codes "web") ≡ true
unfolding all
one_line = refl

router_domain : all is_domain_byte (codes "lab.org") ≡ true
unfolding all is_domain_byte
router_domain = refl

domain_given : is_empty (codes "lab.org") ≡ false
unfolding is_empty
domain_given = refl

last_code :
    find_encoding
      (b'p' ∷ link_code (dotted pod_address) (codes "pod-7") (codes "8080") (codes "lab.org"))
    ≡ none
unfolding find_encoding cut_prefix match_encoding octet_dash number_of run_while is_digit is_empty
    is_token_byte port_and_end is_host_end is_domain_byte is_browser_port link_code link_token
    dots_to_dashes dot_to_dash keep_token_bytes dotted
last_code = refl

-- A network where every address answers with its own name.
abbrev echoing : Network Bytes
echoing = record {
  round_trip = λ a. some a;
  dials = λ a. true;
  can_hijack = true;
  hijacks = true;
  writes = true;
}

abbrev web_link : Bytes
web_link =
    link_host (codes "web") (dotted pod_address) (codes "pod-7") (codes "8080") (codes "lab.org")

abbrev web_request : Inbound
web_request = record { host = web_link; upgrade = [] }

abbrev web_addr : Bytes
web_addr = dotted pod_address ++ b':' ∷ format_ℕ (digits_value (codes "8080"))

plain_prefix : all (λ c. not (c == 10) && not (c == 58)) (codes "web") ≡ true
unfolding all
plain_prefix = refl

web_served :
    serve_host echoing (codes "lab.org") (λ r. codes "routes") web_request
    ≡ by_proxy (answered web_addr web_addr)
web_served =
    serve_host-link_host echoing (λ r. codes "routes") pod_address (codes "web") (codes "pod-7")
      (codes "8080") (codes "lab.org") web_addr pod_address-IsAddress port-IsNumber port_in_range
      plain_prefix router_domain domain_given last_code refl

serve_host-link_host_example :
    serve_host echoing (codes "lab.org") (λ r. codes "routes") web_request
    ≡ by_proxy (answered web_addr web_addr)
serve_host-link_host_example =
    serve_host-link_host echoing (λ r. codes "routes") pod_address (codes "web") (codes "pod-7")
      (codes "8080") (codes "lab.org") web_addr pod_address-IsAddress port-IsNumber port_in_range
      plain_prefix router_domain domain_given last_code refl

serve_host-decode_host_example :
    (m : Match) × (t : Target) × (has_suffix
        (strip_port web_request.host)
        (b'.' ∷ strip_port (codes "lab.org"))
      ≡ true)
    × (decode_host web_request.host 80 ≡ target t)
    × (t.ip ≡ m.octet_0 ++ b'.' ∷ (m.octet_1 ++ b'.' ∷ (m.octet_2 ++ b'.' ∷ m.octet_3)))
    × IsByte m.octet_0
    × IsByte m.octet_1
    × IsByte m.octet_2
    × IsByte m.octet_3
    × (1 ≤ t.port)
    × (t.port ≤ 65535)
    × (answered web_addr web_addr ≡ proxy_target echoing t web_request)
serve_host-decode_host_example =
    serve_host-decode_host echoing (λ r. codes "routes") (codes "lab.org") web_request
      (answered web_addr web_addr) web_served
