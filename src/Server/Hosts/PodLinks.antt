-- ===== src/Server/Hosts/PodLinks.antt =====
-- The requests that reach a Pod: those to the links of lesson pages do, and no others are proxied.
use training_platform.Shared.{
  Bytes, is_empty, ℕ, ◌≡◌, ◌≤◌, refl, ap, ◌∙◌, Bool, true, false, not, ◌&&◌, none, some, [], ◌∷◌,
  ◌++◌, all, any, ◌==◌, arith, inl, inr, ◌⊎◌,
}
use training_platform.Shared.Decimal.{format_ℕ, digits_value}
use training_platform.Shared.Suffixes.{has_suffix}
use training_platform.Content.Links.{link_token, link_code, link_host}
use training_platform.Router.{
  Target, Match, Decoded, no_instance, octet_too_large, invalid_port, target, is_domain_byte,
  dotted, is_octet, octets_fit, is_port, find_encoding, decode_host,
}
use training_platform.Router.Links.{IsNumber, IsAddress, decode_host-link_host}
use training_platform.Router.Targets.{IsDigits, decode_host_lem}
use training_platform.Router.Proxy.{
  addr, Inbound, Proxied, answered, Network, proxy_target, proxy_serve, proxy_decoded,
}
use training_platform.Server.Hosts.LinkHosts.{
  no_colon, digits_no_colon, joined_no_colon, link_host-has_suffix,
}
use training_platform.Server.Hosts.{strip_port, by_proxy, is_target, proxy_port, serve_host}

-- Both parts of a test.
all_and :
    (p q : ℕ → Bool) (s : Bytes)
    → all (λ c. p c && q c) s ≡ true
    → (all p s ≡ true) × (all q s ≡ true)
unfolding all
all_and p q [] h = (refl, refl)
all_and p q (c ∷ s) h = ground (arith, all_and p q s)

no_colon-any : (s : Bytes) → all no_colon s ≡ true → any (λ c. c == b':') s ≡ false
unfolding all any
no_colon-any [] h = refl
no_colon-any (c ∷ s) h = ground (arith, no_colon-any s)

-- The address of a Pod needs no brackets.
addr-dotted :
    (m : Match) (port : ℕ) (session : Bytes)
    → IsAddress m
    → addr (record { ip = dotted m; port = port; session_id = session })
      ≡ dotted m ++ b':' ∷ format_ℕ port
unfolding addr dotted
addr-dotted m port session h =
    let digits = digits_no_colon in
    let three =
      joined_no_colon m.octet_2 m.octet_3 b'.' (digits m.octet_2 h.number_2.digits) refl
        (digits m.octet_3 h.number_3.digits) in
    let two =
      joined_no_colon m.octet_1 (m.octet_2 ++ b'.' ∷ m.octet_3) b'.'
        (digits m.octet_1 h.number_1.digits) refl three in
    let whole =
      joined_no_colon m.octet_0 (m.octet_1 ++ b'.' ∷ (m.octet_2 ++ b'.' ∷ m.octet_3)) b'.'
        (digits m.octet_0 h.number_0.digits) refl two in
    ground (arith, no_colon-any (dotted m) whole)

is_target_lem : (d : Decoded) → is_target d ≡ true → (t : Target) × (d ≡ target t)
unfolding is_target
is_target_lem no_instance h = cc
is_target_lem octet_too_large h = cc
is_target_lem invalid_port h = cc
is_target_lem (target t) h = (t, refl)

-- An octet of an address: digits with a value of at most 255.
abbrev pub IsByte : Bytes → Type 0
IsByte o = IsDigits o × (digits_value o ≤ 255)

octets_fit_lem :
    (m : Match)
    → octets_fit m ≡ true
    → (digits_value m.octet_0 ≤ 255)
      × (digits_value m.octet_1 ≤ 255)
      × (digits_value m.octet_2 ≤ 255)
      × (digits_value m.octet_3 ≤ 255)
unfolding octets_fit is_octet
octets_fit_lem m h = ground (arith, h)

port_bounds : (p : ℕ) → (p ≡ proxy_port) ⊎ (is_port p ≡ true) → (1 ≤ p) × (p ≤ 65535)
unfolding is_port
port_bounds p (inl e) = ground (arith, e)
port_bounds p (inr e) = ground (arith, e)

module _ {ℓ} {Answer : Type ℓ} (net : Network Answer) (routes : Inbound → Answer) where
  -- A request to the host of a page's link to a port of a Pod is answered by what the Pod's address
  -- and port answer, and by no route of the server: for a request that is no upgrade, an IPv4
  -- address, a port between 1 and 65535, a prefix of one line with no colon, a router's domain of the
  -- bytes that the host expression takes, and with no further code to the right of the link's own.
  pub serve_host-link_host :
      (m : Match) (host_prefix pod port router_host : Bytes) (answer : Answer)
      → IsAddress m
      → IsNumber 5 port
      → is_port (digits_value port) ≡ true
      → all (λ c. not (c == 10) && not (c == 58)) host_prefix ≡ true
      → all is_domain_byte router_host ≡ true
      → is_empty router_host ≡ false
      → find_encoding (b'p' ∷ link_code (dotted m) pod port router_host) ≡ none
      → net.round_trip (dotted m ++ b':' ∷ format_ℕ (digits_value port)) ≡ some answer
      → serve_host net router_host routes
          (record { host = link_host host_prefix (dotted m) pod port router_host; upgrade = [] })
        ≡ by_proxy (answered (dotted m ++ b':' ∷ format_ℕ (digits_value port)) answer)
  unfolding serve_host proxy_serve proxy_decoded proxy_target is_target is_empty
  serve_host-link_host m host_prefix pod port router_host answer h k in_range plain domain filled
        last up =
      let (one_line, no_colons) = all_and (λ c. not (c == 10)) no_colon host_prefix plain in
      ground (
        arith,
        filled,
        link_host-has_suffix m host_prefix pod port router_host h k no_colons domain,
        decode_host-link_host m host_prefix pod port router_host proxy_port h k in_range one_line
            domain filled last,
        addr-dotted m (digits_value port) (link_token pod) h,
        up,
      )

  -- No request is proxied but for a host below the router's domain that decodes: to an address of
  -- four numbers of digits, each of at most 255, with dots between them, and a port from 1 to 65535,
  -- so that the proxy never has to refuse a host.
  pub serve_host-decode_host :
      (router_host : Bytes) (r : Inbound) (p : Proxied Answer)
      → serve_host net router_host routes r ≡ by_proxy p
      → (m : Match) × (t : Target) × (has_suffix (strip_port r.host) (b'.' ∷ strip_port router_host)
          ≡ true)
        × (decode_host r.host 80 ≡ target t)
        × (t.ip ≡ m.octet_0 ++ b'.' ∷ (m.octet_1 ++ b'.' ∷ (m.octet_2 ++ b'.' ∷ m.octet_3)))
        × IsByte m.octet_0
        × IsByte m.octet_1
        × IsByte m.octet_2
        × IsByte m.octet_3
        × (1 ≤ t.port)
        × (t.port ≤ 65535)
        × (p ≡ proxy_target net t r)
  unfolding serve_host proxy_serve proxy_decoded dotted
  serve_host-decode_host router_host r p e =
      let sent : p ≡ proxy_decoded net (decode_host r.host proxy_port) r = ground (arith, e) in
      let (t, decoded) = is_target_lem (decode_host r.host proxy_port) (ground (arith, e)) in
      let (m, named, fit, digits, _, ported) = decode_host_lem r.host proxy_port t decoded in
      let (small_0, small_1, small_2, small_3) = octets_fit_lem m fit in
      let (low, high) = port_bounds t.port ported in
      (
        m,
        t,
        ground (arith, e),
        decoded,
        named,
        (digits.0, small_0),
        (digits.1, small_1),
        (digits.2, small_2),
        (digits.3, small_3),
        low,
        high,
        sent ∙ ap (λ d. proxy_decoded net d r) decoded,
      )
