-- ===== src/Server/Hosts/LinkHosts.antt =====
-- The host of a lesson page's link: no colon in it, and the router's domain at its end.
use training_platform.Shared.{
  Bytes, codes, ℕ, ◌≡◌, refl, Bool, true, not, none, [], ◌∷◌, ◌++◌, all, all-append, ◌==◌, arith,
}
use mathlib.Core.List.{append_assoc}
use training_platform.Shared.Decimal.{is_digit}
use training_platform.Shared.Suffixes.{has_suffix, has_suffix-append}
use training_platform.Session.Pods.{is_token_byte}
use training_platform.Content.Links.{dots_to_dashes, link_token, link_prefix, link_code, link_host}
use training_platform.Router.{Match, is_domain_byte, dotted}
use training_platform.Router.Links.{IsNumber, IsAddress, dashed, link_token-all}
use training_platform.Server.Hosts.{last_colon, split_host_port, strip_port}

abbrev pub no_colon : ℕ → Bool
no_colon c = not (c == b':')

last_colon-none : (s : Bytes) → all no_colon s ≡ true → last_colon s ≡ none
unfolding last_colon all
last_colon-none [] h = refl
last_colon-none (c ∷ s) h = ground (arith, last_colon-none s)

strip_port-whole : (s : Bytes) → all no_colon s ≡ true → strip_port s ≡ s
unfolding strip_port split_host_port
strip_port-whole s h = ground (arith, last_colon-none s h)

pub digits_no_colon : (s : Bytes) → all is_digit s ≡ true → all no_colon s ≡ true
unfolding all is_digit
digits_no_colon [] h = refl
digits_no_colon (c ∷ s) h = ground (arith, digits_no_colon s)

token_no_colon : (s : Bytes) → all is_token_byte s ≡ true → all no_colon s ≡ true
unfolding all is_token_byte
token_no_colon [] h = refl
token_no_colon (c ∷ s) h = ground (arith, token_no_colon s)

domain_no_colon : (s : Bytes) → all is_domain_byte s ≡ true → all no_colon s ≡ true
unfolding all is_domain_byte
domain_no_colon [] h = refl
domain_no_colon (c ∷ s) h = ground (arith, domain_no_colon s)

-- Two parts and a character between them.
pub joined_no_colon :
    (s t : Bytes) (c : ℕ)
    → all no_colon s ≡ true
    → no_colon c ≡ true
    → all no_colon t ≡ true
    → all no_colon (s ++ c ∷ t) ≡ true
unfolding all
joined_no_colon s t c h k l = ground (arith, all-append no_colon s (c ∷ t), h, k, l)

-- The front of a link's host, up to the dot before the router's domain.
abbrev front : Bytes → Bytes → Bytes → Bytes → Bytes
front host_prefix ip pod port =
    link_prefix host_prefix
    ++ (b'i' ∷ b'p' ∷ (dots_to_dashes ip ++ b'-' ∷ (link_token pod ++ b'-' ∷ port)))

link_host-front :
    (host_prefix ip pod port router_host : Bytes)
    → link_host host_prefix ip pod port router_host
      ≡ front host_prefix ip pod port ++ b'.' ∷ router_host
unfolding link_host link_code
link_host-front host_prefix ip pod port router_host = simp append_assoc

link_prefix-no_colon : (s : Bytes) → all no_colon s ≡ true → all no_colon (link_prefix s) ≡ true
unfolding link_prefix all
link_prefix-no_colon s h = ground (arith, all-append no_colon s (codes "-"))

front-no_colon :
    (m : Match) (host_prefix pod port : Bytes)
    → IsAddress m
    → IsNumber 5 port
    → all no_colon host_prefix ≡ true
    → all no_colon (front host_prefix (dotted m) pod port) ≡ true
unfolding all
front-no_colon m host_prefix pod port h k plain =
    let digits = digits_no_colon in
    let number =
      joined_no_colon (link_token pod) port b'-'
        (token_no_colon (link_token pod) (link_token-all pod).0) refl (digits port k.digits) in
    let three =
      joined_no_colon m.octet_2 m.octet_3 b'-' (digits m.octet_2 h.number_2.digits) refl
        (digits m.octet_3 h.number_3.digits) in
    let address =
      joined_no_colon m.octet_0 _ b'-' (digits m.octet_0 h.number_0.digits) refl
        (joined_no_colon m.octet_1 _ b'-' (digits m.octet_1 h.number_1.digits) refl three) in
    let code =
      joined_no_colon (dots_to_dashes (dotted m)) (link_token pod ++ b'-' ∷ port) b'-'
        (rw (dashed m h) address) refl number in
    ground (
      arith,
      code,
      link_prefix-no_colon host_prefix plain,
      all-append no_colon (link_prefix host_prefix)
          (b'i' ∷ b'p' ∷ (dots_to_dashes (dotted m) ++ b'-' ∷ (link_token pod ++ b'-' ∷ port))),
    )

-- The server takes a link's host for one of its own.
pub link_host-has_suffix :
    (m : Match) (host_prefix pod port router_host : Bytes)
    → IsAddress m
    → IsNumber 5 port
    → all no_colon host_prefix ≡ true
    → all is_domain_byte router_host ≡ true
    → has_suffix
        (strip_port (link_host host_prefix (dotted m) pod port router_host))
        (b'.' ∷ strip_port router_host)
      ≡ true
link_host-has_suffix m host_prefix pod port router_host h k plain domain =
    let domain_plain = domain_no_colon router_host domain in
    let plain_host =
      joined_no_colon (front host_prefix (dotted m) pod port) router_host b'.'
        (front-no_colon m host_prefix pod port h k plain) refl domain_plain in
    rw (link_host-front host_prefix (dotted m) pod port router_host) (
      rw (strip_port-whole router_host domain_plain, strip_port-whole _ plain_host)
        (has_suffix-append (front host_prefix (dotted m) pod port) (b'.' ∷ router_host)))
