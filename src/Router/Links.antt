-- ===== src/Router/Links.antt =====
-- The links of a lesson page, read by the router.
use training_platform.Shared.{
  Bytes, codes, ℕ, ◌≡◌, ◌≤◌, refl, ap, ◌∙◌, true, false, not, none, some, [], ◌∷◌, ◌++◌, arith, all,
  all-append, length, ◌==◌, cut_prefix, is_empty,
}
use mathlib.Core.List.{append_assoc}
use training_platform.Shared.Runs.{run_while-append, run_while-whole}
use training_platform.Shared.Decimal.{digits_value, is_digit}
use training_platform.Session.Pods.{is_token_byte}
use training_platform.Session.Engine.Startup.{keep_token_bytes-all}
use training_platform.Content.Links.{
  dot_to_dash, dots_to_dashes, link_token, link_prefix, link_code, link_host,
}
use training_platform.Router.{
  Match, number_of, octet_dash, is_domain_byte, is_browser_port, is_host_end, port_and_end,
  match_encoding, find_encoding, dotted, octets_fit, is_port, target, decode_match, decode_host,
}

-- Digits that a group of the host expression takes.
pub record IsNumber (n : ℕ) (s : Bytes) : Type 0 where
  pub digits : all is_digit s ≡ true
  pub filled : is_empty s ≡ false
  pub short : length s ≤ n

number_of-append :
    (n : ℕ) (s : Bytes) (c : ℕ) (t : Bytes)
    → IsNumber n s
    → is_digit c ≡ false
    → number_of n (s ++ c ∷ t) ≡ some (s, c ∷ t)
unfolding number_of
number_of-append n s c t h k =
    ground (arith, run_while-append is_digit s c t h.digits k, h.filled, h.short)

dash_no_digit : is_digit b'-' ≡ false
unfolding is_digit
dash_no_digit = refl

dot_no_digit : is_digit b'.' ≡ false
unfolding is_digit
dot_no_digit = refl

octet_dash-append : (s t : Bytes) → IsNumber 3 s → octet_dash (s ++ b'-' ∷ t) ≡ some (s, t)
unfolding octet_dash cut_prefix
octet_dash-append s t h = ground (arith, number_of-append 3 s b'-' t h dash_no_digit)

port_and_end-append :
    (port host : Bytes)
    → IsNumber 5 port
    → all is_domain_byte host ≡ true
    → is_empty host ≡ false
    → port_and_end (b'-' ∷ (port ++ b'.' ∷ host)) ≡ some (some port)
unfolding port_and_end is_host_end is_browser_port cut_prefix
port_and_end-append port host h k filled = ground (
  arith,
  number_of-append 5 port b'.' host h dot_no_digit,
  run_while-whole is_domain_byte host k,
  filled,
)

pub link_token-all :
    (pod : Bytes)
    → (all is_token_byte (link_token pod) ≡ true) × (is_empty (link_token pod) ≡ false)
unfolding link_token all is_token_byte is_empty
link_token-all pod = ground (arith, keep_token_bytes-all pod)

digits-dots : (s : Bytes) → all is_digit s ≡ true → dots_to_dashes s ≡ s
unfolding dots_to_dashes dot_to_dash all is_digit
digits-dots [] h = refl
digits-dots (c ∷ s) h = ground (arith, digits-dots s)

dots-append : (s t : Bytes) → dots_to_dashes (s ++ t) ≡ dots_to_dashes s ++ dots_to_dashes t
unfolding dots_to_dashes
dots-append [] t = refl
dots-append (c ∷ s) t = ap (λ r. dot_to_dash c ∷ r) (dots-append s t)

dots_after :
    (s t : Bytes)
    → all is_digit s ≡ true
    → dots_to_dashes (s ++ b'.' ∷ t) ≡ s ++ b'-' ∷ dots_to_dashes t
unfolding dots_to_dashes dot_to_dash
dots_after s t h =
    dots-append s (b'.' ∷ t) ∙ ap (λ r. r ++ b'-' ∷ dots_to_dashes t) (digits-dots s h)

-- Four numbers of at most 255, as the text of an IPv4 address has them, a token, and a port.
pub record IsAddress (m : Match) : Type 0 where
  pub number_0 : IsNumber 3 m.octet_0
  pub number_1 : IsNumber 3 m.octet_1
  pub number_2 : IsNumber 3 m.octet_2
  pub number_3 : IsNumber 3 m.octet_3
  pub fits : octets_fit m ≡ true

pub dashed :
    (m : Match)
    → IsAddress m
    → dots_to_dashes (dotted m)
      ≡ m.octet_0 ++ b'-' ∷ (m.octet_1 ++ b'-' ∷ (m.octet_2 ++ b'-' ∷ m.octet_3))
unfolding dotted
dashed m h =
    dots_after m.octet_0 _ h.number_0.digits
    ∙ ap (λ r. m.octet_0 ++ b'-' ∷ r)
        (dots_after m.octet_1 _ h.number_1.digits
          ∙ ap (λ r. m.octet_1 ++ b'-' ∷ r)
              (dots_after m.octet_2 _ h.number_2.digits
                ∙ ap (λ r. m.octet_2 ++ b'-' ∷ r) (digits-dots m.octet_3 h.number_3.digits)))

dash_no_token : is_token_byte b'-' ≡ false
unfolding is_token_byte
dash_no_token = refl

-- What stands behind "ip" in the host of a link.
link_code_lem :
    (m : Match) (pod port host : Bytes)
    → IsAddress m
    → link_code (dotted m) pod port host
      ≡ m.octet_0
        ++ b'-'
          ∷ (m.octet_1
              ++ b'-'
                ∷ (m.octet_2
                    ++ b'-'
                      ∷ (m.octet_3 ++ b'-' ∷ (link_token pod ++ b'-' ∷ (port ++ b'.' ∷ host)))))
unfolding link_code
link_code_lem m pod port host h =
    let t = b'-' ∷ (link_token pod ++ b'-' ∷ (port ++ b'.' ∷ host)) in
    ap (λ r. r ++ t) (dashed m h)
    ∙ append_assoc m.octet_0 _ t
    ∙ ap (λ r. m.octet_0 ++ b'-' ∷ r)
        (append_assoc m.octet_1 _ t ∙ ap (λ r. m.octet_1 ++ b'-' ∷ r) (append_assoc m.octet_2 _ t))

match_encoding-link_code :
    (m : Match) (pod port host : Bytes)
    → IsAddress m
    → IsNumber 5 port
    → all is_domain_byte host ≡ true
    → is_empty host ≡ false
    → match_encoding (link_code (dotted m) pod port host)
      ≡ some (record m { session = link_token pod; port = some port })
unfolding match_encoding
match_encoding-link_code m pod port host h k domain filled =
    let token = link_token-all pod in
    let s4 = link_token pod ++ b'-' ∷ (port ++ b'.' ∷ host) in
    let s3 = m.octet_3 ++ b'-' ∷ s4 in
    let s2 = m.octet_2 ++ b'-' ∷ s3 in
    let s1 = m.octet_1 ++ b'-' ∷ s2 in
    rw (link_code_lem m pod port host h) (
      ground (
        arith,
        octet_dash-append m.octet_0 s1 h.number_0,
        octet_dash-append m.octet_1 s2 h.number_1,
        octet_dash-append m.octet_2 s3 h.number_2,
        octet_dash-append m.octet_3 s4 h.number_3,
        run_while-append is_token_byte (link_token pod) b'-' (port ++ b'.' ∷ host) token.0
            dash_no_token,
        token.1,
        port_and_end-append port host k domain filled,
      ))

-- Text in front of the last code, on one line, does not change what is found.
find_encoding-front :
    (front s : Bytes) (m : Match)
    → all (λ c. not (c == 10)) front ≡ true
    → find_encoding s ≡ some m
    → find_encoding (front ++ s) ≡ some m
unfolding find_encoding all
find_encoding-front [] s m h e = e
find_encoding-front (c ∷ front) s m h e = ground (arith, find_encoding-front front s m)

find_encoding-code :
    (s : Bytes) (m : Match)
    → find_encoding (b'p' ∷ s) ≡ none
    → match_encoding s ≡ some m
    → find_encoding (b'i' ∷ b'p' ∷ s) ≡ some m
unfolding find_encoding cut_prefix
find_encoding-code s m h e = ground (arith, h, e)

link_prefix-all :
    (host_prefix : Bytes)
    → all (λ c. not (c == 10)) host_prefix ≡ true
    → all (λ c. not (c == 10)) (link_prefix host_prefix) ≡ true
unfolding link_prefix all
link_prefix-all host_prefix h =
    ground (arith, h, all-append (λ c. not (c == 10)) host_prefix (codes "-"))

-- The host that a page writes into a link to a port of a Pod is decoded to that Pod's address and
-- port, and to the token of its name: for an IPv4 address, a port between 1 and 65535, a prefix on
-- one line, a router's domain of the bytes that the host expression takes, and with no further code
-- to the right of the link's own.
pub decode_host-link_host :
    (m : Match) (host_prefix pod port router_host : Bytes) (default_port : ℕ)
    → IsAddress m
    → IsNumber 5 port
    → is_port (digits_value port) ≡ true
    → all (λ c. not (c == 10)) host_prefix ≡ true
    → all is_domain_byte router_host ≡ true
    → is_empty router_host ≡ false
    → find_encoding (b'p' ∷ link_code (dotted m) pod port router_host) ≡ none
    → decode_host (link_host host_prefix (dotted m) pod port router_host) default_port
      ≡ target (record { ip = dotted m; port = digits_value port; session_id = link_token pod })
unfolding decode_host decode_match link_host octets_fit dotted
decode_host-link_host m host_prefix pod port router_host default_port h k in_range plain domain
      filled last =
    let code = link_code (dotted m) pod port router_host in
    let found = record m { session = link_token pod; port = some port } in
    ground (
      arith,
      find_encoding-front (link_prefix host_prefix) (b'i' ∷ b'p' ∷ code) found
          (link_prefix-all host_prefix plain)
          (find_encoding-code code found last
            (match_encoding-link_code m pod port router_host h k domain filled)),
      h.fits,
      in_range,
    )
