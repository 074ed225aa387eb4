-- ===== src/Router.antt =====
-- internal/router/router.go: the Pod address that a host name encodes. The expression hostRe has one
-- way to match behind each "ip", and its greedy front takes the last "ip" where it matches.
pub mod Targets
pub mod Links
pub mod Proxy
use training_platform.Shared.{
  is_empty, Bytes, codes, ℕ, zero, suc, ◌≡◌, ◌≢◌, ◌≤◌, ◌<◌, refl, sym, ap, ◌∙◌, Bool, true, false,
  not, ◌&&◌, ◌||◌, Option, none, some, List, [], ◌∷◌, ◌++◌, arith, all, length, ltb, leb, ◌==◌,
  if◌then◌else◌, cut_prefix, Bool-cases, Option-cases, inl, inr,
}
use training_platform.Shared.Runs.{
  run_while, run_while-append, run_while-whole, run_while-all, run_while-keep,
}
use training_platform.Shared.Decimal.{digits_value, is_digit}
use training_platform.Shared.Base64.{◌>>=◌}
use training_platform.Session.Pods.{is_token_byte}

-- type Target struct
pub record Target : Type 0 where
  pub ip : Bytes
  pub port : ℕ
  pub session_id : Bytes

-- The groups of a match: the four numbers of m[1], m[2], and m[3] if it is there.
pub record Match : Type 0 where
  pub octet_0 : Bytes
  pub octet_1 : Bytes
  pub octet_2 : Bytes
  pub octet_3 : Bytes
  pub session : Bytes
  pub port : Option Bytes

-- \d{1,n}, where no digit may follow.
unfoldable pub number_of : ℕ → Bytes → Option (Bytes × Bytes)
number_of n s =
    let (digits, rest) = run_while is_digit s in
    if is_empty digits || ltb n (length digits) then none else some (digits, rest)

-- \d{1,3}-
unfoldable pub octet_dash : Bytes → Option (Bytes × Bytes)
octet_dash s = do
  (digits, rest) ← number_of 3 s
  after ← cut_prefix rest (codes "-")
  some (digits, after)

-- [a-zA-Z0-9_\-.]
unfoldable pub is_domain_byte : ℕ → Bool
is_domain_byte c =
    (leb b'a' c && leb c b'z')
    || (leb b'A' c && leb c b'Z')
    || (leb b'0' c && leb c b'9')
    || (c == b'_')
    || (c == b'-')
    || (c == b'.')

-- (?::\d{1,5})?$
unfoldable pub is_browser_port : Bytes → Bool
is_browser_port [] = true
is_browser_port (c ∷ s) =
    (c == b':') && elim (number_of 5 s) [ none ↦ false | some (digits, rest) ↦ is_empty rest ]

-- (?:\.[a-zA-Z0-9_\-.]+)?(?::\d{1,5})?$
unfoldable pub is_host_end : Bytes → Bool
is_host_end [] = true
is_host_end (c ∷ s) =
    if c == b'.'
    then (let (domain, rest) = run_while is_domain_byte s in
        not (is_empty domain) && is_browser_port rest)
    else is_browser_port (c ∷ s)

-- (?:-(\d{1,5}))? and the end: the port, if there is one.
unfoldable pub port_and_end : Bytes → Option (Option Bytes)
port_and_end s = elim (cut_prefix s (codes "-")) [
  | none ↦ if is_host_end s then some none else none
  | some after ↦ do
    (digits, rest) ← number_of 5 after
    (if is_host_end rest then some (some digits) else none)
]

-- The match behind an "ip".
unfoldable pub match_encoding : Bytes → Option Match
match_encoding s = do
  (a, s1) ← octet_dash s
  (b, s2) ← octet_dash s1
  (c, s3) ← octet_dash s2
  (d, s4) ← octet_dash s3
  (let (token, s5) = run_while is_token_byte s4 in
      if is_empty token then none else do
        port ← port_and_end s5
        some (record {
          octet_0 = a;
          octet_1 = b;
          octet_2 = c;
          octet_3 = d;
          session = token;
          port = port;
        }))

-- hostRe.FindStringSubmatch: the front does not match a newline.
unfoldable pub find_encoding : Bytes → Option Match
find_encoding [] = none
find_encoding (c ∷ s) =
    let later = find_encoding s in
    if c == 10
    then none
    else elim later [ some m ↦ some m | none ↦ cut_prefix (c ∷ s) (codes "ip") >>= match_encoding ]

-- n <= 255, for strconv.Atoi of an octet.
unfoldable pub is_octet : Bytes → Bool
is_octet digits = leb (digits_value digits) 255

unfoldable pub dotted : Match → Bytes
dotted m = m.octet_0 ++ b'.' ∷ (m.octet_1 ++ b'.' ∷ (m.octet_2 ++ b'.' ∷ m.octet_3))

unfoldable pub octets_fit : Match → Bool
octets_fit m = is_octet m.octet_0 && is_octet m.octet_1 && is_octet m.octet_2 && is_octet m.octet_3

-- p < 1 || p > 65535, negated.
unfoldable pub is_port : ℕ → Bool
is_port p = leb 1 p && leb p 65535

-- The results of DecodeHost.
pub data Decoded : Type 0 where
  no_instance octet_too_large invalid_port : Decoded
  target : Target → Decoded

unfoldable pub decode_match : Match → ℕ → Decoded
decode_match m default_port = if not (octets_fit m) then octet_too_large else elim m.port [
  | none ↦ target (record { ip = dotted m; port = default_port; session_id = m.session })
  | some digits ↦
      let p = digits_value digits in
      if is_port p
      then target (record { ip = dotted m; port = p; session_id = m.session })
      else invalid_port
]

-- DecodeHost
unfoldable pub decode_host : Bytes → ℕ → Decoded
decode_host host default_port = elim (find_encoding host) [
  | none ↦ no_instance
  | some m ↦ decode_match m default_port
]
