-- ===== src/Router/Targets.antt =====
-- What a decoded host can point at.
use training_platform.Shared.{
  is_empty, Bytes, codes, ℕ, ◌≡◌, ◌⊎◌, true, false, some, [], ◌∷◌, arith, all, cut_prefix,
  Option-cases, inl, inr,
}
use training_platform.Shared.Runs.{run_while, run_while-all}
use training_platform.Shared.Decimal.{is_digit}
use training_platform.Session.Pods.{is_token_byte}
use training_platform.Router.{
  Target, Match, number_of, octet_dash, port_and_end, match_encoding, find_encoding, dotted,
  octets_fit, is_port, target, decode_match, decode_host,
}

-- Digits, at least one.
abbrev pub IsDigits : Bytes → Type 0
IsDigits d = (all is_digit d ≡ true) × (is_empty d ≡ false)

number_of-IsDigits : (n : ℕ) (s d r : Bytes) → number_of n s ≡ some (d, r) → IsDigits d
unfolding number_of
number_of-IsDigits n s d r h = ground (arith, run_while-all is_digit s)

octet_dash-IsDigits : (s d r : Bytes) → octet_dash s ≡ some (d, r) → IsDigits d
unfolding octet_dash
octet_dash-IsDigits s d r h = elim (Option-cases (number_of 3 s)) [
  | inl e ↦ absurd (ground arith)
  | inr ((x, y), e) ↦ elim (Option-cases (cut_prefix y (codes "-"))) [
    | inl k ↦ absurd (ground arith)
    | inr (z, k) ↦ ground (arith, number_of-IsDigits 3 s x y e)
  ]
]

-- The four numbers are digits, and the session is a token.
abbrev pub IsMatch : Match → Type 0
IsMatch m =
    IsDigits m.octet_0
    × IsDigits m.octet_1
    × IsDigits m.octet_2
    × IsDigits m.octet_3
    × (all is_token_byte m.session ≡ true)
    × (is_empty m.session ≡ false)

match_encoding-IsMatch : (s : Bytes) (m : Match) → match_encoding s ≡ some m → IsMatch m
unfolding match_encoding
match_encoding-IsMatch s m h = elim (Option-cases (octet_dash s)) [
  | inl e ↦ absurd (ground arith)
  | inr ((a, s1), ea) ↦ elim (Option-cases (octet_dash s1)) [
    | inl e ↦ absurd (ground arith)
    | inr ((b, s2), eb) ↦ elim (Option-cases (octet_dash s2)) [
      | inl e ↦ absurd (ground arith)
      | inr ((c, s3), ec) ↦ elim (Option-cases (octet_dash s3)) [
        | inl e ↦ absurd (ground arith)
        | inr ((d, s4), ed) ↦ elim (Option-cases (port_and_end (run_while is_token_byte s4).1)) [
          | inl e ↦ absurd (ground arith)
          | inr (p, ep) ↦ ground (
            arith,
            octet_dash-IsDigits s a s1 ea,
            octet_dash-IsDigits s1 b s2 eb,
            octet_dash-IsDigits s2 c s3 ec,
            octet_dash-IsDigits s3 d s4 ed,
            run_while-all is_token_byte s4,
          )
        ]
      ]
    ]
  ]
]

find_encoding-IsMatch : (s : Bytes) (m : Match) → find_encoding s ≡ some m → IsMatch m
unfolding find_encoding
find_encoding-IsMatch [] m h = cc
find_encoding-IsMatch (c ∷ s) m h = elim (Option-cases (find_encoding s)) [
  | inr (n, e) ↦ ground (arith, find_encoding-IsMatch s m)
  | inl e ↦ elim (Option-cases (cut_prefix (c ∷ s) (codes "ip"))) [
    | inl k ↦ absurd (ground arith)
    | inr (r, k) ↦ ground (arith, match_encoding-IsMatch r m)
  ]
]

-- A host that is decoded points at four numbers of digits, each at most 255, joined by dots; at a
-- port between 1 and 65535, or the default one; and it names a session by a token that is not empty
-- and has only the bytes that the tokens of instance environments have.
pub decode_host_lem :
    (host : Bytes) (default_port : ℕ) (t : Target)
    → decode_host host default_port ≡ target t
    → (m : Match) × (t.ip ≡ dotted m)
      × (octets_fit m ≡ true)
      × IsMatch m
      × (t.session_id ≡ m.session)
      × ((t.port ≡ default_port) ⊎ (is_port t.port ≡ true))
unfolding decode_host decode_match
decode_host_lem host default_port t h = elim (Option-cases (find_encoding host)) [
  | inl e ↦ absurd (ground arith)
  | inr (m, e) ↦
      (m, ground arith, ground arith, find_encoding-IsMatch host m e, ground arith, ground arith)
]
