-- ===== src/Auth/Cookie.antt =====
-- internal/auth/auth.go, cookie signing: the value is the encoded payload, a dot, and the encoded
-- HMAC-SHA256 of the payload, which is the parameter `Hmac`.
use training_platform.Shared.{
  Bytes, ℕ, ◌≡◌, refl, Option, none, some, [], ◌∷◌, ◌++◌, All, arith, str_eq, str_eq_iff, cut,
  if◌then◌else◌, Option-cases, inl, inr,
}
use training_platform.Shared.Base64
use training_platform.Shared.Base64.{AreBytes, IsPlain, encode-IsPlain, decode-encode}

-- hmac.New(sha256.New, secret), written to and summed: some bytes for each payload.
pub record Hmac : Type 0 where
  pub mac : Bytes → Bytes → Bytes
  pub mac_bytes : (secret payload : Bytes) → AreBytes (mac secret payload)

-- Manager.sign
unfoldable pub sign : Hmac → Bytes → Bytes → Bytes
sign h secret payload = Base64.encode payload ++ b'.' ∷ Base64.encode (h.mac secret payload)

-- Manager.verify: strings.SplitN(v, ".", 2) has two parts exactly if there is a dot.
unfoldable pub verify : Hmac → Bytes → Bytes → Option Bytes
verify h secret v =
    let (first, rest) = cut b'.' v in
    elim rest [
      | none ↦ none
      | some signature ↦ elim (Base64.decode first) [
        | none ↦ none
        | some payload ↦
            if str_eq (Base64.encode (h.mac secret payload)) signature then some payload else none
      ]
    ]

cut-IsPlain : (s t : Bytes) → All IsPlain s → cut b'.' (s ++ b'.' ∷ t) ≡ (s, some t)
unfolding cut
cut-IsPlain [] t h = refl
cut-IsPlain (c ∷ s) t h = ground (arith, cut-IsPlain s t h.1)

cut_parts : (sep : ℕ) (v rest : Bytes) → (cut sep v).1 ≡ some rest → v ≡ (cut sep v).0 ++ sep ∷ rest
unfolding cut
cut_parts sep [] rest h = cc
cut_parts sep (c ∷ v) rest h = ground (arith, cut_parts sep v rest)

module _ (h : Hmac) (secret : Bytes) where
  -- The platform accepts its own cookies, and reads the payload that was signed.
  pub verify-sign :
      (payload : Bytes) → AreBytes payload → verify h secret (sign h secret payload) ≡ some payload
  unfolding verify sign
  verify-sign payload bytes =
      let signature = Base64.encode (h.mac secret payload) in
      ground (
        arith,
        cut-IsPlain (Base64.encode payload) signature (encode-IsPlain payload bytes),
        decode-encode payload bytes,
        str_eq_iff signature signature,
      )

  -- Whatever value is accepted for a payload carries the HMAC of that payload behind a dot, and in
  -- front of it a text that decodes to the payload.
  pub verify_sound :
      (v payload : Bytes)
      → verify h secret v ≡ some payload
      → (first : Bytes) × (v ≡ first ++ b'.' ∷ Base64.encode (h.mac secret payload))
        × (Base64.decode first ≡ some payload)
  unfolding verify
  verify_sound v payload e = elim (Option-cases (cut b'.' v).1) [
    | inl q ↦ absurd (ground arith)
    | inr (rest, q) ↦ elim (Option-cases (Base64.decode (cut b'.' v).0)) [
      | inl d ↦ absurd (ground arith)
      | inr (p, d) ↦
          let same = str_eq_iff (Base64.encode (h.mac secret p)) rest in
          ((cut b'.' v).0, ground (arith, cut_parts b'.' v rest q, same), ground (arith, same))
    ]
  ]
