-- ===== src/Shared/Base64.antt =====
-- base64.RawURLEncoding: the URL alphabet, no padding. Decoding skips carriage returns and
-- newlines, and does not look at the bits left over at the end.
use training_platform.Shared.{
  Bytes, ℕ, ◌+◌, ◌-◌, ◌*◌, ◌/◌, ◌%◌, ◌<◌, ◌≡◌, ◌≢◌, refl, ◌&&◌, Option, none, some, [], ◌∷◌, All,
  arith, ltb, leb, ◌==◌, if◌then◌else◌,
}

-- The character of a six-bit value.
unfoldable pub symbol : ℕ → ℕ
symbol i =
    if ltb i 26
    then 65 + i
    else if ltb i 52
    then 71 + i
    else if ltb i 62
    then i - 4
    else if i == 62
    then 45
    else 95

-- The value of a character, if it has one.
unfoldable pub symbol_value : ℕ → Option ℕ
symbol_value c =
    if leb 65 c && leb c 90
    then some (c - 65)
    else if leb 97 c && leb c 122
    then some (c - 71)
    else if leb 48 c && leb c 57
    then some (c + 4)
    else if c == 45
    then some 62
    else if c == 95
    then some 63
    else none

unfoldable pub encode : Bytes → Bytes
encode [] = []
encode (a ∷ []) = symbol (a / 4) ∷ symbol (a % 4 * 16) ∷ []
encode (a ∷ b ∷ []) = symbol (a / 4) ∷ symbol (a % 4 * 16 + b / 16) ∷ symbol (b % 16 * 4) ∷ []
encode (a ∷ b ∷ c ∷ rest) =
    symbol (a / 4)
    ∷ symbol (a % 4 * 16 + b / 16)
    ∷ symbol (b % 16 * 4 + c / 64)
    ∷ symbol (c % 64)
    ∷ encode rest

infixl 5 ◌>>=◌
abbrev pub ◌>>=◌ {ℓ κ} : {A : Type ℓ} {B : Type κ} → Option A → (A → Option B) → Option B
none >>= f = none
some a >>= f = f a

-- The bytes of a text of symbols; a single symbol at the end is an error.
unfoldable pub decode_symbols : Bytes → Option Bytes
decode_symbols [] = some []
decode_symbols (p ∷ []) = none
decode_symbols (p ∷ q ∷ []) = do
  w ← symbol_value p
  x ← symbol_value q
  some ((w * 4 + x / 16) ∷ [])
decode_symbols (p ∷ q ∷ r ∷ []) = do
  w ← symbol_value p
  x ← symbol_value q
  y ← symbol_value r
  some ((w * 4 + x / 16) ∷ (x % 16 * 16 + y / 4) ∷ [])
decode_symbols (p ∷ q ∷ r ∷ s ∷ rest) =
    let tail = decode_symbols rest in
    do
      w ← symbol_value p
      x ← symbol_value q
      y ← symbol_value r
      z ← symbol_value s
      t ← tail
      some ((w * 4 + x / 16) ∷ (x % 16 * 16 + y / 4) ∷ (y % 4 * 64 + z) ∷ t)

unfoldable pub skip_newlines : Bytes → Bytes
skip_newlines [] = []
skip_newlines (c ∷ s) =
    let rest = skip_newlines s in if c == 10 then rest else if c == 13 then rest else c ∷ rest

unfoldable pub decode : Bytes → Option Bytes
decode s = decode_symbols (skip_newlines s)

abbrev pub AreBytes : Bytes → Type 0
AreBytes = All (λ c. c < 256)

symbol_value-symbol : (i : ℕ) → i < 64 → symbol_value (symbol i) ≡ some i
unfolding symbol symbol_value
symbol_value-symbol i h = ground arith

decode_symbols-encode : (s : Bytes) → AreBytes s → decode_symbols (encode s) ≡ some s
unfolding encode decode_symbols
decode_symbols-encode [] h = refl
decode_symbols-encode (a ∷ []) h =
    rw (symbol_value-symbol (a / 4) (omega arith), symbol_value-symbol (a % 4 * 16) (omega arith))
      (ground arith)
decode_symbols-encode (a ∷ b ∷ []) h =
    rw
      (
        symbol_value-symbol (a / 4) (omega arith),
        symbol_value-symbol (a % 4 * 16 + b / 16) (omega arith),
        symbol_value-symbol (b % 16 * 4) (omega arith),
      )
      (ground arith)
decode_symbols-encode (a ∷ b ∷ c ∷ rest) h =
    rw
      (
        symbol_value-symbol (a / 4) (omega arith),
        symbol_value-symbol (a % 4 * 16 + b / 16) (omega arith),
        symbol_value-symbol (b % 16 * 4 + c / 64) (omega arith),
        symbol_value-symbol (c % 64) (omega arith),
        decode_symbols-encode rest h.1.1.1,
      )
      (ground arith)

-- A character of the alphabet: no newline, no carriage return, no dot.
abbrev pub IsPlain : ℕ → Type 0
IsPlain c = (c ≢ 10) × (c ≢ 13) × (c ≢ 46)

symbol-IsPlain : (i : ℕ) → i < 64 → IsPlain (symbol i)
unfolding symbol
symbol-IsPlain i h = ground arith

pub encode-IsPlain : (s : Bytes) → AreBytes s → All IsPlain (encode s)
unfolding encode
encode-IsPlain [] h = tt
encode-IsPlain (a ∷ []) h = (symbol-IsPlain _ (omega arith), (symbol-IsPlain _ (omega arith), tt))
encode-IsPlain (a ∷ b ∷ []) h = (
  symbol-IsPlain _ (omega arith),
  (symbol-IsPlain _ (omega arith), (symbol-IsPlain _ (omega arith), tt)),
)
encode-IsPlain (a ∷ b ∷ c ∷ rest) h = (
  symbol-IsPlain _ (omega arith),
  (
    symbol-IsPlain _ (omega arith),
    (symbol-IsPlain _ (omega arith), (symbol-IsPlain _ (omega arith), encode-IsPlain rest h.1.1.1)),
  ),
)

skip_newlines-IsPlain : (s : Bytes) → All IsPlain s → skip_newlines s ≡ s
unfolding skip_newlines
skip_newlines-IsPlain [] h = refl
skip_newlines-IsPlain (c ∷ s) h = ground (arith, skip_newlines-IsPlain s h.1)

-- Decoding gives back what was encoded.
pub decode-encode : (s : Bytes) → AreBytes s → decode (encode s) ≡ some s
unfolding decode
decode-encode s h =
    rw (skip_newlines-IsPlain (encode s) (encode-IsPlain s h)) (decode_symbols-encode s h)
