-- ===== src/Shared/Hex.antt =====
-- Hexadecimal text: encoding/hex, fmt's %016x and strconv.ParseUint(s, 16, 64).
use mathlib.Core.List.{foldl, foldl-append}
use training_platform.Shared.{
  Bytes, ℕ, zero, suc, ◌+◌, ◌-◌, ◌*◌, ◌/◌, ◌%◌, ◌^◌, ◌<◌, ◌≡◌, ◌≢◌, refl, ◌∙◌, Bool, true, not,
  ◌&&◌, ◌||◌, Option, none, some, [], ◌∷◌, ◌++◌, arith, ltb, leb, if◌then◌else◌, all, all-append,
  is_empty, not_empty,
}

-- A digit of the lower-case alphabet.
unfoldable pub hex_digit : ℕ → ℕ
hex_digit n = if ltb n 10 then 48 + n else 87 + n

unfoldable pub is_hex_digit : ℕ → Bool
is_hex_digit c =
    (leb b'0' c && leb c b'9') || (leb b'a' c && leb c b'f') || (leb b'A' c && leb c b'F')

unfoldable pub hex_digit_value : ℕ → ℕ
hex_digit_value c = if leb c b'9' then c - 48 else if leb c b'F' then c - 55 else c - 87

-- hex.EncodeToString
unfoldable pub hex_encode : Bytes → Bytes
hex_encode [] = []
hex_encode (c ∷ s) = hex_digit (c / 16) ∷ hex_digit (c % 16) ∷ hex_encode s

-- The last `k` digits of a number, padded with zeros: %016x of a uint64 is sixteen of them.
unfoldable pub hex_digits : ℕ → ℕ → Bytes
hex_digits zero n = []
hex_digits (suc k) n = hex_digits k (n / 16) ++ hex_digit (n % 16) ∷ []

abbrev next_hex : ℕ → ℕ → ℕ
next_hex acc c = acc * 16 + hex_digit_value c

unfoldable pub hex_value : Bytes → ℕ
hex_value = foldl next_hex 0

-- strconv.ParseUint(s, 16, 64): `none` is either of its errors.
unfoldable pub parse_uint_hex : Bytes → Option ℕ
parse_uint_hex s =
    if is_empty s
    then none
    else if not (all is_hex_digit s)
    then none
    else if ltb (hex_value s) (2 ^ 64)
    then some (hex_value s)
    else none

pub hex_digit-is_hex_digit : (n : ℕ) → n < 16 → is_hex_digit (hex_digit n) ≡ true
unfolding is_hex_digit hex_digit
hex_digit-is_hex_digit n h = ground arith

hex_digit_value-hex_digit : (n : ℕ) → n < 16 → hex_digit_value (hex_digit n) ≡ n
unfolding hex_digit_value hex_digit
hex_digit_value-hex_digit n h = ground arith

pub hex_digits-all : (k n : ℕ) → all is_hex_digit (hex_digits k n) ≡ true
unfolding hex_digits all
hex_digits-all zero n = refl
hex_digits-all (suc k) n =
    all-append is_hex_digit (hex_digits k (n / 16)) (hex_digit (n % 16) ∷ [])
    ∙ ground (arith, hex_digits-all k (n / 16), hex_digit-is_hex_digit (n % 16))

pub hex_encode-all :
    (s : Bytes) → all (λ c. ltb c 256) s ≡ true → all is_hex_digit (hex_encode s) ≡ true
unfolding hex_encode all
hex_encode-all [] h = refl
hex_encode-all (c ∷ s) h =
    ground
      (arith, hex_digit-is_hex_digit (c / 16), hex_digit-is_hex_digit (c % 16), hex_encode-all s)

hex_value-hex_digits : (k n : ℕ) → n < 16 ^ k → hex_value (hex_digits k n) ≡ n
unfolding hex_digits hex_value
hex_value-hex_digits zero n h = ground arith
hex_value-hex_digits (suc k) n h = rw foldl-append (
    omega (
      arith,
      hex_value-hex_digits k (n / 16) (grind arith),
      hex_digit_value-hex_digit (n % 16) (omega arith),
    ))

snoc_not_empty : (s : Bytes) (c : ℕ) → s ++ c ∷ [] ≢ []
snoc_not_empty [] c h = cc
snoc_not_empty (d ∷ s) c h = cc

hex_digits-not_empty : (k n : ℕ) → hex_digits (suc k) n ≢ []
unfolding hex_digits
hex_digits-not_empty k n = snoc_not_empty (hex_digits k (n / 16)) (hex_digit (n % 16))

-- A uint64 is read back from its sixteen digits.
pub parse_uint_hex-hex_digits : (n : ℕ) → n < 2 ^ 64 → parse_uint_hex (hex_digits 16 n) ≡ some n
unfolding parse_uint_hex
parse_uint_hex-hex_digits n h = ground (
  arith,
  not_empty (hex_digits 16 n) (hex_digits-not_empty 15 n),
  hex_digits-all 16 n,
  hex_value-hex_digits 16 n (omega arith),
)
