-- ===== src/Shared/Decimal.antt =====
-- Decimal text: Go's %d in fmt.Sprintf, and in fmt.Sscanf into an int64.
use training_platform.Shared.{
  Bytes, ℕ, zero, suc, ◌+◌, ◌-◌, ◌*◌, ◌/◌, ◌%◌, ◌^◌, ◌<◌, ◌≡◌, ◌≢◌, refl, ◌∙◌, Bool, true, ◌&&◌, [],
  ◌∷◌, ◌++◌, arith, ltb, lt→ltb, leb, ◌==◌, if◌then◌else◌, all, all-append, Bool-cases, inl, inr,
}
use mathlib.Core.List.{foldl, foldl-append}
use training_platform.Shared.Int.{ℤ, pos, negsuc}

-- The digits of a number, with fuel for at least as many divisions as it has digits.
unfoldable pub print_digits : ℕ → ℕ → Bytes
print_digits zero n = []
print_digits (suc fuel) n =
    let front = print_digits fuel (n / 10) in
    let last = 48 + n % 10 in if ltb n 10 then last ∷ [] else front ++ last ∷ []

unfoldable pub format_ℕ : ℕ → Bytes
unfolding print_digits
format_ℕ n = print_digits (suc n) n

-- fmt.Sprintf("%d", z)
unfoldable pub format_d : ℤ → Bytes
unfolding format_ℕ
format_d (pos n) = format_ℕ n
format_d (negsuc n) = b'-' ∷ format_ℕ (suc n)

unfoldable pub is_digit : ℕ → Bool
is_digit c = leb b'0' c && leb c b'9'

unfoldable pub take_digits : Bytes → Bytes
unfolding is_digit
take_digits [] = []
take_digits (c ∷ s) = let rest = take_digits s in if is_digit c then c ∷ rest else []

abbrev next_value : ℕ → ℕ → ℕ
next_value acc c = acc * 10 + (c - 48)

unfoldable pub digits_value : Bytes → ℕ
digits_value = foldl next_value 0

-- The blanks that SkipSpace passes over; a newline is an error there, and leaves the zero.
unfoldable pub skip_space : Bytes → Bytes
skip_space [] = []
skip_space (c ∷ s) =
    let rest = skip_space s in
    if c == 32
    then rest
    else if c == 9
    then rest
    else if c == 11
    then rest
    else if c == 12
    then rest
    else if c == 13
    then rest
    else c ∷ s

-- strconv.ParseInt of the digits of a token: `pos 0` stands for an error, after which Sscanf
-- leaves the variable at its zero.
parse_pos : Bytes → ℤ
parse_pos s = let n = digits_value s in if ltb n (2 ^ 63) then pos n else pos 0

parse_neg : Bytes → ℤ
parse_neg s = elim (digits_value s) [
  | zero ↦ pos 0
  | suc n ↦ if ltb n (2 ^ 63) then negsuc n else pos 0
]

unfoldable pub scan_signed : Bytes → ℤ
unfolding parse_pos parse_neg take_digits digits_value
scan_signed [] = pos 0
scan_signed (c ∷ s) =
    if c == b'-'
    then parse_neg (take_digits s)
    else if c == b'+'
    then parse_pos (take_digits s)
    else parse_pos (take_digits (c ∷ s))

-- The variable after fmt.Sscanf(s, "%d", &v), from v = 0.
unfoldable pub sscanf_d : Bytes → ℤ
unfolding scan_signed skip_space
sscanf_d s = scan_signed (skip_space s)

pub print_digits-all : (fuel n : ℕ) → all is_digit (print_digits fuel n) ≡ true
unfolding print_digits all is_digit
print_digits-all zero n = refl
print_digits-all (suc fuel) n = elim (Bool-cases (ltb n 10)) [
  | inl e ↦ rw e (ground arith)
  | inr e ↦
      rw (e, all-append is_digit (print_digits fuel (n / 10)) ((48 + n % 10) ∷ []))
        (rw (print_digits-all fuel (n / 10)) (ground arith))
]

pub digits_value-print_digits : (fuel n : ℕ) → n < fuel → digits_value (print_digits fuel n) ≡ n
unfolding print_digits digits_value
digits_value-print_digits zero n h = elim h [ ]
digits_value-print_digits (suc fuel) n h = elim (Bool-cases (ltb n 10)) [
  | inl e ↦ rw e (ground arith)
  | inr e ↦
      rw (e, foldl-append)
        (rw (digits_value-print_digits fuel (n / 10) (ground arith)) (omega arith))
]

take_digits-all : (s : Bytes) → all is_digit s ≡ true → take_digits s ≡ s
unfolding take_digits all
take_digits-all [] h = refl
take_digits-all (c ∷ s) h = ground (arith, take_digits-all s)

-- Text that begins with a digit: SkipSpace leaves it, and there is no sign.
scan_digits : (s : Bytes) → s ≢ [] → all is_digit s ≡ true → sscanf_d s ≡ parse_pos s
unfolding sscanf_d is_digit all
scan_digits [] ne h = absurd (ne refl)
scan_digits (c ∷ s) ne h = ground (arith, take_digits-all (c ∷ s) h)

snoc_not_empty : (s : Bytes) (c : ℕ) → s ++ c ∷ [] ≢ []
snoc_not_empty [] c h = cc
snoc_not_empty (d ∷ s) c h = cc

pub print_digits-not_empty : (fuel n : ℕ) → print_digits (suc fuel) n ≢ []
unfolding print_digits
print_digits-not_empty fuel n = elim (Bool-cases (ltb n 10)) [
  | inl e ↦ rw e (λ h. cc)
  | inr e ↦ rw e (snoc_not_empty (print_digits fuel (n / 10)) (48 + n % 10))
]

-- A time of an int64 that is not negative is read back as it was printed.
pub sscanf_d-format_d : (n : ℕ) → n < 2 ^ 63 → sscanf_d (format_d (pos n)) ≡ pos n
unfolding format_d parse_pos
sscanf_d-format_d n h =
    scan_digits (print_digits (suc n) n) (print_digits-not_empty n n) (print_digits-all (suc n) n)
    ∙ rw (digits_value-print_digits (suc n) n (omega arith)) (rw (lt→ltb n (2 ^ 63) h))
