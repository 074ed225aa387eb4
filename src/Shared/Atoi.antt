-- ===== src/Shared/Atoi.antt =====
-- strconv.Atoi, where an int has 64 bits.
use training_platform.Shared.{
  Bytes, ℕ, zero, suc, ◌^◌, ◌<◌, ◌≡◌, ◌≢◌, refl, ap, ◌∙◌, true, not, ◌||◌, Option, none, some, [],
  ◌∷◌, arith, ltb, lt→ltb, ◌==◌, if◌then◌else◌, all, is_empty, not_empty,
}
use training_platform.Shared.Int.{ℤ, pos, negsuc}
use training_platform.Shared.Decimal.{
  format_d, format_ℕ, is_digit, digits_value, print_digits, print_digits-all,
  digits_value-print_digits, print_digits-not_empty,
}

-- An int64.
abbrev pub IsInt64 : ℤ → Type 0
IsInt64 (pos n) = n < 2 ^ 63
IsInt64 (negsuc n) = n < 2 ^ 63

-- A text of digits, and nothing else.
unfoldable pub atoi_digits : Bytes → Option ℕ
atoi_digits s = if is_empty s || not (all is_digit s) then none else some (digits_value s)

unfoldable pub in_range : Option ℕ → Option ℤ
in_range none = none
in_range (some n) = if ltb n (2 ^ 63) then some (pos n) else none

unfoldable pub neg_in_range : Option ℕ → Option ℤ
neg_in_range none = none
neg_in_range (some zero) = some (pos 0)
neg_in_range (some (suc n)) = if ltb n (2 ^ 63) then some (negsuc n) else none

-- strconv.Atoi(s): `none` is either of its errors.
unfoldable pub atoi : Bytes → Option ℤ
atoi [] = none
atoi (c ∷ s) =
    if c == b'-'
    then neg_in_range (atoi_digits s)
    else if c == b'+'
    then in_range (atoi_digits s)
    else in_range (atoi_digits (c ∷ s))

atoi_digits-format : (n : ℕ) → atoi_digits (format_ℕ n) ≡ some n
unfolding atoi_digits format_ℕ
atoi_digits-format n = ground (
  arith,
  not_empty (print_digits (suc n) n) (print_digits-not_empty n n),
  print_digits-all (suc n) n,
  digits_value-print_digits (suc n) n,
)

-- Text that begins with a digit has no sign.
atoi-digits : (s : Bytes) → s ≢ [] → all is_digit s ≡ true → atoi s ≡ in_range (atoi_digits s)
unfolding atoi is_digit all
atoi-digits [] ne h = absurd (ne refl)
atoi-digits (c ∷ s) ne h = ground arith

atoi-pos : (n : ℕ) → n < 2 ^ 63 → atoi (format_d (pos n)) ≡ some (pos n)
unfolding format_d in_range
atoi-pos n h =
    atoi-digits (format_ℕ n) (unfold format_ℕ in print_digits-not_empty n n)
      (unfold format_ℕ in print_digits-all (suc n) n)
    ∙ ap in_range (atoi_digits-format n)
    ∙ rw (lt→ltb n (2 ^ 63) h)

atoi-negsuc : (n : ℕ) → n < 2 ^ 63 → atoi (format_d (negsuc n)) ≡ some (negsuc n)
unfolding format_d atoi neg_in_range
atoi-negsuc n h = ap neg_in_range (atoi_digits-format (suc n)) ∙ rw (lt→ltb n (2 ^ 63) h)

-- An int is read back from its decimal text.
pub atoi-format_d : (z : ℤ) → IsInt64 z → atoi (format_d z) ≡ some z
atoi-format_d (pos n) h = atoi-pos n h
atoi-format_d (negsuc n) h = atoi-negsuc n h
