-- ===== src/Shared/Text.antt =====
-- Go's strings: lists of bytes, with the operations of package `strings` that the program uses.
use Prim.Native.Nat.{ℕ}
use Prim.Native.Char.{code}
use Prim.Native.String.{String}
use mathlib.Core.Path.{◌≡◌, refl}
use mathlib.Core.Logic.{◌↔◌, ◌≢◌}
use mathlib.Core.Bool.{Bool, true, false, not, ◌&&◌}
use mathlib.Core.Option.{Option, none, some}
use mathlib.Core.List.{List, [], ◌∷◌, ◌++◌}
use native.Mathlib.Omega.{arith}
use training_platform.Shared.Lists.{all}
use training_platform.Shared.Tests.{ltb, ◌==◌, if◌then◌else◌}

abbrev pub Bytes : Type 0
Bytes = List ℕ

-- The bytes of an ASCII literal.
abbrev pub codes : String → Bytes
codes String.[] = []
codes (String.◌∷◌ c s) = code c ∷ codes s

-- s == t
unfoldable pub str_eq : Bytes → Bytes → Bool
str_eq [] [] = true
str_eq [] (d ∷ t) = false
str_eq (c ∷ s) [] = false
str_eq (c ∷ s) (d ∷ t) = c == d && str_eq s t

-- s == ""
unfoldable pub is_empty : Bytes → Bool
is_empty [] = true
is_empty (c ∷ s) = false

-- s < t, byte by byte.
unfoldable pub str_lt : Bytes → Bytes → Bool
str_lt [] [] = false
str_lt [] (d ∷ t) = true
str_lt (c ∷ s) [] = false
str_lt (c ∷ s) (d ∷ t) = let rest = str_lt s t in if c == d then rest else ltb c d

-- strings.CutPrefix(s, p): what follows the prefix, if `s` has it.
unfoldable pub cut_prefix : Bytes → Bytes → Option Bytes
cut_prefix s [] = some s
cut_prefix [] (d ∷ p) = none
cut_prefix (c ∷ s) (d ∷ p) = let rest = cut_prefix s p in if c == d then rest else none

-- strings.Cut(s, sep) at a separator of one byte: the text before the first one and, if there is
-- one, the text behind it.
unfoldable pub cut : ℕ → Bytes → Bytes × Option Bytes
cut sep [] = ([], none)
cut sep (c ∷ s) =
    let (before, after) = cut sep s in if c == sep then ([], some s) else (c ∷ before, after)

pub str_eq_refl : (s : Bytes) → str_eq s s ≡ true
unfolding str_eq
str_eq_refl [] = refl
str_eq_refl (c ∷ s) = ground (arith, str_eq_refl s)

pub str_eq→eq : (s t : Bytes) → str_eq s t ≡ true → s ≡ t
unfolding str_eq
str_eq→eq [] [] h = refl
str_eq→eq [] (d ∷ t) h = ground arith
str_eq→eq (c ∷ s) [] h = ground arith
str_eq→eq (c ∷ s) (d ∷ t) h = ground (arith, str_eq→eq s t)

pub str_eq_iff : (s t : Bytes) → (str_eq s t ≡ true) ↔ (s ≡ t)
str_eq_iff s t = (str_eq→eq s t, λ e. ground (arith, str_eq_refl t))

-- `cut_prefix` undoes a prefix put in front.
pub cut_prefix-append : (p s : Bytes) → cut_prefix (p ++ s) p ≡ some s
unfolding cut_prefix
cut_prefix-append [] s = refl
cut_prefix-append (c ∷ p) s = ground (arith, cut_prefix-append p s)

-- `cut` parts at a separator put behind text that has none.
pub cut-append :
    (sep : ℕ) (s t : Bytes)
    → all (λ c. not (c == sep)) s ≡ true
    → cut sep (s ++ sep ∷ t) ≡ (s, some t)
unfolding cut all
cut-append sep [] t h = ground arith
cut-append sep (c ∷ s) t h = ground (arith, cut-append sep s t)

pub is_empty→eq : (s : Bytes) → is_empty s ≡ true → s ≡ []
unfolding is_empty
is_empty→eq [] h = refl
is_empty→eq (c ∷ s) h = cc

pub not_empty : (s : Bytes) → s ≢ [] → is_empty s ≡ false
unfolding is_empty
not_empty [] h = absurd (h refl)
not_empty (c ∷ s) h = refl
