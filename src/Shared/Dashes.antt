-- ===== src/Shared/Dashes.antt =====
-- Names of lower-case letters, digits and dashes: strings.Trim(s, "-"), and what it leaves.
use training_platform.Shared.Text.{Bytes, is_empty}
use training_platform.Shared.Lists.{all}
use training_platform.Shared.Tests.{leb, ◌==◌, if◌then◌else◌}
use Prim.Native.Nat.{ℕ}
use mathlib.Core.Path.{◌≡◌, refl}
use mathlib.Core.Bool.{Bool, true, false, ◌&&◌, ◌||◌}
use mathlib.Core.List.{[], ◌∷◌, ◌++◌}
use native.Mathlib.Omega.{arith}

-- [a-z0-9]
unfoldable pub is_name_char : ℕ → Bool
is_name_char c = (leb b'a' c && leb c b'z') || (leb b'0' c && leb c b'9')

unfoldable pub is_label_char : ℕ → Bool
unfolding is_name_char
is_label_char c = is_name_char c || (c == b'-')

unfoldable trim_front_dashes : Bytes → Bytes
trim_front_dashes [] = []
trim_front_dashes (c ∷ s) = let rest = trim_front_dashes s in if c == b'-' then rest else c ∷ s

unfoldable trim_end_dashes : Bytes → Bytes
trim_end_dashes [] = []
trim_end_dashes (c ∷ s) = elim (trim_end_dashes s) [
  | [] ↦ if c == b'-' then [] else c ∷ []
  | d ∷ t ↦ c ∷ d ∷ t
]

unfoldable pub trim_dashes : Bytes → Bytes
unfolding trim_front_dashes trim_end_dashes
trim_dashes s = trim_end_dashes (trim_front_dashes s)

-- Does a text start, or end, with such a character?
unfoldable pub first_is : (ℕ → Bool) → Bytes → Bool
first_is p [] = false
first_is p (c ∷ s) = p c

unfoldable pub last_is : (ℕ → Bool) → Bytes → Bool
last_is p [] = false
last_is p (c ∷ []) = p c
last_is p (c ∷ d ∷ s) = last_is p (d ∷ s)

pub last_is-append :
    (p : ℕ → Bool) (s : Bytes) (c : ℕ) (t : Bytes) → last_is p (s ++ c ∷ t) ≡ last_is p (c ∷ t)
unfolding last_is
last_is-append p [] c t = refl
last_is-append p (a ∷ []) c t = refl
last_is-append p (a ∷ b ∷ s) c t = last_is-append p (b ∷ s) c t

pub last_is-all :
    (p : ℕ → Bool) (c : ℕ) (t : Bytes) → all p (c ∷ t) ≡ true → last_is p (c ∷ t) ≡ true
unfolding last_is all
last_is-all p c [] h = ground arith
last_is-all p c (d ∷ t) h = last_is-all p d t (ground arith)

trim_front_dashes-all :
    (s : Bytes)
    → all is_label_char s ≡ true
    → (all is_label_char (trim_front_dashes s) ≡ true)
      × ((is_empty (trim_front_dashes s) || first_is is_name_char (trim_front_dashes s)) ≡ true)
unfolding trim_front_dashes all first_is is_label_char is_empty
trim_front_dashes-all [] h = (refl, refl)
trim_front_dashes-all (c ∷ s) h = ground (arith, trim_front_dashes-all s)

-- The end: what is left ends with a name's character, and starts as before.
trim_end_dashes-all :
    (s : Bytes)
    → all is_label_char s ≡ true
    → (all is_label_char (trim_end_dashes s) ≡ true)
      × ((is_empty (trim_end_dashes s) || last_is is_name_char (trim_end_dashes s)) ≡ true)
unfolding trim_end_dashes all last_is is_label_char is_empty
trim_end_dashes-all [] h = (refl, refl)
trim_end_dashes-all (c ∷ s) h = ground (arith, trim_end_dashes-all s)

trim_end_dashes-first :
    (s : Bytes) → first_is is_name_char s ≡ true → first_is is_name_char (trim_end_dashes s) ≡ true
unfolding trim_end_dashes first_is is_name_char
trim_end_dashes-first [] h = h
trim_end_dashes-first (c ∷ s) h = ground arith

-- A trimmed text of such characters is empty, or starts and ends with a letter or digit.
pub trim_dashes-all :
    (s : Bytes)
    → all is_label_char s ≡ true
    → let t = trim_dashes s in
      (all is_label_char t ≡ true)
      × ((is_empty t || (first_is is_name_char t && last_is is_name_char t)) ≡ true)
unfolding trim_dashes is_empty first_is trim_end_dashes
trim_dashes-all s h =
    let front = trim_front_dashes s in
    let (kept, starts) = trim_front_dashes-all s h in
    ground (arith, trim_end_dashes-all front, trim_end_dashes-first front)
