-- ===== src/Scoring/Challenge.antt =====
-- internal/scoring/store.go: challenges, their content assertions, and the test for flags of
-- screenshots.
use training_platform.Shared.{
  is_empty, Bytes, codes, str_eq, Bool, true, false, ◌&&◌, ◌||◌, not, Option, none, some, List, [],
  ◌∷◌, leb, length, take, cut_prefix, if◌then◌else◌,
}
use training_platform.Shared.Int.{ℤ}

-- type VerifySpec struct
pub record VerifySpec : Type 0 where
  pub port : ℤ
  pub path : Bytes
  pub expect : Bytes
  pub expect_regex : Bytes

-- type Challenge struct; `verify` is a pointer, nil in most challenges.
pub record Challenge : Type 0 where
  pub hash : Bytes
  pub name : Bytes
  pub value : ℤ
  pub flags : List Bytes
  pub verify : Option VerifySpec

-- strings.Contains(body, sub)
unfoldable pub str_contains : Bytes → Bytes → Bool
unfolding cut_prefix
str_contains [] sub = elim (cut_prefix [] sub) [ none ↦ false | some _ ↦ true ]
str_contains (c ∷ body) sub = elim (cut_prefix (c ∷ body) sub) [
  | none ↦ str_contains body sub
  | some _ ↦ true
]

-- VerifySpec.Matches. `compile` is regexp.Compile: `none` when the pattern is malformed.
unfoldable pub spec_matches : (Bytes → Option (Bytes → Bool)) → VerifySpec → Bytes → Bool
unfolding is_empty
spec_matches compile v body =
    if not (is_empty v.expect)
    then str_contains body v.expect
    else if not (is_empty v.expect_regex)
    then elim (compile v.expect_regex) [ none ↦ false | some re ↦ re body ]
    else false

-- VerifySpec.Assertive, on a pointer that may be nil.
unfoldable pub assertive : Option VerifySpec → Bool
unfolding is_empty
assertive none = false
assertive (some v) = not (is_empty v.expect) || not (is_empty v.expect_regex)

-- isPhashFlag
unfoldable pub is_phash_flag : Bytes → Bool
is_phash_flag flag = leb 7 (length flag) && str_eq (take 6 flag) (codes "phash$")
