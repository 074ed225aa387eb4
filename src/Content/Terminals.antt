-- ===== src/Content/Terminals.antt =====
-- internal/content/content.go: the terminals of a lesson, and the check of what refers to them.
use training_platform.Shared.{
  Bytes, codes, is_empty, ℕ, ◌-◌, ◌^◌, Bool, true, false, ◌&&◌, Option, none, some, List, [], ◌∷◌,
  length, leb, ltb, if◌then◌else◌, cut_prefix,
}
use training_platform.Shared.Runs.{run_while}
use training_platform.Shared.Int.{ℤ, pos, negsuc}
use training_platform.Shared.Decimal.{is_digit, digits_value}

-- MaxTerminals
abbrev pub max_terminals : ℕ
max_terminals = 6

-- FrontMatter, as far as the terminals read it.
pub record TerminalMatter : Type 0 where
  pub terms : Option ℤ
  pub term_images : List Bytes

-- terminals
unfoldable pub terminals : TerminalMatter → ℤ
terminals fm = elim fm.terms [ none ↦ pos 1 | some n ↦ n ]

-- validateTerminals: is there no error?
unfoldable pub validate_terminals : TerminalMatter → Bool
validate_terminals fm = elim (terminals fm) [
  | pos n ↦ leb n max_terminals && leb (length fm.term_images) n
  | negsuc n ↦ false
]

-- strconv.Atoi of a text of digits, whose error is dropped: it stops at the greatest int.
unfoldable pub clamped_int : Bytes → ℕ
clamped_int s = if ltb (digits_value s) (2 ^ 63) then digits_value s else 2 ^ 63 - 1

-- What stands behind the optional ".term" or "term" of a reference.
unfoldable pub behind_term : Bytes → Bytes
behind_term s = elim (cut_prefix s (codes ".term")) [
  | some rest ↦ rest
  | none ↦ elim (cut_prefix s (codes "term")) [ some rest ↦ rest | none ↦ s ]
]

-- termRefRe at the start of a text: the number of the terminal.
unfoldable pub match_term_ref : Bytes → Option ℕ
match_term_ref s = elim (cut_prefix s (codes "data-term=\"")) [
  | none ↦ none
  | some value ↦
      let (digits, rest) = run_while is_digit (behind_term value) in
      if is_empty digits then none else elim (cut_prefix rest (codes "\"")) [
        | none ↦ none
        | some after ↦ some (clamped_int digits)
      ]
]

-- checkTermRefs: is there no error? No match starts inside another one, since a match has one "da",
-- so that each position may be tried. The code remembers what it has seen only to report it once.
unfoldable pub check_term_refs : ℕ → Bytes → Bool
check_term_refs terms [] = true
check_term_refs terms (c ∷ s) =
    let rest = check_term_refs terms s in
    elim (match_term_ref (c ∷ s)) [ none ↦ rest | some n ↦ leb n terms && rest ]
