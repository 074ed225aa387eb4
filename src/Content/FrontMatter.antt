-- ===== src/Content/FrontMatter.antt =====
-- internal/content/content.go: the front matter of a lesson.
use training_platform.Shared.{
  Bytes, codes, true, false, Bool, true, ◌||◌, Option, none, some, [], ◌∷◌, ◌==◌, if◌then◌else◌,
  cut_prefix,
}
use training_platform.Shared.Int.{pos}
use training_platform.Content.Blocks.{ExerciseMatter, is_space}
use training_platform.Content.Terminals.{TerminalMatter}

-- type FrontMatter struct: what the terminals read of it, what the exercises do, and the rest.
pub record FrontMatter : Type 0 where
  pub title : Bytes
  pub image : Bytes
  pub terminal : TerminalMatter
  pub exercise : ExerciseMatter
  pub expect : Bytes
  pub expect_regex : Bytes

-- The zero value.
unfoldable pub no_front_matter : FrontMatter
no_front_matter = record {
  title = [];
  image = [];
  terminal = record { terms = none; term_images = [] };
  exercise = record { phash = []; result = []; threshold = pos 0 };
  expect = [];
  expect_regex = [];
}

-- strings.TrimLeft(s, "\r\n")
unfoldable pub trim_newlines : Bytes → Bytes
trim_newlines [] = []
trim_newlines (c ∷ s) = let rest = trim_newlines s in if (c == 13) || (c == 10) then rest else c ∷ s

-- \s*$ of the closing rule: what follows the last end of a line among the blanks, with that end.
unfoldable pub rule_end : Bytes → Option Bytes
rule_end [] = some []
rule_end (c ∷ s) =
    let deeper = rule_end s in
    if is_space c
    then elim deeper [ some rest ↦ some rest | none ↦ if c == 10 then some (c ∷ s) else none ]
    else none

-- ^---\s*$ at the start of a text: what follows. `at_start` says whether the text begins a line.
unfoldable pub rule_at : Bool → Bytes → Option Bytes
rule_at false s = none
rule_at true s = elim (cut_prefix s (codes "---")) [ none ↦ none | some rest ↦ rule_end rest ]

-- The first match of that expression: the text before it and the one behind it.
unfoldable pub closing_rule : Bool → Bytes → Option (Bytes × Bytes)
closing_rule at_start [] = none
closing_rule at_start (c ∷ s) =
    let later = closing_rule (c == 10) s in
    elim (rule_at at_start (c ∷ s)) [
      | some behind ↦ some ([], behind)
      | none ↦ elim later [ none ↦ none | some (before, behind) ↦ some (c ∷ before, behind) ]
    ]

-- splitFrontMatter. `yaml` is yaml.Unmarshal.
unfoldable pub split_front_matter :
    (Bytes → Option FrontMatter) → Bytes → Option (FrontMatter × Bytes)
split_front_matter yaml src = elim (cut_prefix src (codes "---")) [
  | none ↦ some (no_front_matter, src)
  | some rest ↦ elim (closing_rule true (trim_newlines rest)) [
    | none ↦ none
    | some (header, body) ↦ elim (yaml header) [
      | none ↦ none
      | some fm ↦ some (fm, trim_newlines body)
    ]
  ]
]
