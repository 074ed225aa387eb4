-- ===== src/Content/Found.antt =====
-- internal/content/content.go: the blocks of a lesson, found in its text, and put into its page.
use training_platform.Shared.{
  Bytes, codes, ℕ, zero, suc, ◌-◌, Option, none, some, List, [], ◌∷◌, ◌++◌, length, cut_prefix,
}
use training_platform.Shared.Decimal.{format_ℕ}
use training_platform.Scoring.Challenge.{Challenge}
use training_platform.Content.Blocks.{skip_spaces}
use training_platform.Content.DemoLinks.{replace_first}

-- \{%\s*name\s*%\} at the start of a text: what follows.
unfoldable pub match_tag : Bytes → Bytes → Option Bytes
match_tag name s = elim (cut_prefix s (codes "{%")) [
  | none ↦ none
  | some inner ↦ elim (cut_prefix (skip_spaces inner) name) [
    | none ↦ none
    | some behind ↦ cut_prefix (skip_spaces behind) (codes "%}")
  ]
]

-- The text up to the first such tag, and what follows the tag.
unfoldable pub until_tag : Bytes → Bytes → Option (Bytes × Bytes)
until_tag name [] = none
until_tag name (c ∷ s) =
    let later = until_tag name s in
    elim (match_tag name (c ∷ s)) [
      | some rest ↦ some ([], rest)
      | none ↦ elim later [ none ↦ none | some (inner, rest) ↦ some (c ∷ inner, rest) ]
    ]

-- quizRe and exerciseRe at the start of a text: the inner text, and how many bytes behind the first.
unfoldable pub match_block : Bytes → Bytes → Bytes → Option (Bytes × ℕ)
match_block first last s = elim (match_tag first s) [
  | none ↦ none
  | some after ↦ elim (until_tag last after) [
    | none ↦ none
    | some (inner, rest) ↦ some (inner, length s - length rest - 1)
  ]
]

-- What the blocks of a lesson have given: its challenges, the HTML of each block, and the hashes of
-- its exercises.
pub record Found : Type 0 where
  pub challenges : List Challenge
  pub placeholders : List Bytes
  pub exercise_hashes : List Bytes

unfoldable pub nothing_found : Found
nothing_found = record { challenges = []; placeholders = []; exercise_hashes = [] }

-- placeholderToken
unfoldable pub placeholder_token : ℕ → Bytes
placeholder_token i = codes "<!--BLOCK:" ++ format_ℕ i ++ codes "-->"

-- ReplaceAllStringFunc over the blocks: each is added to what was found before it, and replaced by the
-- placeholder of its number; `none` is the first error.
module _ (match : Bytes → Option (Bytes × ℕ)) (add : Bytes → Found → Option Found) where
  unfoldable pub replace_blocks : ℕ → Bytes → Found → Option (Found × Bytes)
  replace_blocks skip [] found = some (found, [])
  replace_blocks (suc skip) (c ∷ s) found = replace_blocks skip s found
  replace_blocks zero (c ∷ s) found = elim (match (c ∷ s)) [
    | none ↦ elim (replace_blocks zero s found) [
      | none ↦ none
      | some (all_found, text) ↦ some (all_found, c ∷ text)
    ]
    | some (inner, skip) ↦ elim (add inner found) [
      | none ↦ none
      | some more ↦ elim (replace_blocks skip s more) [
        | none ↦ none
        | some (all_found, text) ↦
            some (all_found, 10 ∷ placeholder_token (length found.placeholders) ++ 10 ∷ text)
      ]
    ]
  ]

-- The loop that puts the blocks in place of their placeholders, from number i on.
unfoldable pub fill_placeholders : ℕ → List Bytes → Bytes → Bytes
fill_placeholders i [] html = html
fill_placeholders i (block ∷ blocks) html =
    fill_placeholders (suc i) blocks (replace_first (placeholder_token i) block html)
