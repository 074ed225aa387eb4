-- ===== src/Content/Render.antt =====
-- internal/content/content.go: a lesson's bytes, rendered into its page and its challenges. The page is
-- the text that layout puts into its template.
pub mod Parts
pub mod ExerciseBlocks
pub mod Checks
pub mod Unused
pub mod Plain
use training_platform.Shared.{
  Bytes, codes, is_empty, Bool, false, not, ◌||◌, Option, none, some, List, [], ◌∷◌, ◌++◌, str_eq,
  if◌then◌else◌,
}
use training_platform.Shared.Int.{ℤ, pos, negsuc}
use training_platform.Shared.Atoi.{atoi}
use training_platform.Scoring.Challenge.{VerifySpec, Challenge}
use training_platform.Scoring.Hash.{Sha256}
use training_platform.Scoring.Phash.{trim_space}
use training_platform.Content.Blocks.{
  ExerciseMatter, split_lines, join_spaces, collect, render_quiz, render_exercise,
}
use training_platform.Content.Markdown.{render_markdown}
use training_platform.Content.Terminals.{terminals, validate_terminals, check_term_refs}
use training_platform.Content.Html.{DemoRouting, default_demo_routing, quiz_html, exercise_html}
use training_platform.Content.DemoLinks.{replace_first, pair_demo_links}
use training_platform.Content.FrontMatter.{FrontMatter, split_front_matter}
use training_platform.Content.Found.{
  match_block, Found, nothing_found, replace_blocks, fill_placeholders,
}

-- The check of what refers to the terminals. Their number has been validated before, so that it is
-- not negative.
unfoldable pub refs_fit : FrontMatter → Bytes → Bool
refs_fit fm html = elim (terminals fm.terminal) [
  | pos n ↦ check_term_refs n html
  | negsuc n ↦ false
]

-- Does the front matter ask for a check of the page's content?
unfoldable pub asks_check : FrontMatter → Bool
asks_check fm = not (is_empty fm.expect) || not (is_empty fm.expect_regex)

-- The check that a routing and the front matter give.
unfoldable pub spec_of : FrontMatter → DemoRouting → ℤ → VerifySpec
spec_of fm r port = record {
  port = port;
  path = r.path;
  expect = fm.expect;
  expect_regex = fm.expect_regex;
}

-- The check, set on the challenges with a hash.
unfoldable pub set_verify : Bytes → VerifySpec → List Challenge → List Challenge
set_verify h spec [] = []
set_verify h spec (c ∷ cs) =
    let rest = set_verify h spec cs in
    (if str_eq c.hash h then record c { verify = some spec } else c) ∷ rest

-- The routing of the next exercise, and those behind it.
unfoldable pub next_routing : List DemoRouting → DemoRouting × List DemoRouting
next_routing [] = (default_demo_routing, [])
next_routing (r ∷ rs) = (r, rs)

-- The loop over the hashes of the exercises: `none` when a port is not a number.
unfoldable pub attach :
    FrontMatter
    → List Bytes
    → List DemoRouting
    → List Challenge
    → Bytes
    → Option (List Challenge × Bytes)
attach fm [] rs cs html = some (cs, html)
attach fm (h ∷ hs) rs cs html =
    let (r, later) = next_routing rs in
    elim (atoi r.port) [
      | none ↦ none
      | some port ↦
          let button = codes "data-hash-code=\"" ++ h ++ codes "\"" in
          attach fm hs later (set_verify h (spec_of fm r port) cs)
            (replace_first button (button ++ codes " data-verify=\"1\"") html)
    ]

-- type Lesson struct, with the page before layout.
pub record Lesson : Type 0 where
  pub front_matter : FrontMatter
  pub page : Bytes
  pub challenges : List Challenge
  pub exercise_hashes : List Bytes

-- `to_lower` is strings.ToLower, and `resolver` the ExerciseResolver, if there is one.
module _ (sha : Sha256) (to_lower : Bytes → Bytes)
    (resolver : Option (Bytes → ℤ → Option Bytes)) where
  -- A quiz block that was found.
  unfoldable pub add_quiz : Bytes → Bytes → Bytes → Found → Option Found
  add_quiz slug salt inner found = elim (render_quiz sha to_lower slug inner salt) [
    | none ↦ none
    | some (choices, c) ↦
        let question = join_spaces (collect sha salt (split_lines (trim_space inner))).question in
        some (record found {
          challenges = found.challenges ++ c ∷ [];
          placeholders = found.placeholders ++ quiz_html c.hash question choices ∷ [];
        })
  ]

  -- An exercise block that was found.
  unfoldable pub add_exercise : ExerciseMatter → Bytes → Bytes → Found → Option Found
  add_exercise fm slug inner found = elim (render_exercise sha to_lower resolver fm slug inner) [
    | none ↦ none
    | some c ↦ elim (exercise_html c.hash (trim_space inner)) [
      | none ↦ none
      | some block ↦ some (record {
        challenges = found.challenges ++ c ∷ [];
        placeholders = found.placeholders ++ block ∷ [];
        exercise_hashes = found.exercise_hashes ++ c.hash ∷ [];
      })
    ]
  ]

  -- Both passes over the body.
  unfoldable pub find_blocks : FrontMatter → Bytes → Bytes → Bytes → Option (Found × Bytes)
  find_blocks fm slug salt body =
      elim (replace_blocks (match_block (codes "quiz") (codes "endquiz")) (add_quiz slug salt) 0
        body nothing_found) [
          | none ↦ none
          | some (found, text) ↦
              replace_blocks (match_block (codes "exercise") (codes "endexercise"))
                (add_exercise fm.exercise slug) 0 text found
        ]

  -- The page with the blocks in it, the check of its terminals, and the checks of the exercises.
  unfoldable pub finish : FrontMatter → Found → Bytes → Option Lesson
  finish fm found markdown =
      let (html, routings) =
        pair_demo_links (fill_placeholders 0 found.placeholders markdown) found.exercise_hashes in
      let checked = attach fm found.exercise_hashes routings found.challenges html in
      if not (refs_fit fm html)
      then none
      else elim (if asks_check fm then checked else some (found.challenges, html)) [
        | none ↦ none
        | some (cs, page) ↦ some (record {
          front_matter = fm;
          page = page;
          challenges = cs;
          exercise_hashes = found.exercise_hashes;
        })
      ]

  -- Render
  unfoldable pub render : (Bytes → Option FrontMatter) → Bytes → Bytes → Bytes → Option Lesson
  render yaml slug src salt = elim (split_front_matter yaml src) [
    | none ↦ none
    | some (fm, body) ↦
        if not (validate_terminals fm.terminal)
        then none
        else elim (find_blocks fm slug salt body) [
          | none ↦ none
          | some (found, text) ↦ elim (render_markdown text) [
            | none ↦ none
            | some markdown ↦ finish fm found markdown
          ]
        ]
  ]
