-- ===== src/Content/Render/Unused.antt =====
-- Where no challenge comes out of a lesson's body, no block was replaced in it.
use training_platform.Shared.{
  Bytes, codes, ℕ, zero, ◌≡◌, ◌≢◌, sym, ap, ◌∙◌, Option, some, List, [], ◌∷◌, ◌++◌, arith,
  Option-cases, inl, inr,
}
use training_platform.Shared.Int.{ℤ}
use training_platform.Scoring.Challenge.{Challenge}
use training_platform.Scoring.Hash.{Sha256}
use training_platform.Scoring.Phash.{trim_space}
use training_platform.Content.Blocks.{ExerciseMatter, render_quiz, render_exercise}
use training_platform.Content.Html.{exercise_html}
use training_platform.Content.FrontMatter.{FrontMatter}
use training_platform.Content.Found.{match_block, Found, nothing_found, replace_blocks}
use training_platform.Content.Render.{add_quiz, add_exercise, find_blocks}
use training_platform.Content.Render.Parts.{replace_blocks_keep}

abbrev HasChallenge : Found → Type 0
HasChallenge f = f.challenges ≢ []

append_one : (cs : List Challenge) (c : Challenge) → cs ++ c ∷ [] ≢ []
append_one [] c h = cc
append_one (d ∷ cs) c h = cc

-- Where no challenge comes out, no block was replaced.
replace_blocks_unused :
    (match : Bytes → Option (Bytes × ℕ)) (add : Bytes → Found → Option Found)
    → ((inner : Bytes) (f g : Found) → add inner f ≡ some g → HasChallenge g)
    → (s text : Bytes) (f g : Found) → replace_blocks match add 0 s f ≡ some (g, text)
    → g.challenges ≡ []
    → (g ≡ f) × (text ≡ s)
unfolding replace_blocks
replace_blocks_unused match add adds [] text f g e h = (ground (arith, e), ground (arith, e))
replace_blocks_unused match add adds (c ∷ s) text f g e h = elim (Option-cases (match (c ∷ s))) [
  | inl k ↦ elim (Option-cases (replace_blocks match add zero s f)) [
    | inl j ↦ absurd (ground (arith, e, k, j))
    | inr ((g', text'), j) ↦
        let same : g' ≡ g = ground (arith, e, k, j) in
        let written : text ≡ c ∷ text' = ground (arith, e, k, j) in
        let (kept, rest) =
          replace_blocks_unused match add adds s text' f g' j
            (ap (λ x. Found.challenges x) same ∙ h) in
        (sym same ∙ kept, written ∙ ap (λ t. c ∷ t) rest)
  ]
  | inr ((inner, skip), k) ↦ elim (Option-cases (add inner f)) [
    | inl i ↦ absurd (ground (arith, e, k, i))
    | inr (more, i) ↦ elim (Option-cases (replace_blocks match add skip s more)) [
      | inl j ↦ absurd (ground (arith, e, k, i, j))
      | inr ((g', text'), j) ↦
          let same : g' ≡ g = ground (arith, e, k, i, j) in
          absurd (
            replace_blocks_keep match add HasChallenge (λ inner' f' g'' _ e'. adds inner' f' g'' e')
              skip s text' more g' (adds inner f more i) j (ap (λ x. Found.challenges x) same ∙ h))
    ]
  ]
]

module _ (sha : Sha256) (to_lower : Bytes → Bytes)
    (resolver : Option (Bytes → ℤ → Option Bytes)) where
  add_quiz-HasChallenge :
      (slug salt inner : Bytes) (f g : Found)
      → add_quiz sha to_lower resolver slug salt inner f ≡ some g
      → HasChallenge g
  unfolding add_quiz
  add_quiz-HasChallenge slug salt inner f g e =
      elim (Option-cases (render_quiz sha to_lower slug inner salt)) [
        | inl k ↦ absurd (ground (arith, e, k))
        | inr ((choices, c), k) ↦ λ h.
            let made : g.challenges ≡ f.challenges ++ c ∷ [] = ground (arith, e, k) in
            append_one f.challenges c (sym made ∙ h)
      ]

  add_exercise-HasChallenge :
      (fm : ExerciseMatter) (slug inner : Bytes) (f g : Found)
      → add_exercise sha to_lower resolver fm slug inner f ≡ some g
      → HasChallenge g
  unfolding add_exercise
  add_exercise-HasChallenge fm slug inner f g e =
      elim (Option-cases (render_exercise sha to_lower resolver fm slug inner)) [
        | inl k ↦ absurd (ground (arith, e, k))
        | inr (c, k) ↦ elim (Option-cases (exercise_html c.hash (trim_space inner))) [
          | inl j ↦ absurd (ground (arith, e, k, j))
          | inr (block, j) ↦ λ h.
              let made : g.challenges ≡ f.challenges ++ c ∷ [] = ground (arith, e, k, j) in
              append_one f.challenges c (sym made ∙ h)
        ]
      ]

  pub find_blocks_unused :
      (fm : FrontMatter) (slug salt body text : Bytes) (found : Found)
      → find_blocks sha to_lower resolver fm slug salt body ≡ some (found, text)
      → found.challenges ≡ []
      → (found ≡ nothing_found) × (text ≡ body)
  unfolding find_blocks
  find_blocks_unused fm slug salt body text found e h =
      let quiz = match_block (codes "quiz") (codes "endquiz") in
      let exercise = match_block (codes "exercise") (codes "endexercise") in
      let add = add_quiz sha to_lower resolver slug salt in
      elim (Option-cases (replace_blocks quiz add 0 body nothing_found)) [
        | inl k ↦ absurd (ground (arith, e, k))
        | inr ((some_found, some_text), k) ↦
            let (first, then_text) =
              replace_blocks_unused exercise (add_exercise sha to_lower resolver fm.exercise slug)
                (add_exercise-HasChallenge fm.exercise slug) some_text text some_found found
                (rw (k, find_blocks) at e) h in
            let (second, rest) =
              replace_blocks_unused quiz add (add_quiz-HasChallenge slug salt) body some_text
                nothing_found some_found k (ap (λ f. Found.challenges f) (sym first) ∙ h) in
            (first ∙ second, then_text ∙ rest)
      ]
