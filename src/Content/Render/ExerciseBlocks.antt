-- ===== src/Content/Render/ExerciseBlocks.antt =====
-- The exercises of a lesson against the blocks of its text.
use training_platform.Shared.{
  Bytes, codes, ℕ, zero, suc, ◌≡◌, refl, Option, none, some, List, [], ◌∷◌, ◌++◌, map, arith,
  Bool-cases, Option-cases, inl, inr,
}
use mathlib.Core.List.{append_assoc, append-nil}
use training_platform.Shared.Int.{ℤ}
use training_platform.Scoring.Challenge.{Challenge}
use training_platform.Scoring.Hash.{Sha256, challenge_hash}
use training_platform.Scoring.Phash.{trim_space}
use training_platform.Content.Blocks.{ExerciseMatter, render_quiz, render_exercise}
use training_platform.Content.Html.{exercise_html}
use training_platform.Content.DemoLinks.{pair_demo_links}
use training_platform.Content.FrontMatter.{FrontMatter}
use training_platform.Content.Found.{
  match_block, Found, nothing_found, replace_blocks, fill_placeholders,
}
use training_platform.Content.Render.{
  asks_check, attach, Lesson, add_quiz, add_exercise, find_blocks, finish,
}
use training_platform.Content.Render.Parts.{replace_blocks_keep}

-- The inner texts of the blocks of a text, in order.
unfoldable pub blocks_in : (Bytes → Option (Bytes × ℕ)) → ℕ → Bytes → List Bytes
blocks_in match skip [] = []
blocks_in match (suc skip) (c ∷ s) = blocks_in match skip s
blocks_in match zero (c ∷ s) = elim (match (c ∷ s)) [
  | none ↦ blocks_in match zero s
  | some (inner, skip) ↦ inner ∷ blocks_in match skip s
]

-- The hash of the exercise of a block.
abbrev pub block_hash : Sha256 → Bytes → Bytes → Bytes
block_hash sha slug inner = challenge_hash sha (trim_space inner) slug

abbrev NoExercise : Found → Type 0
NoExercise f = f.exercise_hashes ≡ []

module _ (sha : Sha256) (to_lower : Bytes → Bytes)
    (resolver : Option (Bytes → ℤ → Option Bytes)) where
  render_exercise-block_hash :
      (fm : ExerciseMatter) (slug inner : Bytes) (c : Challenge)
      → render_exercise sha to_lower resolver fm slug inner ≡ some c
      → c.hash ≡ block_hash sha slug inner
  unfolding render_exercise
  render_exercise-block_hash fm slug inner c e = ground (arith, e)

  add_exercise-block_hash :
      (fm : ExerciseMatter) (slug inner : Bytes) (f g : Found)
      → add_exercise sha to_lower resolver fm slug inner f ≡ some g
      → g.exercise_hashes ≡ f.exercise_hashes ++ block_hash sha slug inner ∷ []
  unfolding add_exercise
  add_exercise-block_hash fm slug inner f g e =
      elim (Option-cases (render_exercise sha to_lower resolver fm slug inner)) [
        | inl k ↦ absurd (ground (arith, e, k))
        | inr (c, k) ↦ elim (Option-cases (exercise_html c.hash (trim_space inner))) [
          | inl j ↦ absurd (ground (arith, e, k, j))
          | inr (block, j) ↦ ground (arith, e, k, j, render_exercise-block_hash fm slug inner c k)
        ]
      ]

  add_quiz-NoExercise :
      (slug salt inner : Bytes) (f g : Found)
      → NoExercise f
      → add_quiz sha to_lower resolver slug salt inner f ≡ some g
      → NoExercise g
  unfolding add_quiz
  add_quiz-NoExercise slug salt inner f g h e =
      elim (Option-cases (render_quiz sha to_lower slug inner salt)) [
        | inl k ↦ absurd (ground (arith, e, k))
        | inr ((choices, c), k) ↦ ground (arith, e, k, h)
      ]

  -- The pass over the exercises notes the hash of each block.
  exercise_pass :
      (match : Bytes → Option (Bytes × ℕ)) (fm : ExerciseMatter) (slug : Bytes) (skip : ℕ)
      (s text : Bytes) (f g : Found)
      → replace_blocks match (add_exercise sha to_lower resolver fm slug) skip s f ≡ some (g, text)
      → g.exercise_hashes ≡ f.exercise_hashes ++ map (block_hash sha slug) (blocks_in match skip s)
  unfolding replace_blocks blocks_in
  exercise_pass match fm slug skip [] text f g e = ground (arith, e, append-nil f.exercise_hashes)
  exercise_pass match fm slug (suc skip) (c ∷ s) text f g e =
      exercise_pass match fm slug skip s text f g e
  exercise_pass match fm slug zero (c ∷ s) text f g e =
      let add = add_exercise sha to_lower resolver fm slug in
      elim (Option-cases (match (c ∷ s))) [
        | inl k ↦ elim (Option-cases (replace_blocks match add zero s f)) [
          | inl j ↦ absurd (ground (arith, e, k, j))
          | inr ((g', text'), j) ↦
              ground (arith, e, k, j, exercise_pass match fm slug zero s text' f g' j)
        ]
        | inr ((inner, skip), k) ↦ elim (Option-cases (add inner f)) [
          | inl i ↦ absurd (ground (arith, e, k, i))
          | inr (more, i) ↦ elim (Option-cases (replace_blocks match add skip s more)) [
            | inl j ↦ absurd (ground (arith, e, k, i, j))
            | inr ((g', text'), j) ↦
                let rest = map (block_hash sha slug) (blocks_in match skip s) in
                ground (
                  arith,
                  e,
                  k,
                  i,
                  j,
                  exercise_pass match fm slug skip s text' more g' j,
                  add_exercise-block_hash fm slug inner f more i,
                  append_assoc f.exercise_hashes (block_hash sha slug inner ∷ []) rest,
                )
          ]
        ]
      ]

  -- The text of a lesson with its quizzes replaced, and the hashes of the exercise blocks in it.
  pub find_blocks-blocks_in :
      (fm : FrontMatter) (slug salt body text : Bytes) (found : Found)
      → find_blocks sha to_lower resolver fm slug salt body ≡ some (found, text)
      → (quizzes : Found) × (quizless : Bytes) × (replace_blocks
            (match_block (codes "quiz") (codes "endquiz"))
            (add_quiz sha to_lower resolver slug salt)
            0
            body
            nothing_found
          ≡ some (quizzes, quizless))
        × (found.exercise_hashes
            ≡ map
                (block_hash sha slug)
                (blocks_in (match_block (codes "exercise") (codes "endexercise")) 0 quizless))
  unfolding find_blocks
  find_blocks-blocks_in fm slug salt body text found e =
      let quiz = match_block (codes "quiz") (codes "endquiz") in
      let exercise = match_block (codes "exercise") (codes "endexercise") in
      let add = add_quiz sha to_lower resolver slug salt in
      let nothing : NoExercise nothing_found = unfold nothing_found in refl in
      elim (Option-cases (replace_blocks quiz add 0 body nothing_found)) [
        | inl k ↦ absurd (ground (arith, e, k))
        | inr ((quizzes, quizless), k) ↦
            let none_yet =
              replace_blocks_keep quiz add NoExercise (add_quiz-NoExercise slug salt) 0 body
                quizless nothing_found quizzes nothing k in
            let noted =
              exercise_pass exercise fm.exercise slug 0 quizless text quizzes found
                (rw (k, find_blocks) at e) in
            (quizzes, quizless, k, ground (arith, none_yet, noted))
      ]

  -- A lesson has the hashes that were found.
  pub finish-exercise_hashes :
      (fm : FrontMatter) (markdown : Bytes) (found : Found) (lesson : Lesson)
      → finish sha to_lower resolver fm found markdown ≡ some lesson
      → lesson.exercise_hashes ≡ found.exercise_hashes
  unfolding finish
  finish-exercise_hashes fm markdown found lesson e =
      let (page, routings) =
        pair_demo_links (fill_placeholders 0 found.placeholders markdown) found.exercise_hashes in
      elim (Bool-cases (asks_check fm)) [
        | inl k ↦
            elim (Option-cases (attach fm found.exercise_hashes routings found.challenges page)) [
              | inl j ↦ absurd (ground (arith, e, k, j))
              | inr ((cs, done), j) ↦ ground (arith, e, k, j)
            ]
        | inr k ↦ ground (arith, e, k)
      ]
