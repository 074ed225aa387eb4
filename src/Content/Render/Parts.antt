-- ===== src/Content/Render/Parts.antt =====
-- The steps that a rendered lesson has gone through, and the challenges that its blocks give.
use training_platform.Shared.{
  Bytes, codes, ℕ, zero, suc, ◌≡◌, subst, true, Option, none, some, List, [], ◌∷◌, All, All-append,
  arith, Bool-cases, Option-cases, inl, inr,
}
use training_platform.Shared.Int.{ℤ}
use training_platform.Scoring.Challenge.{Challenge}
use training_platform.Scoring.Hash.{Sha256, challenge_hash}
use training_platform.Scoring.Phash.{trim_space}
use training_platform.Content.Blocks.{
  ExerciseMatter, Choice, split_lines, join_spaces, collect, render_quiz, render_exercise,
}
use training_platform.Content.Html.{exercise_html}
use training_platform.Content.FrontMatter.{FrontMatter, split_front_matter}
use training_platform.Content.Found.{match_block, Found, nothing_found, replace_blocks}
use training_platform.Content.Render.{Lesson, add_quiz, add_exercise, find_blocks, finish, render}
use training_platform.Content.Markdown.{render_markdown}
use training_platform.Content.Terminals.{validate_terminals}

-- What every block keeps, all of them keep.
pub replace_blocks_keep :
    (match : Bytes → Option (Bytes × ℕ)) (add : Bytes → Found → Option Found) (P : Found → Type 0)
    → ((inner : Bytes) (f g : Found) → P f → add inner f ≡ some g → P g)
    → (skip : ℕ) (s text : Bytes) (f g : Found) → P f
    → replace_blocks match add skip s f ≡ some (g, text)
    → P g
unfolding replace_blocks
replace_blocks_keep match add P keeps skip [] text f g h e = subst P (ground (arith, e)) h
replace_blocks_keep match add P keeps (suc skip) (c ∷ s) text f g h e =
    replace_blocks_keep match add P keeps skip s text f g h e
replace_blocks_keep match add P keeps zero (c ∷ s) text f g h e =
    elim (Option-cases (match (c ∷ s))) [
      | inl k ↦ elim (Option-cases (replace_blocks match add zero s f)) [
        | inl j ↦ ground (arith, e, k, j)
        | inr ((g', text'), j) ↦
            subst P (ground (arith, e, k, j))
              (replace_blocks_keep match add P keeps zero s text' f g' h j)
      ]
      | inr ((inner, skip), k) ↦ elim (Option-cases (add inner f)) [
        | inl i ↦ ground (arith, e, k, i)
        | inr (more, i) ↦ elim (Option-cases (replace_blocks match add skip s more)) [
          | inl j ↦ ground (arith, e, k, i, j)
          | inr ((g', text'), j) ↦ subst P (ground (arith, e, k, i, j)) (
              replace_blocks_keep match add P keeps skip s text' more g' (keeps inner f more h i) j)
        ]
      ]
    ]

-- How a block's challenge comes: without a check, and with a salted hash of its text.
abbrev pub Came : Sha256 → Bytes → Challenge → Type 0
Came sha slug c = (c.verify ≡ none) × ((text : Bytes) × (c.hash ≡ challenge_hash sha text slug))

abbrev AllCame : Sha256 → Bytes → Found → Type 0
AllCame sha slug found = All (Came sha slug) found.challenges

module _ (sha : Sha256) (to_lower : Bytes → Bytes)
    (resolver : Option (Bytes → ℤ → Option Bytes)) where
  render_quiz-Came :
      (slug salt inner : Bytes) (choices : List Choice) (c : Challenge)
      → render_quiz sha to_lower slug inner salt ≡ some (choices, c)
      → Came sha slug c
  unfolding render_quiz
  render_quiz-Came slug salt inner choices c e = (
    ground (arith, e),
    (join_spaces (collect sha salt (split_lines (trim_space inner))).question, ground (arith, e)),
  )

  render_exercise-Came :
      (fm : ExerciseMatter) (slug inner : Bytes) (c : Challenge)
      → render_exercise sha to_lower resolver fm slug inner ≡ some c
      → Came sha slug c
  unfolding render_exercise
  render_exercise-Came fm slug inner c e =
      (ground (arith, e), (trim_space inner, ground (arith, e)))

  add_quiz-Came :
      (slug salt inner : Bytes) (f g : Found)
      → All (Came sha slug) f.challenges
      → add_quiz sha to_lower resolver slug salt inner f ≡ some g
      → All (Came sha slug) g.challenges
  unfolding add_quiz
  add_quiz-Came slug salt inner f g h e =
      elim (Option-cases (render_quiz sha to_lower slug inner salt)) [
        | inl k ↦ ground (arith, e, k)
        | inr ((choices, c), k) ↦ subst (All (Came sha slug)) (ground (arith, e, k)) (
            All-append (Came sha slug) f.challenges (c ∷ []) h
              (render_quiz-Came slug salt inner choices c k, tt))
      ]

  add_exercise-Came :
      (fm : ExerciseMatter) (slug inner : Bytes) (f g : Found)
      → All (Came sha slug) f.challenges
      → add_exercise sha to_lower resolver fm slug inner f ≡ some g
      → All (Came sha slug) g.challenges
  unfolding add_exercise
  add_exercise-Came fm slug inner f g h e =
      elim (Option-cases (render_exercise sha to_lower resolver fm slug inner)) [
        | inl k ↦ ground (arith, e, k)
        | inr (c, k) ↦ elim (Option-cases (exercise_html c.hash (trim_space inner))) [
          | inl j ↦ ground (arith, e, k, j)
          | inr (block, j) ↦ subst (All (Came sha slug)) (ground (arith, e, k, j)) (
              All-append (Came sha slug) f.challenges (c ∷ []) h
                (render_exercise-Came fm slug inner c k, tt))
        ]
      ]

  pub find_blocks-Came :
      (fm : FrontMatter) (slug salt body text : Bytes) (found : Found)
      → find_blocks sha to_lower resolver fm slug salt body ≡ some (found, text)
      → All (Came sha slug) found.challenges
  unfolding find_blocks nothing_found
  find_blocks-Came fm slug salt body text found e =
      let quiz = match_block (codes "quiz") (codes "endquiz") in
      let exercise = match_block (codes "exercise") (codes "endexercise") in
      let add = add_quiz sha to_lower resolver slug salt in
      elim (Option-cases (replace_blocks quiz add 0 body nothing_found)) [
        | inl k ↦ ground (arith, e, k)
        | inr ((some_found, some_text), k) ↦
            replace_blocks_keep exercise (add_exercise sha to_lower resolver fm.exercise slug)
              (AllCame sha slug) (add_exercise-Came fm.exercise slug) 0 some_text text some_found
              found
              (replace_blocks_keep quiz add (AllCame sha slug) (add_quiz-Came slug salt) 0 body
                some_text nothing_found some_found tt k)
              (rw (k, find_blocks) at e)
      ]

  -- The steps of a lesson that renders.
  pub record Rendered (yaml : Bytes → Option FrontMatter) (slug src salt : Bytes) (lesson : Lesson)
      : Type 0 where
    pub front : FrontMatter
    pub body : Bytes
    pub found : Found
    pub text : Bytes
    pub markdown : Bytes
    pub is_split : split_front_matter yaml src ≡ some (front, body)
    pub is_valid : validate_terminals front.terminal ≡ true
    pub is_found : find_blocks sha to_lower resolver front slug salt body ≡ some (found, text)
    pub is_markdown : render_markdown text ≡ some markdown
    pub is_finished : finish sha to_lower resolver front found markdown ≡ some lesson

  pub render-Rendered :
      (yaml : Bytes → Option FrontMatter) (slug src salt : Bytes) (lesson : Lesson)
      → render sha to_lower resolver yaml slug src salt ≡ some lesson
      → Rendered yaml slug src salt lesson
  unfolding render
  render-Rendered yaml slug src salt lesson e = elim (Option-cases (split_front_matter yaml src)) [
    | inl k ↦ absurd (ground (arith, e, k))
    | inr ((fm, body), k) ↦ elim (Bool-cases (validate_terminals fm.terminal)) [
      | inr v ↦ absurd (ground (arith, e, k, v))
      | inl v ↦ elim (Option-cases (find_blocks sha to_lower resolver fm slug salt body)) [
        | inl b ↦ absurd (ground (arith, e, k, v, b))
        | inr ((found, text), b) ↦ elim (Option-cases (render_markdown text)) [
          | inl m ↦ absurd (ground (arith, e, k, v, b, m))
          | inr (markdown, m) ↦ record {
            front = fm;
            body = body;
            found = found;
            text = text;
            markdown = markdown;
            is_split = k;
            is_valid = v;
            is_found = b;
            is_markdown = m;
            is_finished = rw (k, v, b, m, render) at e;
          }
        ]
      ]
    ]
  ]
