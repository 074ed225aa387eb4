-- ===== src/Content/Blocks.antt =====
-- internal/content/content.go: the quiz and exercise blocks of a lesson, and the challenges that they
-- register. The HTML of a block is left out but for the values that the page posts.
pub mod Quiz
pub mod Exercise
use training_platform.Shared.{
  Bytes, codes, ℕ, zero, suc, is_empty, Bool, true, false, not, ◌&&◌, ◌||◌, Option, none, some,
  List, [], ◌∷◌, ◌++◌, map, length, take, leb, ltb, ◌==◌, if◌then◌else◌, cut_prefix,
}
use training_platform.Shared.Dashes.{is_name_char, trim_dashes}
use training_platform.Shared.Int.{ℤ, pos}
use training_platform.Scoring.Challenge.{Challenge}
use training_platform.Scoring.Hash.{Sha256, challenge_hash, flag_hash}
use training_platform.Scoring.Phash.{trim_space}

-- strings.Split(s, "\n"): one text at least.
unfoldable pub extend_head : ℕ → List Bytes → List Bytes
extend_head c [] = (c ∷ []) ∷ []
extend_head c (l ∷ ls) = (c ∷ l) ∷ ls

unfoldable pub split_lines : Bytes → List Bytes
split_lines [] = [] ∷ []
split_lines (c ∷ s) = let rest = split_lines s in if c == 10 then [] ∷ rest else extend_head c rest

-- strings.Join(parts, " ")
unfoldable pub join_spaces : List Bytes → Bytes
join_spaces [] = []
join_spaces (s ∷ []) = s
join_spaces (s ∷ t ∷ rest) = s ++ 32 ∷ join_spaces (t ∷ rest)

-- \s of package regexp.
unfoldable pub is_space : ℕ → Bool
is_space c = (c == 32) || (c == 9) || (c == 10) || (c == 12) || (c == 13)

-- \s* in front of a text.
unfoldable pub skip_spaces : Bytes → Bytes
skip_spaces [] = []
skip_spaces (c ∷ s) = let rest = skip_spaces s in if is_space c then rest else c ∷ s

unfoldable pub drop_end_spaces : Bytes → Bytes
drop_end_spaces [] = []
drop_end_spaces (c ∷ s) = elim (drop_end_spaces s) [
  | [] ↦ if is_space c then [] else c ∷ []
  | d ∷ t ↦ c ∷ d ∷ t
]

unfoldable pub last_of : Bytes → Option ℕ
last_of [] = none
last_of (c ∷ []) = some c
last_of (c ∷ d ∷ s) = last_of (d ∷ s)

-- \s*(.+?)\s*$: the text without the blanks at its ends; of blanks alone, the last.
unfoldable pub answer_text : Bytes → Option Bytes
answer_text s =
    let t = drop_end_spaces (skip_spaces s) in
    if is_empty t then elim (last_of s) [ none ↦ none | some c ↦ some (c ∷ []) ] else some t

-- \[( |x|X)\] and what follows: is it an x, by strings.EqualFold?
unfoldable pub check_box : Bytes → Option (Bool × Bytes)
check_box (a ∷ b ∷ c ∷ s) =
    if (a == b'[') && (c == b']')
    then (if (b == b'x') || (b == b'X')
        then some (true, s)
        else if b == 32
        then some (false, s)
        else none)
    else none
check_box _ = none

-- answerRe.FindStringSubmatch(line): is the choice correct, and its text?
unfoldable pub parse_answer : Bytes → Option (Bool × Bytes)
parse_answer line = elim (cut_prefix (skip_spaces line) (codes "-")) [
  | none ↦ none
  | some after ↦ elim (check_box (skip_spaces after)) [
    | none ↦ none
    | some (correct, rest) ↦ elim (answer_text rest) [
      | none ↦ none
      | some text ↦ some (correct, text)
    ]
  ]
]

-- type choice struct, in renderQuiz.
pub record Choice : Type 0 where
  pub text : Bytes
  pub hash : Bytes
  pub is_right : Bool

-- What the loop over the lines collects.
pub record Collected : Type 0 where
  pub question : List Bytes
  pub choices : List Choice

unfoldable pub nothing_yet : Collected
nothing_yet = record { question = []; choices = [] }

-- The lines of a quiz, the first one last to be put in front.
unfoldable pub collect : Sha256 → Bytes → List Bytes → Collected
collect sha salt [] = nothing_yet
collect sha salt (line ∷ lines) =
    let rest = collect sha salt lines in
    elim (parse_answer line) [
      | some (correct, text) ↦ record rest {
        choices =
            record { text = text; hash = flag_hash sha text salt; is_right = correct }
            ∷ rest.choices;
      }
      | none ↦
          if is_empty (trim_space line)
          then rest
          else record rest { question = trim_space line ∷ rest.question }
    ]

-- The flags of the right choices.
unfoldable pub right_flags : List Choice → List Bytes
right_flags [] = []
right_flags (c ∷ cs) = let rest = right_flags cs in if c.is_right then c.hash ∷ rest else rest

-- [^a-z0-9]+ replaced by a dash.
unfoldable pub dash_runs : Bool → Bytes → Bytes
dash_runs in_run [] = []
dash_runs in_run (c ∷ s) =
    let kept = dash_runs false s in
    let dropped = dash_runs true s in
    if is_name_char c then c ∷ kept else if in_run then dropped else b'-' ∷ dropped

-- shortName. `to_lower` is strings.ToLower.
unfoldable pub short_name : (Bytes → Bytes) → Bytes → Bytes
short_name to_lower s =
    let t = take 32 (trim_dashes (dash_runs false (to_lower (trim_space s)))) in
    if is_empty t then codes "challenge" else t

-- renderQuiz: the choices whose hashes the page has, and the challenge.
unfoldable pub render_quiz :
    Sha256 → (Bytes → Bytes) → Bytes → Bytes → Bytes → Option (List Choice × Challenge)
render_quiz sha to_lower slug inner salt =
    let found = collect sha salt (split_lines (trim_space inner)) in
    let q = join_spaces found.question in
    if is_empty q then none else elim found.choices [
      | [] ↦ none
      | c ∷ cs ↦ some (
        c ∷ cs,
        record {
          hash = challenge_hash sha q slug;
          name = codes "quiz-" ++ short_name to_lower q;
          value = pos 10;
          flags = right_flags (c ∷ cs);
          verify = none;
        },
      )
    ]

-- The front matter, as far as an exercise block reads it.
pub record ExerciseMatter : Type 0 where
  pub phash : Bytes
  pub result : Bytes
  pub threshold : ℤ

-- The flags of an exercise: the one given, or the one that the resolver computes, if there is one;
-- `none` is an error of the resolver.
unfoldable pub exercise_flags :
    Option (Bytes → ℤ → Option Bytes) → ExerciseMatter → Option (List Bytes)
exercise_flags resolver fm =
    if not (is_empty fm.phash) then some (fm.phash ∷ []) else elim resolver [
      | none ↦ some []
      | some resolve ↦ elim (resolve fm.result fm.threshold) [
        | none ↦ none
        | some flag ↦ some (flag ∷ [])
      ]
    ]

-- renderExercise: the challenge.
unfoldable pub render_exercise :
    Sha256
    → (Bytes → Bytes)
    → Option (Bytes → ℤ → Option Bytes)
    → ExerciseMatter
    → Bytes
    → Bytes
    → Option Challenge
render_exercise sha to_lower resolver fm slug inner =
    let text = trim_space inner in
    if is_empty text then none else elim (exercise_flags resolver fm) [
      | none ↦ none
      | some flags ↦ some (record {
        hash = challenge_hash sha text slug;
        name = codes "exercise-" ++ short_name to_lower text;
        value = pos 20;
        flags = flags;
        verify = none;
      })
    ]
