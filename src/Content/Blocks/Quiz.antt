-- ===== src/Content/Blocks/Quiz.antt =====
-- A quiz block end to end: the challenge that it registers, graded by the store.
use training_platform.Shared.{
  Bytes, codes, cut_prefix, none, if◌then◌else◌, str_eq, str_eq_refl, str_eq_iff, ◌≡◌, refl, Bool,
  true, false, ◌&&◌, Option, some, List, [], ◌∷◌, ◌++◌, arith, any, all, Option-cases, inl, inr,
}
use training_platform.Shared.Hex.{is_hex_digit, hex_encode-all}
use training_platform.Scoring.Challenge.{Challenge, is_phash_flag}
use training_platform.Scoring.Hash.{Sha256, flag_hash}
use training_platform.Scoring.Journal.{Codec, Written}
use training_platform.Scoring.Phash.{trim_space}
use training_platform.Scoring.Store.{Store, upsert, grade}
use training_platform.Scoring.Store.Grading.{flag_accepts, grade_results, get-upsert}
use training_platform.Content.Blocks.{
  Choice, nothing_yet, skip_spaces, answer_text, check_box, parse_answer, collect, split_lines,
  right_flags, render_quiz,
}

hex-is_phash_flag : (s : Bytes) → all is_hex_digit s ≡ true → is_phash_flag s ≡ false
unfolding is_phash_flag all is_hex_digit str_eq
hex-is_phash_flag [] h = refl
hex-is_phash_flag (c ∷ s) h = ground arith

flag_hash-is_phash_flag :
    (sha : Sha256) (text salt : Bytes) → is_phash_flag (flag_hash sha text salt) ≡ false
unfolding flag_hash
flag_hash-is_phash_flag sha text salt =
    hex-is_phash_flag (flag_hash sha text salt)
      (hex_encode-all (sha.sum (text ++ salt)) (sha.sum_bytes (text ++ salt)))

-- What a choice posts is the salted hash of its text.
abbrev IsSalted : Sha256 → Bytes → List Choice → Type 0
IsSalted sha salt choices = all (λ c. str_eq c.hash (flag_hash sha c.text salt)) choices ≡ true

collect-IsSalted :
    (sha : Sha256) (salt : Bytes) (lines : List Bytes)
    → IsSalted sha salt (collect sha salt lines).choices
unfolding collect all nothing_yet
collect-IsSalted sha salt [] = refl
collect-IsSalted sha salt (line ∷ lines) = elim (Option-cases (parse_answer line)) [
  | inl e ↦ rw (e, collect) (ground (arith, collect-IsSalted sha salt lines))
  | inr ((correct, text), e) ↦
      rw (e, collect)
        (ground (arith, collect-IsSalted sha salt lines, str_eq_refl (flag_hash sha text salt)))
]

right_flags-any :
    (sha : Sha256) (salt : Bytes) (choices : List Choice) (grader : Option (Bytes → Bytes → Bool))
    (submitted : Bytes)
    → IsSalted sha salt choices
    → any (flag_accepts grader submitted) (right_flags choices)
      ≡ any (λ c. c.is_right && str_eq (flag_hash sha c.text salt) submitted) choices
unfolding right_flags any all flag_accepts
right_flags-any sha salt [] grader submitted h = refl
right_flags-any sha salt (c ∷ cs) grader submitted h = ground (
  arith,
  right_flags-any sha salt cs grader submitted,
  str_eq_iff c.hash (flag_hash sha c.text salt),
  flag_hash-is_phash_flag sha c.text salt,
)

-- The text of a line that marks a right choice: blanks, a dash, blanks, "[x]" or "[X]", and the text
-- of the choice.
unfoldable pub right_choice : Bytes → Option Bytes
unfolding cut_prefix
right_choice line = elim (cut_prefix (skip_spaces line) (codes "-")) [
  | none ↦ none
  | some after ↦ elim (cut_prefix (skip_spaces after) (codes "[x]")) [
    | some text ↦ answer_text text
    | none ↦ elim (cut_prefix (skip_spaces after) (codes "[X]")) [
      | some text ↦ answer_text text
      | none ↦ none
    ]
  ]
]

-- The texts of the right choices among the lines of a block.
unfoldable pub right_choices : List Bytes → List Bytes
right_choices [] = []
right_choices (line ∷ lines) =
    let rest = right_choices lines in
    elim (right_choice line) [ none ↦ rest | some text ↦ text ∷ rest ]

-- What a box in front of a text says, by its literal marks.
right_box :
    (s : Bytes)
    → (elim (cut_prefix s (codes "[x]")) [
      | some text ↦ answer_text text
      | none ↦ elim (cut_prefix s (codes "[X]")) [ some text ↦ answer_text text | none ↦ none ]
    ])
      ≡ (elim (check_box s) [
        | none ↦ none
        | some (correct, rest) ↦ if correct then answer_text rest else none
      ])
unfolding check_box cut_prefix
right_box [] = refl
right_box (a ∷ []) = ground arith
right_box (a ∷ b ∷ []) = ground arith
right_box (a ∷ b ∷ c ∷ s) = ground arith

-- Both readings of a line: it is a right choice exactly if it is an answer marked as correct.
right_choice-parse_answer :
    (line : Bytes)
    → right_choice line ≡ (elim (parse_answer line) [
      | none ↦ none
      | some (correct, text) ↦ if correct then some text else none
    ])
unfolding right_choice parse_answer
right_choice-parse_answer line = elim (Option-cases (cut_prefix (skip_spaces line) (codes "-"))) [
  | inl e ↦ ground (arith, e)
  | inr (after, e) ↦ elim (Option-cases (check_box (skip_spaces after))) [
    | inl k ↦ ground (arith, e, k, right_box (skip_spaces after))
    | inr ((correct, rest), k) ↦ elim (Option-cases (answer_text rest)) [
      | inl j ↦ ground (arith, e, k, j, right_box (skip_spaces after))
      | inr (text, j) ↦ ground (arith, e, k, j, right_box (skip_spaces after))
    ]
  ]
]

collect-right_choices :
    (sha : Sha256) (salt : Bytes) (lines : List Bytes) (p : Bytes → Bool)
    → any (λ c. c.is_right && p c.text) (collect sha salt lines).choices
      ≡ any p (right_choices lines)
unfolding collect right_choices any nothing_yet
collect-right_choices sha salt [] p = refl
collect-right_choices sha salt (line ∷ lines) p = elim (Option-cases (parse_answer line)) [
  | inl e ↦
      ground (arith, e, right_choice-parse_answer line, collect-right_choices sha salt lines p)
  | inr ((correct, text), e) ↦
      ground (arith, e, right_choice-parse_answer line, collect-right_choices sha salt lines p)
]

-- What a block that renders has: the choices of its lines, and their flags.
render_quiz-choices :
    (sha : Sha256) (to_lower : Bytes → Bytes) (slug inner salt : Bytes) (choices : List Choice)
    (c : Challenge)
    → render_quiz sha to_lower slug inner salt ≡ some (choices, c)
    → (choices ≡ (collect sha salt (split_lines (trim_space inner))).choices)
      × (IsSalted sha salt choices)
      × (c.flags ≡ right_flags choices)
unfolding render_quiz
render_quiz-choices sha to_lower slug inner salt choices c e =
    ground (arith, collect-IsSalted sha salt (split_lines (trim_space inner)))

-- A quiz that renders and whose challenge the store takes: a submission is graded correct exactly
-- if it is the salted hash of the text of a choice that a line of the lesson's block marks as right,
-- by "[x]" or "[X]" behind a dash, whatever grader the store has.
pub grade-render_quiz :
    (sha : Sha256) (to_lower : Bytes → Bytes) (slug inner salt : Bytes) (choices : List Choice)
    (c : Challenge) (s s' : Store) (json : Codec) (out : Written) (now submitted user : Bytes)
    → render_quiz sha to_lower slug inner salt ≡ some (choices, c)
    → upsert c s ≡ some s'
    → (grade json out now s' c.hash submitted user).1 ≡ record {
      correct =
          any
            (λ text. str_eq (flag_hash sha text salt) submitted)
            (right_choices (split_lines (trim_space inner)));
      known = true;
    }
grade-render_quiz sha to_lower slug inner salt choices c s s' json out now submitted user e stored =
    let (listed, salted, flags) = render_quiz-choices sha to_lower slug inner salt choices c e in
    let marked : any (λ x. x.is_right && str_eq (flag_hash sha x.text salt) submitted) choices
        ≡ any (λ text. str_eq (flag_hash sha text salt) submitted)
            (right_choices (split_lines (trim_space inner))) =
      rw listed (
        collect-right_choices sha salt (split_lines (trim_space inner))
          (λ text. str_eq (flag_hash sha text salt) submitted)) in
    ground (
      arith,
      grade_results json out now s' c.hash submitted user,
      get-upsert c s s' stored,
      flags,
      right_flags-any sha salt choices s'.phash_grade submitted salted,
      marked,
    )
