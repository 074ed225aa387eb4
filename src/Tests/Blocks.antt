-- ===== src/Tests/Blocks.antt =====
-- A quiz and an exercise of a small lesson.
use training_platform.Shared.{
  Bytes, codes, ℕ, ◌≡◌, refl, true, false, ◌&&◌, none, some, List, [], ◌∷◌, ◌++◌, str_eq, any,
  arith, map, leb, ◌+◌, is_empty, cut_prefix, if◌then◌else◌,
}
use training_platform.Shared.Int.{pos}
use training_platform.Shared.Table.{insert}
use training_platform.Shared.Hex.{hex_encode}
use training_platform.Shared.Dashes.{is_name_char, trim_dashes}
use training_platform.Scoring.Challenge.{Challenge}
use training_platform.Scoring.Hash.{challenge_hash, flag_hash}
use training_platform.Scoring.Journal.{synced}
use training_platform.Scoring.Phash.{
  dhash, phash_flag, phash_grader, decode_capture, within, trim_space, trim_right, trim_left,
  is_blank,
}
use training_platform.Scoring.Store.{Store, new_store, upsert, grade}
use training_platform.Content.Blocks.{
  Choice, ExerciseMatter, render_quiz, render_exercise, right_flags, join_spaces, collect,
  nothing_yet, split_lines, extend_head, parse_answer, skip_spaces, is_space, check_box,
  answer_text, drop_end_spaces, dash_runs, short_name, exercise_flags,
}
use training_platform.Content.Blocks.Quiz.{right_choices, grade-render_quiz}
use training_platform.Content.Blocks.Exercise.{grade-render_exercise}
use training_platform.Content.Reference.{
  Host, PhashResolver, reference_image, effective_threshold, resolve, is_image_extension,
  rendered_page,
}
use training_platform.Tests.Samples.{
  sample_codec, sample_sha256, sample_image, sample_sum, replicate_byte,
}

-- ASCII letters in lower case.
unfoldable lower_byte : ℕ → ℕ
lower_byte c = if leb b'A' c && leb c b'Z' then c + 32 else c

abbrev lower : Bytes → Bytes
lower s = map lower_byte s

abbrev salt : Bytes
salt = codes "salt"

abbrev slug : Bytes
slug = codes "lesson"

abbrev quiz_block : Bytes
quiz_block = codes "Pick?" ++ 10 ∷ (codes "- [x] yes" ++ 10 ∷ codes "- [ ] no")

abbrev quiz_choices : List Choice
quiz_choices =
    record {
      text = codes "yes";
      hash = flag_hash sample_sha256 (codes "yes") salt;
      is_right = true;
    }
    ∷ record {
      text = codes "no";
      hash = flag_hash sample_sha256 (codes "no") salt;
      is_right = false;
    }
    ∷ []

abbrev quiz_challenge : Challenge
quiz_challenge = record {
  hash = challenge_hash sample_sha256 (codes "Pick?") slug;
  name = codes "quiz-pick";
  value = pos 10;
  flags = right_flags quiz_choices;
  verify = none;
}

quiz_rendered :
    render_quiz sample_sha256 lower slug quiz_block salt ≡ some (quiz_choices, quiz_challenge)
unfolding render_quiz is_empty join_spaces collect nothing_yet split_lines trim_space trim_right
    trim_left is_blank extend_head parse_answer cut_prefix skip_spaces is_space check_box
    answer_text drop_end_spaces dash_runs short_name is_name_char trim_dashes lower_byte
quiz_rendered = refl

abbrev empty_store : Store
empty_store = new_store (some (phash_grader (λ s. some sample_image) (pos 12)))

abbrev quiz_store : Store
quiz_store = record empty_store { by_hash = (quiz_challenge.hash, quiz_challenge) ∷ [] }

quiz_stored : upsert quiz_challenge empty_store ≡ some quiz_store
unfolding upsert challenge_hash hex_encode sample_sum replicate_byte insert new_store
quiz_stored = refl

grade-render_quiz_example :
    (grade sample_codec synced
      (codes "noon")
      quiz_store
      quiz_challenge.hash
      (flag_hash sample_sha256 (codes "yes") salt)
      (codes "ann")).1
    ≡ record {
      correct =
          any
            (λ text.
              str_eq
                (flag_hash sample_sha256 text salt)
                (flag_hash sample_sha256 (codes "yes") salt))
            (right_choices (split_lines (trim_space quiz_block)));
      known = true;
    }
grade-render_quiz_example =
    grade-render_quiz sample_sha256 lower slug quiz_block salt quiz_choices quiz_challenge
      empty_store quiz_store sample_codec synced (codes "noon")
      (flag_hash sample_sha256 (codes "yes") salt) (codes "ann") quiz_rendered quiz_stored

-- A machine with one page, whose screenshot is the sample.
abbrev host : Host
host = record {
  is_abs = λ path. false;
  join = λ dir path. dir ++ b'/' ∷ path;
  extension = λ path. codes ".html";
  default_page = some (codes "/tmp/page.html");
  decode_image_file = λ path. none;
  screenshot = λ chrome path. some sample_image;
}

abbrev resolver : PhashResolver
resolver = record { lessons_dir = codes "lessons"; chrome = codes "chrome" }

abbrev matter : ExerciseMatter
matter = record { phash = []; result = codes "result.html"; threshold = pos 0 }

abbrev exercise_challenge : Challenge
exercise_challenge = record {
  hash = challenge_hash sample_sha256 (codes "Do it") slug;
  name = codes "exercise-do-it";
  value = pos 20;
  flags = phash_flag (dhash sample_image) (effective_threshold (pos 0)) ∷ [];
  verify = none;
}

reference_seen : reference_image host resolver matter.result ≡ some sample_image
unfolding reference_image is_empty is_image_extension str_eq rendered_page
reference_seen = refl

exercise_rendered :
    render_exercise sample_sha256 lower (some (resolve host resolver)) matter slug (codes "Do it")
    ≡ some exercise_challenge
unfolding render_exercise resolve is_empty trim_space trim_right trim_left is_blank exercise_flags
    reference_image is_image_extension str_eq rendered_page short_name trim_dashes dash_runs
    is_name_char lower_byte
exercise_rendered = refl

abbrev exercise_store : Store
exercise_store = record empty_store { by_hash = (exercise_challenge.hash, exercise_challenge) ∷ [] }

exercise_stored : upsert exercise_challenge empty_store ≡ some exercise_store
unfolding upsert challenge_hash hex_encode sample_sum replicate_byte insert new_store
exercise_stored = refl

grader_wired : exercise_store.phash_grade ≡ some (phash_grader (λ s. some sample_image) (pos 12))
unfolding new_store
grader_wired = refl

grade-render_exercise_example :
    (grade sample_codec synced
      (codes "noon")
      exercise_store
      exercise_challenge.hash
      (codes "AAAA")
      (codes "ann")).1
    ≡ record {
      correct =
          within
            (λ s. some sample_image)
            (dhash sample_image)
            (effective_threshold (pos 0))
            (decode_capture (λ s. some sample_image) (codes "AAAA"));
      known = true;
    }
grade-render_exercise_example =
    grade-render_exercise sample_sha256 lower host resolver matter slug (codes "Do it") sample_image
      exercise_challenge empty_store exercise_store (λ s. some sample_image) (pos 12) sample_codec
      synced (codes "noon") (codes "AAAA") (codes "ann") refl (omega arith) reference_seen
      exercise_rendered exercise_stored grader_wired
