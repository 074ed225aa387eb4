-- ===== src/Content/Blocks/Exercise.antt =====
-- An exercise block end to end: the reference picture that its challenge is made from, and the
-- screenshots that the store accepts for it.
use training_platform.Shared.{Bytes, is_empty, ◌≡◌, true, Option, some, [], ◌∷◌, arith, any}
use training_platform.Shared.Int.{ℤ, pos, negsuc}
use training_platform.Shared.Atoi.{IsInt64}
use training_platform.Scoring.Challenge.{Challenge}
use training_platform.Scoring.Hash.{Sha256}
use training_platform.Scoring.Journal.{Codec, Written}
use training_platform.Scoring.Phash.{Image, dhash, phash_flag, decode_capture, within, phash_grader}
use training_platform.Scoring.Phash.Pixels.{dhash_bound}
use training_platform.Scoring.Phash.Grader.{parse_phash_flag-phash_flag, phash_grader-phash_flag}
use training_platform.Scoring.Store.{Store, upsert, grade, graded}
use training_platform.Scoring.Store.Grading.{flag_accepts, grade_results, get-upsert}
use training_platform.Content.Blocks.{ExerciseMatter, exercise_flags, render_exercise}
use training_platform.Content.Reference.{
  Host, PhashResolver, reference_image, effective_threshold, resolve,
}

effective_threshold-IsInt64 : (t : ℤ) → IsInt64 t → IsInt64 (effective_threshold t)
unfolding effective_threshold
effective_threshold-IsInt64 (pos n) h = ground arith
effective_threshold-IsInt64 (negsuc n) h = ground arith

render_exercise-flags :
    (sha : Sha256) (to_lower : Bytes → Bytes) (host : Host) (p : PhashResolver)
    (fm : ExerciseMatter) (slug inner : Bytes) (reference : Image) (c : Challenge)
    → fm.phash ≡ []
    → reference_image host p fm.result ≡ some reference
    → render_exercise sha to_lower (some (resolve host p)) fm slug inner ≡ some c
    → c.flags ≡ phash_flag (dhash reference) (effective_threshold fm.threshold) ∷ []
unfolding render_exercise exercise_flags is_empty resolve
render_exercise-flags sha to_lower host p fm slug inner reference c e seen rendered = ground arith

-- An exercise whose lesson writes no hash, rendered with a resolver that has a picture of the
-- reference page, and whose challenge the store takes: with the grader of screenshots, a submission
-- is graded correct exactly if it decodes to a picture whose hash is within the threshold in force
-- of the hash of the reference.
pub grade-render_exercise :
    (sha : Sha256) (to_lower : Bytes → Bytes) (host : Host) (p : PhashResolver)
    (fm : ExerciseMatter) (slug inner : Bytes) (reference : Image) (c : Challenge) (s s' : Store)
    (decode_image : Bytes → Option Image) (default_threshold : ℤ) (json : Codec) (out : Written)
    (now submitted user : Bytes)
    → fm.phash ≡ []
    → IsInt64 fm.threshold
    → reference_image host p fm.result ≡ some reference
    → render_exercise sha to_lower (some (resolve host p)) fm slug inner ≡ some c
    → upsert c s ≡ some s'
    → s'.phash_grade ≡ some (phash_grader decode_image default_threshold)
    → (grade json out now s' c.hash submitted user).1 ≡ record {
      correct =
          within decode_image
            (dhash reference)
            (effective_threshold fm.threshold)
            (decode_capture decode_image submitted);
      known = true;
    }
unfolding any flag_accepts graded
grade-render_exercise sha to_lower host p fm slug inner reference c s s' decode_image
      default_threshold json out now submitted user e k seen rendered stored grader =
    let t = effective_threshold fm.threshold in
    let k' = effective_threshold-IsInt64 fm.threshold k in
    ground (
      arith,
      grade_results json out now s' c.hash submitted user,
      get-upsert c s s' stored,
      render_exercise-flags sha to_lower host p fm slug inner reference c e seen rendered,
      (parse_phash_flag-phash_flag (dhash reference) t default_threshold (dhash_bound reference)
          k').1,
      phash_grader-phash_flag decode_image reference t default_threshold submitted k',
    )
