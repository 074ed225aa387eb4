-- ===== src/Content/Reference.antt =====
-- internal/content/phash.go: the reference flag of an exercise. Files, paths and the browser are the
-- parameter `Host`.
use training_platform.Shared.{
  Bytes, codes, is_empty, Bool, ◌||◌, Option, none, some, str_eq, if◌then◌else◌,
}
use training_platform.Shared.Int.{ℤ, pos, ltb_ℤ}
use training_platform.Scoring.Phash.{Image, default_phash_threshold, dhash, phash_flag}

-- What Resolve uses of the machine: path/filepath, the lower-case extension, the temporary file with
-- the embedded page, image files, and the screenshot of renderHTML.
pub record Host : Type 0 where
  pub is_abs : Bytes → Bool
  pub join : Bytes → Bytes → Bytes
  pub extension : Bytes → Bytes
  pub default_page : Option Bytes
  pub decode_image_file : Bytes → Option Image
  pub screenshot : Bytes → Bytes → Option Image

-- type PhashResolver struct
pub record PhashResolver : Type 0 where
  pub lessons_dir : Bytes
  pub chrome : Bytes

-- ext == ".png" || ext == ".jpg" || ext == ".jpeg"
unfoldable pub is_image_extension : Bytes → Bool
is_image_extension e =
    str_eq e (codes ".png") || str_eq e (codes ".jpg") || str_eq e (codes ".jpeg")

unfoldable pub rendered_page : Host → PhashResolver → Option Bytes → Option Image
rendered_page host p none = none
rendered_page host p (some path) = if is_empty p.chrome then none else host.screenshot p.chrome path

-- The picture that Resolve hashes.
unfoldable pub reference_image : Host → PhashResolver → Bytes → Option Image
reference_image host p ref =
    if is_empty ref
    then rendered_page host p host.default_page
    else (let path = if host.is_abs ref then ref else host.join p.lessons_dir ref in
        if is_image_extension (host.extension path)
        then host.decode_image_file path
        else rendered_page host p (some path))

-- if threshold <= 0 { threshold = DefaultPhashThreshold }
unfoldable pub effective_threshold : ℤ → ℤ
effective_threshold t = if ltb_ℤ (pos 0) t then t else default_phash_threshold

-- Resolve
unfoldable pub resolve : Host → PhashResolver → Bytes → ℤ → Option Bytes
resolve host p ref threshold = elim (reference_image host p ref) [
  | none ↦ none
  | some img ↦ some (phash_flag (dhash img) (effective_threshold threshold))
]
