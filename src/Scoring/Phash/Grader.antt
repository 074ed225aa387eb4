-- ===== src/Scoring/Phash/Grader.antt =====
-- The flags that are written are the flags that are graded.
use training_platform.Shared.{
  Bytes, codes, ℕ, ◌<◌, ◌^◌, ◌≡◌, refl, ap, ◌∙◌, true, not, Option, some, [], ◌∷◌, ◌++◌, arith,
  ◌==◌, all, cut, cut-append, cut_prefix, cut_prefix-append, str_eq, length-append,
}
use training_platform.Shared.Int.{ℤ}
use training_platform.Shared.Decimal.{format_d}
use training_platform.Shared.Atoi.{atoi-format_d, IsInt64}
use training_platform.Shared.Hex.{
  is_hex_digit, hex_digits, hex_digits-all, parse_uint_hex, parse_uint_hex-hex_digits,
}
use training_platform.Scoring.Challenge.{is_phash_flag}
use training_platform.Scoring.Phash.{
  Image, dhash, phash_flag, threshold_of, parse_phash_flag, decode_capture, within, phash_grader,
}
use training_platform.Scoring.Phash.Pixels.{dhash_bound}

no_colon : (s : Bytes) → all is_hex_digit s ≡ true → all (λ c. not (c == b':')) s ≡ true
unfolding all is_hex_digit
no_colon [] h = refl
no_colon (c ∷ s) h = ground (arith, no_colon s)

parse_parts :
    (flag s hex : Bytes) (tail : Option Bytes) (h : ℕ) (default_threshold : ℤ)
    → cut_prefix flag (codes "phash$") ≡ some s
    → cut b':' s ≡ (hex, tail)
    → parse_uint_hex hex ≡ some h
    → parse_phash_flag flag default_threshold ≡ some (h, threshold_of tail default_threshold)
unfolding parse_phash_flag
parse_parts flag s hex tail h default_threshold e parts read = ground (arith, e, parts, read)

threshold_read :
    (threshold default_threshold : ℤ)
    → IsInt64 threshold
    → threshold_of (some (format_d threshold)) default_threshold ≡ threshold
unfolding threshold_of
threshold_read threshold default_threshold k = ground (arith, atoi-format_d threshold k)

written-is_phash_flag :
    (s t : Bytes) (c : ℕ) → is_phash_flag (codes "phash$" ++ (s ++ c ∷ t)) ≡ true
unfolding is_phash_flag str_eq
written-is_phash_flag s t c = ground (arith, length-append s (c ∷ t))

-- A flag is read back as the hash and the threshold that it was written with, whatever the default
-- threshold, and the store takes it for a screenshot flag.
pub parse_phash_flag-phash_flag :
    (hash : ℕ) (threshold default_threshold : ℤ)
    → hash < 2 ^ 64
    → IsInt64 threshold
    → (parse_phash_flag (phash_flag hash threshold) default_threshold ≡ some (hash, threshold))
      × (is_phash_flag (phash_flag hash threshold) ≡ true)
unfolding phash_flag
parse_phash_flag-phash_flag hash threshold default_threshold h k =
    let hex = hex_digits 16 hash in
    let body = hex ++ b':' ∷ format_d threshold in
    (
      parse_parts (codes "phash$" ++ body) body hex (some (format_d threshold)) hash
            default_threshold (cut_prefix-append (codes "phash$") body)
            (cut-append b':' hex (format_d threshold) (no_colon hex (hex_digits-all 16 hash)))
            (parse_uint_hex-hex_digits hash h)
          ∙ ap (λ n. some (hash, n)) (threshold_read threshold default_threshold k),
      written-is_phash_flag hex (format_d threshold) b':',
    )

-- An exercise's flag, written for a reference picture, accepts a submission exactly if it decodes to
-- a picture whose hash is within the threshold of the reference's.
pub phash_grader-phash_flag :
    (decode_image : Bytes → Option Image) (reference : Image) (threshold default_threshold : ℤ)
    (submitted : Bytes)
    → IsInt64 threshold
    → phash_grader decode_image default_threshold (phash_flag (dhash reference) threshold) submitted
      ≡ within decode_image (dhash reference) threshold (decode_capture decode_image submitted)
unfolding phash_grader within
phash_grader-phash_flag decode_image reference threshold default_threshold submitted k =
    let (read, _) =
      parse_phash_flag-phash_flag (dhash reference) threshold default_threshold
        (dhash_bound reference) k in
    rw (read, phash_grader) refl
