-- ===== src/Scoring/Phash.antt =====
-- internal/scoring/phash.go: perceptual hashes of screenshots. A uint64 is a number below 2^64; the
-- decoders of package image are the parameter `decode_image`.
pub mod Pixels
pub mod Distance
pub mod Grader
use training_platform.Shared.{
  Bytes, codes, ℕ, zero, suc, ◌+◌, ◌-◌, ◌*◌, ◌/◌, ◌%◌, ◌<◌, Bool, true, false, not, ◌&&◌, ◌||◌,
  Option, none, some, List, [], ◌∷◌, ◌++◌, ltb, leb, ◌==◌, if◌then◌else◌, any, all, map, length,
  cut_prefix, cut,
}
use training_platform.Shared.Int.{ℤ, pos, negsuc}
use training_platform.Shared.Decimal.{format_d}
use training_platform.Shared.Atoi.{atoi}
use training_platform.Shared.Hex.{hex_digits, parse_uint_hex}
use training_platform.Shared.Base64.{skip_newlines, decode_symbols}

-- DefaultPhashThreshold
abbrev pub default_phash_threshold : ℤ
default_phash_threshold = pos 12

-- image.Image: its bounds, and color.GrayModel.Convert of each pixel, a uint8.
pub record Image : Type 0 where
  pub min_x : ℕ
  pub min_y : ℕ
  pub width : ℕ
  pub height : ℕ
  pub gray : ℕ → ℕ → ℕ
  pub is_uint8 : (x y : ℕ) → gray x y < 256

-- max1
unfoldable pub max1 : ℕ → ℕ
max1 n = if ltb n 1 then 1 else n

-- A box of pixels: the ranges [x0, x0 + columns) and [y0, y0 + rows).
pub record Box : Type 0 where
  pub x0 : ℕ
  pub y0 : ℕ
  pub columns : ℕ
  pub rows : ℕ

-- One side of the box of cell i out of n: its start and its length, which is 1 where x1 <= x0.
unfoldable pub side_start : ℕ → ℕ → ℕ → ℕ → ℕ
side_start low size n i = low + i * max1 size / suc n

unfoldable pub side_length : ℕ → ℕ → ℕ → ℕ → ℕ
side_length low size n i =
    let a = side_start low size n i in
    let b = side_start low size n (suc i) in if leb b a then 1 else b - a

-- The box of cell (x, y) in a grid of w + 1 by h + 1 cells.
unfoldable pub box_of : Image → ℕ → ℕ → ℕ → ℕ → Box
box_of img w h x y = record {
  x0 = side_start img.min_x img.width w x;
  y0 = side_start img.min_y img.height h y;
  columns = side_length img.min_x img.width w x;
  rows = side_length img.min_y img.height h y;
}

-- The inner and the outer loop over a box.
unfoldable pub row_sum : Image → ℕ → ℕ → ℕ → ℕ
row_sum img yy xx zero = 0
row_sum img yy xx (suc k) = img.gray xx yy + row_sum img yy (suc xx) k

unfoldable pub box_sum : Image → ℕ → ℕ → ℕ → ℕ → ℕ
box_sum img x0 columns yy zero = 0
box_sum img x0 columns yy (suc k) = row_sum img yy x0 columns + box_sum img x0 columns (suc yy) k

-- uint8(sum / n), and 0 for an empty box. A picture has too few pixels to wrap the uint64 sum.
unfoldable pub average : ℕ → ℕ → ℕ
average sum zero = 0
average sum (suc n) = sum / suc n % 256

-- A cell of resizeGray.
unfoldable pub cell : Image → ℕ → ℕ → ℕ → ℕ → ℕ
cell img w h x y =
    let b = box_of img w h x y in
    average (box_sum img b.x0 b.columns b.y0 b.rows) (b.rows * b.columns)

-- The comparisons of one row of DHash from column x on, k of them, lowest bit first.
unfoldable pub row_bits : Image → ℕ → ℕ → ℕ → List Bool
row_bits img y x zero = []
row_bits img y x (suc k) =
    ltb (cell img 8 7 x y) (cell img 8 7 (suc x) y) ∷ row_bits img y (suc x) k

unfoldable pub grid_bits : Image → ℕ → ℕ → List Bool
grid_bits img y zero = []
grid_bits img y (suc k) = row_bits img y 0 8 ++ grid_bits img (suc y) k

-- The number with these bits, the lowest first: each step of DHash sets the next bit.
unfoldable pub of_bits : List Bool → ℕ
of_bits [] = 0
of_bits (b ∷ bs) = (if b then 1 else 0) + 2 * of_bits bs

-- DHash: 8 rows of 8 comparisons between 9 columns.
unfoldable pub dhash : Image → ℕ
dhash img = of_bits (grid_bits img 0 8)

-- bits.OnesCount64(a ^ b), over the lowest k bits.
unfoldable pub ones_of_xor : ℕ → ℕ → ℕ → ℕ
ones_of_xor zero a b = 0
ones_of_xor (suc k) a b =
    let rest = ones_of_xor k (a / 2) (b / 2) in if (a % 2) == (b % 2) then rest else suc rest

-- Hamming
unfoldable pub hamming : ℕ → ℕ → ℕ
hamming a b = ones_of_xor 64 a b

-- PhashFlag
unfoldable pub phash_flag : ℕ → ℤ → Bytes
phash_flag hash threshold = codes "phash$" ++ (hex_digits 16 hash ++ b':' ∷ format_d threshold)

-- The threshold of a flag's tail, and the default if it is missing or no number.
unfoldable pub threshold_of : Option Bytes → ℤ → ℤ
threshold_of none def = def
threshold_of (some t) def = elim (atoi t) [ none ↦ def | some n ↦ n ]

-- parsePhashFlag
unfoldable pub parse_phash_flag : Bytes → ℤ → Option (ℕ × ℤ)
parse_phash_flag flag def = elim (cut_prefix flag (codes "phash$")) [
  | none ↦ none
  | some s ↦
      let (hex, tail) = cut b':' s in
      elim (parse_uint_hex hex) [ none ↦ none | some h ↦ some (h, threshold_of tail def) ]
]

-- The ASCII blanks that strings.TrimSpace drops at both ends.
unfoldable pub is_blank : ℕ → Bool
is_blank c = (c == 32) || (leb 9 c && leb c 13)

unfoldable pub trim_left : Bytes → Bytes
trim_left [] = []
trim_left (c ∷ s) = let rest = trim_left s in if is_blank c then rest else c ∷ s

unfoldable pub trim_right : Bytes → Bytes
trim_right [] = []
trim_right (c ∷ s) = elim (trim_right s) [
  | [] ↦ if is_blank c then [] else c ∷ []
  | d ∷ t ↦ c ∷ d ∷ t
]

unfoldable pub trim_space : Bytes → Bytes
trim_space s = trim_right (trim_left s)

-- The characters of the standard alphabet, in those of the URL alphabet; 0 is in neither.
unfoldable pub url_symbol : ℕ → ℕ
url_symbol c =
    if c == b'+'
    then b'-'
    else if c == b'/'
    then b'_'
    else if c == b'-'
    then 0
    else if c == b'_'
    then 0
    else c

-- The text of a whole number of quanta without its padding of at most two.
unfoldable pub unpad : Bytes → Bytes
unpad [] = []
unpad (a ∷ b ∷ []) = if b == b'=' then (if a == b'=' then [] else a ∷ []) else a ∷ b ∷ []
unpad (a ∷ s) = a ∷ unpad s

-- base64.StdEncoding.DecodeString
unfoldable pub std_decode : Bytes → Option Bytes
std_decode s =
    let t = skip_newlines s in
    if (length t % 4) == 0 then decode_symbols (map url_symbol (unpad t)) else none

-- The base64 text of a submission: behind the comma of a data: URL, or all of it.
unfoldable pub capture_text : Bytes → Bytes
capture_text submitted =
    let s = trim_space submitted in
    elim (cut_prefix s (codes "data:")) [
      | none ↦ s
      | some _ ↦ elim (cut b',' s).1 [ none ↦ s | some b64 ↦ b64 ]
    ]

module _ (decode_image : Bytes → Option Image) where
  -- decodeCapture
  unfoldable pub decode_capture : Bytes → Option Image
  decode_capture submitted = elim (std_decode (trim_space (capture_text submitted))) [
    | none ↦ none
    | some raw ↦ decode_image raw
  ]

  -- Hamming(ref, DHash(img)) <= thr
  unfoldable pub within : ℕ → ℤ → Option Image → Bool
  within ref thr none = false
  within ref (negsuc n) (some img) = false
  within ref (pos n) (some img) = leb (hamming ref (dhash img)) n

  -- PhashGrader
  unfoldable pub phash_grader : ℤ → Bytes → Bytes → Bool
  phash_grader default_threshold flag submitted = elim (parse_phash_flag flag default_threshold) [
    | none ↦ false
    | some (ref, thr) ↦ within ref thr (decode_capture submitted)
  ]
