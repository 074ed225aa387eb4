-- ===== src/Scoring/Phash/Pixels.antt =====
-- Which pixels a hash reads, and the range of what it makes of them.
use training_platform.Shared.{
  ℕ, zero, suc, ◌+◌, ◌*◌, ◌/◌, ◌%◌, ◌^◌, ◌≤◌, ◌<◌, ◌≡◌, refl, ap, subst, ◌∙◌, arith, Bool, false,
  List, [], ◌∷◌, ◌++◌, ltb, ◌==◌, length, length-append,
}
use native.Mathlib.Nat.{div-lt_iff_lt-mul, div-le_of_le-mul}
use training_platform.Scoring.Phash.{
  Image, max1, Box, side_start, side_length, box_of, row_sum, box_sum, average, cell, row_bits,
  grid_bits, of_bits, dhash,
}

-- The start of cell i out of n + 1 lies in front of the size, and so does the start of the next, or
-- at it.
share-lt : (i size n : ℕ) → 0 < size → i ≤ n → i * size / suc n < size
share-lt i size n h k = (div-lt_iff_lt-mul (omega arith)).1 (grind arith)

share-le : (i size n : ℕ) → i ≤ n → suc i * size / suc n ≤ size
share-le i size n k = div-le_of_le-mul (suc n) (grind arith)

-- A side of a box lies in the picture, and is not empty.
side_within :
    (low size n i : ℕ)
    → 0 < size
    → i ≤ n
    → (low ≤ side_start low size n i)
      × (side_start low size n i + side_length low size n i ≤ low + size)
      × (0 < side_length low size n i)
unfolding side_start side_length max1
side_within low size n i h k =
    let full : max1 size ≡ size = ground arith in
    rw full (ground (arith, share-lt i size n h k, share-le i size n k))

row_sum_bound : (img : Image) (yy xx k : ℕ) → row_sum img yy xx k ≤ 255 * k
unfolding row_sum
row_sum_bound img yy xx zero = ground arith
row_sum_bound img yy xx (suc k) =
    ground (arith, row_sum_bound img yy (suc xx) k, img.is_uint8 xx yy)

box_sum_bound :
    (img : Image) (x0 columns yy k : ℕ) → box_sum img x0 columns yy k ≤ 255 * (k * columns)
unfolding box_sum
box_sum_bound img x0 columns yy zero = ground arith
box_sum_bound img x0 columns yy (suc k) =
    grind (arith, box_sum_bound img x0 columns (suc yy) k, row_sum_bound img yy x0 columns)

average_exact : (s n : ℕ) → 0 < n → s ≤ 255 * n → average s n ≡ s / n
unfolding average
average_exact s zero k h = omega arith
average_exact s (suc n) k h =
    let small : s / suc n ≤ 255 = div-le_of_le-mul (suc n) (grind arith) in omega (arith, small)

average_bound : (s n : ℕ) → average s n ≤ 255
unfolding average
average_bound s zero = omega arith
average_bound s (suc n) = omega arith

-- All pixels of a box lie in the picture, and there is one at least.
abbrev pub IsInside : Image → Box → Type 0
IsInside img b =
    (img.min_x ≤ b.x0)
    × (b.x0 + b.columns ≤ img.min_x + img.width)
    × (img.min_y ≤ b.y0)
    × (b.y0 + b.rows ≤ img.min_y + img.height)
    × (0 < b.rows * b.columns)

-- In a picture with a pixel, every cell of a grid reads pixels of the picture only, at least one,
-- and is their average, rounded down: the conversion to a byte does not wrap.
pub cell_lem :
    (img : Image) (w h x y : ℕ)
    → 0 < img.width
    → 0 < img.height
    → x ≤ w
    → y ≤ h
    → let b = box_of img w h x y in
      IsInside img b
      × (cell img w h x y ≡ box_sum img b.x0 b.columns b.y0 b.rows / (b.rows * b.columns))
      × (cell img w h x y ≤ 255)
unfolding cell box_of
cell_lem img w h x y hw hh kx ky =
    let b = box_of img w h x y in
    let (a, c, d) = side_within img.min_x img.width w x hw kx in
    let (a', c', d') = side_within img.min_y img.height h y hh ky in
    let filled : 0 < b.rows * b.columns = grind arith in
    let bound = box_sum_bound img b.x0 b.columns b.y0 b.rows in
    let exact =
      average_exact (box_sum img b.x0 b.columns b.y0 b.rows) (b.rows * b.columns) filled bound in
    ((a, c, a', c', filled), exact, average_bound _ _)

-- Bit k of a number.
unfoldable pub bit_at : ℕ → ℕ → Bool
bit_at zero n = (n % 2) == 1
bit_at (suc k) n = bit_at k (n / 2)

-- Entry k of a list of bits, and false behind its end.
unfoldable get_bit : List Bool → ℕ → Bool
get_bit [] k = false
get_bit (b ∷ bs) zero = b
get_bit (b ∷ bs) (suc k) = get_bit bs k

bit_at-zero : (k : ℕ) → bit_at k 0 ≡ false
unfolding bit_at
bit_at-zero zero = refl
bit_at-zero (suc k) = bit_at-zero k

bit_at-of_bits : (bs : List Bool) (k : ℕ) → bit_at k (of_bits bs) ≡ get_bit bs k
unfolding bit_at of_bits get_bit
bit_at-of_bits [] k = bit_at-zero k
bit_at-of_bits (b ∷ bs) zero = ground arith
bit_at-of_bits (b ∷ bs) (suc k) = ap (bit_at k) (ground arith) ∙ bit_at-of_bits bs k

of_bits_bound : (bs : List Bool) → of_bits bs < 2 ^ length bs
unfolding of_bits
of_bits_bound [] = ground arith
of_bits_bound (b ∷ bs) = ground (arith, of_bits_bound bs)

-- The comparison behind bit 8 y + x.
unfoldable pub darker_than_next : Image → ℕ → ℕ → Bool
darker_than_next img x y = ltb (cell img 8 7 x y) (cell img 8 7 (suc x) y)

length-row_bits : (img : Image) (y x k : ℕ) → length (row_bits img y x k) ≡ k
unfolding row_bits
length-row_bits img y x zero = refl
length-row_bits img y x (suc k) = ground (arith, length-row_bits img y (suc x) k)

length-grid_bits : (img : Image) (y k : ℕ) → length (grid_bits img y k) ≡ k * 8
unfolding grid_bits
length-grid_bits img y zero = refl
length-grid_bits img y (suc k) = ground (
  arith,
  length-append (row_bits img y 0 8) (grid_bits img (suc y) k),
  length-row_bits img y 0 8,
  length-grid_bits img (suc y) k,
)

get_bit-row_bits :
    (img : Image) (y x k j i : ℕ) (rest : List Bool)
    → j < k
    → x + j ≡ i
    → get_bit (row_bits img y x k ++ rest) j ≡ darker_than_next img i y
unfolding row_bits get_bit
get_bit-row_bits img y x zero j i rest h e = absurd (omega arith)
get_bit-row_bits img y x (suc k) zero i rest h e =
    let same : x ≡ i = omega arith in
    unfold darker_than_next in ap (λ c. ltb (cell img 8 7 c y) (cell img 8 7 (suc c) y)) same
get_bit-row_bits img y x (suc k) (suc j) i rest h e =
    get_bit-row_bits img y (suc x) k j i rest (omega arith) (omega arith)

get_bit-append :
    (bs cs : List Bool) (k i : ℕ) → length bs + k ≡ i → get_bit (bs ++ cs) i ≡ get_bit cs k
unfolding get_bit
get_bit-append [] cs k i e = let same : i ≡ k = omega arith in ap (get_bit cs) same
get_bit-append (b ∷ bs) cs k zero e = absurd (omega arith)
get_bit-append (b ∷ bs) cs k (suc i) e = get_bit-append bs cs k i (omega arith)

get_bit-grid_bits :
    (img : Image) (y k r j i n : ℕ)
    → r < k
    → j < 8
    → y + r ≡ i
    → 8 * r + j ≡ n
    → get_bit (grid_bits img y k) n ≡ darker_than_next img j i
unfolding grid_bits
get_bit-grid_bits img y zero r j i n h hj e place = absurd (omega arith)
get_bit-grid_bits img y (suc k) zero j i n h hj e place =
    let same : y ≡ i = omega arith in
    let first : n ≡ j = omega arith in
    ap (get_bit (row_bits img y 0 8 ++ grid_bits img (suc y) k)) first
    ∙ get_bit-row_bits img y 0 8 j j (grid_bits img (suc y) k) hj (omega arith)
    ∙ ap (λ c. darker_than_next img j c) same
get_bit-grid_bits img y (suc k) (suc r) j i n h hj e place =
    get_bit-append (row_bits img y 0 8) (grid_bits img (suc y) k) (8 * r + j) n
      (omega (arith, length-row_bits img y 0 8))
    ∙ get_bit-grid_bits img (suc y) k r j i (8 * r + j) (omega arith) hj (omega arith) refl

-- The hash of any picture is a uint64, and its bit 8 y + x tells whether cell x of row y is darker
-- than its neighbour to the right.
dhash_lem :
    (img : Image) (x y : ℕ)
    → x < 8
    → y < 8
    → (dhash img < 2 ^ 64) × (bit_at (8 * y + x) (dhash img) ≡ darker_than_next img x y)
unfolding dhash
dhash_lem img x y hx hy =
    let bits = grid_bits img 0 8 in
    let count : length bits ≡ 64 = length-grid_bits img 0 8 in
    (
      subst (λ n. of_bits bits < 2 ^ n) count (of_bits_bound bits),
      bit_at-of_bits bits (8 * y + x)
          ∙ get_bit-grid_bits img 0 8 y x y (8 * y + x) hy hx (omega arith) refl,
    )

pub dhash_bound : (img : Image) → dhash img < 2 ^ 64
dhash_bound img = (dhash_lem img 0 0 (omega arith) (omega arith)).0
