-- ===== src/Scoring/Phash/Distance.antt =====
-- The distance of two hashes.
use training_platform.Shared.{ℕ, zero, suc, ◌+◌, ◌/◌, ◌^◌, ◌≤◌, ◌<◌, ◌≡◌, ◌↔◌, refl, arith}
use training_platform.Scoring.Phash.{ones_of_xor, hamming}

ones_of_xor_self : (k a : ℕ) → ones_of_xor k a a ≡ 0
unfolding ones_of_xor
ones_of_xor_self zero a = refl
ones_of_xor_self (suc k) a = ground (arith, ones_of_xor_self k (a / 2))

ones_of_xor_zero : (k a b : ℕ) → a < 2 ^ k → b < 2 ^ k → ones_of_xor k a b ≡ 0 → a ≡ b
unfolding ones_of_xor
ones_of_xor_zero zero a b ha hb h = ground arith
ones_of_xor_zero (suc k) a b ha hb h =
    ground (arith, ones_of_xor_zero k (a / 2) (b / 2) (grind arith) (grind arith))

ones_of_xor_comm : (k a b : ℕ) → ones_of_xor k a b ≡ ones_of_xor k b a
unfolding ones_of_xor
ones_of_xor_comm zero a b = refl
ones_of_xor_comm (suc k) a b = ground (arith, ones_of_xor_comm k (a / 2) (b / 2))

ones_of_xor_triangle : (k a b c : ℕ) → ones_of_xor k a c ≤ ones_of_xor k a b + ones_of_xor k b c
unfolding ones_of_xor
ones_of_xor_triangle zero a b c = ground arith
ones_of_xor_triangle (suc k) a b c = ground (arith, ones_of_xor_triangle k (a / 2) (b / 2) (c / 2))

ones_of_xor_bound : (k a b : ℕ) → ones_of_xor k a b ≤ k
unfolding ones_of_xor
ones_of_xor_bound zero a b = ground arith
ones_of_xor_bound (suc k) a b = ground (arith, ones_of_xor_bound k (a / 2) (b / 2))

-- The distance is a metric on hashes, of at most 64: it is 0 exactly between equal ones, it is the
-- same both ways, and a detour is never shorter.
hamming_metric :
    (a b c : ℕ)
    → a < 2 ^ 64
    → b < 2 ^ 64
    → (hamming a b ≡ 0 ↔ a ≡ b)
      × (hamming a b ≡ hamming b a)
      × (hamming a c ≤ hamming a b + hamming b c)
      × (hamming a b ≤ 64)
unfolding hamming
hamming_metric a b c ha hb = (
  (ones_of_xor_zero 64 a b ha hb, λ e. rw e (ones_of_xor_self 64 b)),
  ones_of_xor_comm 64 a b,
  ones_of_xor_triangle 64 a b c,
  ones_of_xor_bound 64 a b,
)
