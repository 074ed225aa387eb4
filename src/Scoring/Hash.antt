-- ===== src/Scoring/Hash.antt =====
-- internal/scoring/hash.go: the ids of challenges and the salted answers. SHA-256 is the parameter
-- `Sha256`: 32 bytes for each text.
use training_platform.Shared.{length, Bytes, ◌≡◌, true, ◌++◌, all, ltb}
use training_platform.Shared.Hex.{hex_encode}

pub record Sha256 : Type 0 where
  pub sum : Bytes → Bytes
  pub sum_bytes : (s : Bytes) → all (λ c. ltb c 256) (sum s) ≡ true
  pub sum_length : (s : Bytes) → length (sum s) ≡ 32

-- ChallengeHash
unfoldable pub challenge_hash : Sha256 → Bytes → Bytes → Bytes
challenge_hash sha question lesson_filename = hex_encode (sha.sum (question ++ lesson_filename))

-- FlagHash
unfoldable pub flag_hash : Sha256 → Bytes → Bytes → Bytes
flag_hash sha answer salt = hex_encode (sha.sum (answer ++ salt))
