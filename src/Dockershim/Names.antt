-- ===== src/Dockershim/Names.antt =====
-- internal/dockershim/k8s.go: from Docker's names and environments to those of a Pod, and addresses
-- for names without one. SHA-1 and the runes of strings.ToLower are parameters.
pub mod Labels
use training_platform.Shared.{
  Bytes, codes, ℕ, ◌-◌, ◌≡◌, Bool, true, false, not, ◌&&◌, Option, none, some, List, [], ◌∷◌, ◌++◌,
  map, all, length, take, ltb, leb, is_empty, cut, if◌then◌else◌,
}
use training_platform.Shared.Hex.{hex_encode}
use training_platform.Shared.Int.{pos}
use training_platform.Shared.Decimal.{format_d}
use training_platform.Shared.Dashes.{is_label_char, trim_dashes}

-- crypto/sha1: a sum of 20 bytes.
pub record Sha1 : Type 0 where
  pub sum : Bytes → Bytes
  pub sum_bytes : (s : Bytes) → all (λ c. ltb c 256) (sum s) ≡ true
  pub sum_length : (s : Bytes) → length (sum s) ≡ 20

-- The loop body of sanitizeK8sName, for a rune.
unfoldable pub label_char : ℕ → ℕ
label_char r = if is_label_char r then r else b'-'

-- sanitizeK8sName. `lower_runes` gives the runes of strings.ToLower(name).
unfoldable pub sanitize_k8s_name : Sha1 → (Bytes → List ℕ) → Bytes → Bytes
sanitize_k8s_name sha lower_runes name =
    let trimmed = trim_dashes (map label_char (lower_runes name)) in
    let out = if is_empty trimmed then codes "c" else trimmed in
    let suffix = b'-' ∷ take 8 (hex_encode (sha.sum name)) in
    if ltb 63 (length out) then take (63 - length suffix) out ++ suffix else out

-- envFromDockerFormat: the entries with a "=", split at the first one.
unfoldable pub env_from_docker_format : List Bytes → List (Bytes × Bytes)
env_from_docker_format [] = []
env_from_docker_format (kv ∷ env) =
    let rest = env_from_docker_format env in
    let (name, value) = cut b'=' kv in elim value [ none ↦ rest | some v ↦ (name, v) ∷ rest ]

-- sum[0] and sum[1]; a sum has 20 bytes.
unfoldable pub first_two : Bytes → ℕ × ℕ
first_two (a ∷ b ∷ rest) = (a, b)
first_two _ = (0, 0)

-- fakeIPFor
unfoldable pub fake_ip_for : Sha1 → Bytes → Bytes → Bytes
fake_ip_for sha docker_name network_name =
    let (a, b) = first_two (sha.sum (docker_name ++ b'/' ∷ network_name)) in
    codes "169.254." ++ (format_d (pos a) ++ b'.' ∷ format_d (pos b))
