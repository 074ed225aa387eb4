-- ===== src/Shared/Suffixes.antt =====
-- The ends of texts.
use training_platform.Shared.Text.{Bytes, str_eq, str_eq_refl}
use training_platform.Shared.Lists.{length, drop, take, length-append, drop-append_whole}
use training_platform.Shared.Tests.{leb, if◌then◌else◌}
use Prim.Native.Nat.{◌-◌}
use mathlib.Core.Path.{◌≡◌, ap, ◌∙◌}
use mathlib.Core.Bool.{Bool, true, ◌&&◌}
use mathlib.Core.List.{◌++◌}
use native.Mathlib.Omega.{arith}

-- strings.HasSuffix(s, p) and strings.TrimSuffix(s, p)
unfoldable pub has_suffix : Bytes → Bytes → Bool
has_suffix s p = leb (length p) (length s) && str_eq (drop (length s - length p) s) p

unfoldable pub trim_suffix : Bytes → Bytes → Bytes
trim_suffix s p = if has_suffix s p then take (length s - length p) s else s

pub has_suffix-append : (s p : Bytes) → has_suffix (s ++ p) p ≡ true
unfolding has_suffix
has_suffix-append s p =
    let whole : length (s ++ p) - length p ≡ length s = omega (arith, length-append s p) in
    let rest : drop (length (s ++ p) - length p) (s ++ p) ≡ p =
      ap (λ n. drop n (s ++ p)) whole ∙ drop-append_whole s p in
    ground (arith, rest, length-append s p, str_eq_refl p)
