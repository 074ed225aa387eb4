-- ===== src/Shared/Runs.antt =====
-- Runs of characters: the longest front of a text that a class of characters takes.
use training_platform.Shared.Text.{Bytes}
use training_platform.Shared.Lists.{all}
use training_platform.Shared.Tests.{if◌then◌else◌}
use Prim.Native.Nat.{ℕ}
use mathlib.Core.Path.{◌≡◌, refl}
use mathlib.Core.Bool.{Bool, true, false}
use mathlib.Core.List.{[], ◌∷◌, ◌++◌}
use native.Mathlib.Omega.{arith}

-- A class of characters, as many as there are: its text, and what follows.
unfoldable pub run_while : (ℕ → Bool) → Bytes → Bytes × Bytes
run_while p [] = ([], [])
run_while p (c ∷ s) =
    let (run, rest) = run_while p s in if p c then (c ∷ run, rest) else ([], c ∷ s)

pub run_while-append :
    (p : ℕ → Bool) (s : Bytes) (c : ℕ) (t : Bytes)
    → all p s ≡ true
    → p c ≡ false
    → run_while p (s ++ c ∷ t) ≡ (s, c ∷ t)
unfolding run_while all
run_while-append p [] c t h k = ground (arith, k)
run_while-append p (b ∷ s) c t h k = ground (arith, run_while-append p s c t)

pub run_while-whole : (p : ℕ → Bool) (s : Bytes) → all p s ≡ true → run_while p s ≡ (s, [])
unfolding run_while all
run_while-whole p [] h = refl
run_while-whole p (c ∷ s) h = ground (arith, run_while-whole p s)

pub run_while-all : (p : ℕ → Bool) (s : Bytes) → all p (run_while p s).0 ≡ true
unfolding run_while all
run_while-all p [] = refl
run_while-all p (c ∷ s) = ground (arith, run_while-all p s)

-- What holds of all of a text holds of both parts.
pub run_while-keep :
    (p q : ℕ → Bool) (s : Bytes)
    → all q s ≡ true
    → (all q (run_while p s).0 ≡ true) × (all q (run_while p s).1 ≡ true)
unfolding run_while all
run_while-keep p q [] h = (refl, refl)
run_while-keep p q (c ∷ s) h = ground (arith, run_while-keep p q s)
