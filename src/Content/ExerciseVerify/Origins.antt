-- ===== src/Content/ExerciseVerify/Origins.antt =====
-- Where the client loads its library from, and where it posts to.
use training_platform.Shared.{
  Bytes, ◌≡◌, refl, ap, ◌∙◌, not, Bool, true, some, [], ◌∷◌, ◌++◌, arith, ◌==◌, ℕ, suc, zero,
}
use training_platform.Content.ExerciseVerify.{
  Page, drop_slashes, clean, or_else, lessons_origin, ctfd_origin,
}

-- The text does not end in a slash.
unfoldable pub no_end_slash : Bytes → Bool
no_end_slash [] = true
no_end_slash (c ∷ []) = not (c == b'/')
no_end_slash (c ∷ d ∷ s) = no_end_slash (d ∷ s)

drop_slashes_self : (s : Bytes) → no_end_slash s ≡ true → drop_slashes s ≡ s
unfolding drop_slashes no_end_slash
drop_slashes_self [] h = refl
drop_slashes_self (c ∷ []) h = ground arith
drop_slashes_self (c ∷ d ∷ s) h = rw (drop_slashes_self (d ∷ s) h)

-- A text of slashes only.
unfoldable pub slashes : ℕ → Bytes
slashes zero = []
slashes (suc n) = b'/' ∷ slashes n

drop_slashes-slashes : (n : ℕ) → drop_slashes (slashes n) ≡ []
unfolding drop_slashes slashes
drop_slashes-slashes zero = refl
drop_slashes-slashes (suc n) = rw (drop_slashes-slashes n)

drop_slashes-append : (s : Bytes) (n : ℕ) → drop_slashes (s ++ slashes n) ≡ drop_slashes s
unfolding drop_slashes
drop_slashes-append [] n = drop_slashes-slashes n
drop_slashes-append (c ∷ s) n = rw (drop_slashes-append s n)

clean-append : (u : Bytes) (n : ℕ) → no_end_slash u ≡ true → clean (some (u ++ slashes n)) ≡ u
unfolding clean
clean-append u n h = drop_slashes-append u n ∙ drop_slashes_self u h

-- A learner's page names its two origins with any number of slashes behind them, or by slashes
-- alone: the library comes from the first, and from the page's own origin if that is blank; posts
-- go to the second, and where the library comes from if that is blank. No slash is left at the end.
origins_lem :
    (p : Page) (u v : Bytes) (m n : ℕ)
    → no_end_slash u ≡ true
    → no_end_slash v ≡ true
    → p.lessons_domain ≡ some (u ++ slashes m)
    → p.ctfd_domain ≡ some (v ++ slashes n)
    → (lessons_origin p ≡ or_else u p.origin)
      × (ctfd_origin p ≡ or_else v (or_else u p.origin))
      × (no_end_slash (clean p.lessons_domain) ≡ true)
unfolding lessons_origin ctfd_origin
origins_lem p u v m n hu hv eu ev =
    let lessons = ap clean eu ∙ clean-append u m hu in
    let ctfd = ap clean ev ∙ clean-append v n hv in
    (ap (λ x. or_else x p.origin) lessons, rw (lessons, ctfd) refl, ap no_end_slash lessons ∙ hu)
