-- ===== src/Shared/Sort.antt =====
-- sort.Slice: a permutation in which no element is less than the one before it. The sort of Go is
-- not stable, so nothing is stated of elements that are not less than one another either way.
use mathlib.Core.List.{Perm}
use mathlib.Core.List.Perm
use training_platform.Shared.{
  ◌≡◌, refl, Bool, true, false, List, [], ◌∷◌, arith, if◌then◌else◌, Bool-cases, inl, inr, str_lt,
}

module _ {ℓ} {A : Type ℓ} where
  unfoldable pub insert_sorted : (A → A → Bool) → A → List A → List A
  insert_sorted less x [] = x ∷ []
  insert_sorted less x (y ∷ ys) = if less y x then y ∷ insert_sorted less x ys else x ∷ y ∷ ys

  unfoldable pub sort_slice : (A → A → Bool) → List A → List A
  unfolding insert_sorted
  sort_slice less [] = []
  sort_slice less (x ∷ xs) = insert_sorted less x (sort_slice less xs)

  abbrev pub IsSorted : (A → A → Bool) → List A → Type 0
  IsSorted less [] = Unit
  IsSorted less (x ∷ xs) = elim xs [ [] ↦ Unit | y ∷ _ ↦ less y x ≡ false ] × IsSorted less xs

  insert_sorted-perm :
      (less : A → A → Bool) (x : A) (xs : List A) → Perm (insert_sorted less x xs) (x ∷ xs)
  unfolding insert_sorted
  insert_sorted-perm less x [] = Perm.refl (x ∷ [])
  insert_sorted-perm less x (y ∷ ys) = elim (Bool-cases (less y x)) [
    | inl e ↦ rw e (Perm.trans (Perm.cons y (insert_sorted-perm less x ys)) (Perm.swap x y ys))
    | inr e ↦ rw e (Perm.refl (x ∷ y ∷ ys))
  ]

  sort_slice-perm : (less : A → A → Bool) (xs : List A) → Perm (sort_slice less xs) xs
  unfolding sort_slice
  sort_slice-perm less [] = Perm.refl []
  sort_slice-perm less (x ∷ xs) =
      Perm.trans (insert_sorted-perm less x (sort_slice less xs))
        (Perm.cons x (sort_slice-perm less xs))

  abbrev pub IsAsymmetric : (A → A → Bool) → Type ℓ
  IsAsymmetric less = (a b : A) → less a b ≡ true → less b a ≡ false

  insert_sorted-IsSorted :
      (less : A → A → Bool) (x : A) (xs : List A)
      → IsAsymmetric less
      → IsSorted less xs
      → IsSorted less (insert_sorted less x xs)
  unfolding insert_sorted
  insert_sorted-IsSorted less x [] asym h = (tt, tt)
  insert_sorted-IsSorted less x (y ∷ []) asym h = ground (arith, asym y x)
  insert_sorted-IsSorted less x (y ∷ z ∷ ys) asym h =
      ground (arith, asym y x, insert_sorted-IsSorted less x (z ∷ ys) asym h.1)

  pub sort_slice-IsSorted :
      (less : A → A → Bool) (xs : List A) → IsAsymmetric less → IsSorted less (sort_slice less xs)
  unfolding sort_slice
  sort_slice-IsSorted less [] asym = tt
  sort_slice-IsSorted less (x ∷ xs) asym =
      insert_sorted-IsSorted less x (sort_slice less xs) asym (sort_slice-IsSorted less xs asym)

pub str_lt_asymm : IsAsymmetric str_lt
unfolding str_lt
str_lt_asymm [] [] h = refl
str_lt_asymm [] (d ∷ t) h = refl
str_lt_asymm (c ∷ s) [] h = cc
str_lt_asymm (c ∷ s) (d ∷ t) h = ground (arith, str_lt_asymm s t)
