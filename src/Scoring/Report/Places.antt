-- ===== src/Scoring/Report/Places.antt =====
-- The order of the ranking, read off its entries, and the entries that it has for a user.
use training_platform.Shared.{
  Bytes, ◌≤◌, ◌≡◌, refl, Bool, true, false, Option, none, some, List, [], ◌∷◌, All, length, arith,
  str_eq, str_eq_refl, str_eq_iff, str_lt, if◌then◌else◌, Bool-cases, inl, inr, ◌⊎◌,
}
use training_platform.Shared.Int.{◌≤ℤ◌, ◌<ℤ◌}
use training_platform.Shared.Table.{Table, lookup, IsMap}
use training_platform.Shared.Sort.{sort_slice, insert_sorted, str_lt_asymm}
use training_platform.Scoring.Report.{Standing, values, ranks_before}

-- One stands above another: with no fewer points, and with more of them, or with a name that is not
-- behind the other's.
abbrev pub Above : Standing → Standing → Type 0
Above a b = (b.points ≤ℤ a.points) × ((b.points <ℤ a.points) ⊎ (str_lt b.user a.user ≡ false))

-- Each stands above all behind it.
abbrev pub AreRanked : List Standing → Type 0
AreRanked [] = Unit
AreRanked (a ∷ sts) = All (Above a) sts × AreRanked sts

-- The entries of a user.
unfoldable pub entries : Bytes → List Standing → List Standing
entries u [] = []
entries u (a ∷ sts) = let rest = entries u sts in if str_eq a.user u then a ∷ rest else rest

unfoldable pub listed : Option Standing → List Standing
listed none = []
listed (some a) = a ∷ []

str_lt_trans : (s t u : Bytes) → str_lt t s ≡ false → str_lt u t ≡ false → str_lt u s ≡ false
unfolding str_lt
str_lt_trans [] [] [] h k = refl
str_lt_trans [] [] (e ∷ u) h k = refl
str_lt_trans [] (d ∷ t) [] h k = cc
str_lt_trans [] (d ∷ t) (e ∷ u) h k = refl
str_lt_trans (c ∷ s) [] u h k = cc
str_lt_trans (c ∷ s) (d ∷ t) [] h k = cc
str_lt_trans (c ∷ s) (d ∷ t) (e ∷ u) h k = ground (arith, str_lt_trans s t u)

Above-trans : (a b c : Standing) → Above a b → Above b c → Above a c
Above-trans a b c h k = ground (arith, h, k, str_lt_trans a.user b.user c.user)

ranks_before-Above : (a b : Standing) → ranks_before a b ≡ true → Above a b
unfolding ranks_before
ranks_before-Above a b h = ground (arith, h, str_lt_asymm a.user b.user)

not-ranks_before-Above : (a b : Standing) → ranks_before b a ≡ false → Above a b
unfolding ranks_before
not-ranks_before-Above a b h = ground (arith, h)

All_Above :
    (a b : Standing) (sts : List Standing) → Above a b → All (Above b) sts → All (Above a) sts
All_Above a b [] h k = tt
All_Above a b (c ∷ sts) h k = (Above-trans a b c h k.0, All_Above a b sts h k.1)

insert_sorted-All :
    (P : Standing → Type 0) (x : Standing) (xs : List Standing)
    → P x
    → All P xs
    → All P (insert_sorted ranks_before x xs)
unfolding insert_sorted
insert_sorted-All P x [] h k = (h, tt)
insert_sorted-All P x (y ∷ ys) h k = elim (Bool-cases (ranks_before y x)) [
  | inl e ↦ rw (e, insert_sorted) (k.0, insert_sorted-All P x ys h k.1)
  | inr e ↦ rw (e, insert_sorted) (h, k)
]

insert_sorted-AreRanked :
    (x : Standing) (xs : List Standing) → AreRanked xs → AreRanked (insert_sorted ranks_before x xs)
unfolding insert_sorted
insert_sorted-AreRanked x [] h = (tt, tt)
insert_sorted-AreRanked x (y ∷ ys) h = elim (Bool-cases (ranks_before y x)) [
  | inl e ↦
      rw (e, insert_sorted)
        (
          insert_sorted-All (Above y) x ys (ranks_before-Above y x e) h.0,
          insert_sorted-AreRanked x ys h.1,
        )
  | inr e ↦
      let first = not-ranks_before-Above x y e in
      rw (e, insert_sorted) ((first, All_Above x y ys first h.0), h)
]

pub sort_slice-AreRanked : (xs : List Standing) → AreRanked (sort_slice ranks_before xs)
unfolding sort_slice
sort_slice-AreRanked [] = tt
sort_slice-AreRanked (x ∷ xs) = insert_sorted-AreRanked x _ (sort_slice-AreRanked xs)

-- Where a user has one entry at most, the order of the list does not matter to it.
entries-insert_sorted :
    (u : Bytes) (less : Standing → Standing → Bool) (x : Standing) (xs : List Standing)
    → length (entries u (x ∷ xs)) ≤ 1
    → entries u (insert_sorted less x xs) ≡ entries u (x ∷ xs)
unfolding entries insert_sorted
entries-insert_sorted u less x [] h = refl
entries-insert_sorted u less x (y ∷ ys) h = elim (Bool-cases (str_eq y.user u)) [
  | inl e ↦ elim (Bool-cases (str_eq x.user u)) [
    | inl k ↦ absurd (ground (arith, e, k, h))
    | inr k ↦ ground (arith, e, k, h, entries-insert_sorted u less x ys)
  ]
  | inr e ↦ ground (arith, e, h, entries-insert_sorted u less x ys)
]

pub entries-sort_slice :
    (u : Bytes) (less : Standing → Standing → Bool) (xs : List Standing)
    → length (entries u xs) ≤ 1
    → entries u (sort_slice less xs) ≡ entries u xs
unfolding sort_slice entries
entries-sort_slice u less [] h = refl
entries-sort_slice u less (x ∷ xs) h =
    let same : entries u (sort_slice less xs) ≡ entries u xs =
      entries-sort_slice u less xs (ground (arith, h)) in
    ground (arith, h, same, entries-insert_sorted u less x (sort_slice less xs))

-- A table whose keys are the users of its entries has the entry of a user alone.
pub entries-values :
    (u : Bytes) (t : Table Standing)
    → IsMap t
    → ((k : Bytes) (a : Standing) → lookup k t ≡ some a → a.user ≡ k)
    → entries u (values t) ≡ listed (lookup u t)
unfolding entries values lookup listed
entries-values u [] h keyed = refl
entries-values u ((k, a) ∷ t) h keyed =
    let named : a.user ≡ k = keyed k a (ground (arith, str_eq_refl k)) in
    let rest =
      entries-values u t h.1 (λ j b e. keyed j b (ground (arith, str_eq_iff k j, h.0, e))) in
    ground (arith, named, rest, h.0, str_eq_iff k u)

pub length-listed : (o : Option Standing) → length (listed o) ≤ 1
unfolding listed
length-listed none = omega arith
length-listed (some a) = omega arith
