-- ===== src/Shared/Table.antt =====
-- Go's maps with string keys: association lists whose order stands for the order of iteration,
-- which Go leaves open.
use training_platform.Shared.{
  Bytes, ◌≡◌, refl, Bool, true, false, Option, none, some, List, [], ◌∷◌, arith, str_eq, str_eq_iff,
  str_eq_refl, if◌then◌else◌,
}

abbrev pub Table {ℓ} : Type ℓ → Type ℓ
Table V = List (Bytes × V)

module _ {ℓ} {V : Type ℓ} where
  -- m[k], with the second result of Go's `v, ok := m[k]`.
  unfoldable pub lookup : Bytes → Table V → Option V
  lookup k [] = none
  lookup k ((j, v) ∷ m) = if str_eq j k then some v else lookup k m

  -- m[k] = v
  unfoldable pub insert : Bytes → V → Table V → Table V
  insert k v [] = (k, v) ∷ []
  insert k v ((j, w) ∷ m) = if str_eq j k then (k, v) ∷ m else (j, w) ∷ insert k v m

  pub lookup-insert :
      (k j : Bytes) (v : V) (m : Table V)
      → lookup j (insert k v m) ≡ (if str_eq k j then some v else lookup j m)
  unfolding lookup insert
  lookup-insert k j v [] = refl
  lookup-insert k j v ((i, w) ∷ m) =
      ground (arith, str_eq_iff k j, str_eq_iff i k, str_eq_iff i j, lookup-insert k j v m)

  pub lookup-insert_self : (k : Bytes) (v : V) (m : Table V) → lookup k (insert k v m) ≡ some v
  lookup-insert_self k v m = simp (lookup-insert, str_eq_refl)

-- A Go `map[string]bool` read as the set of its true keys: a missing key reads false.
abbrev pub StringSet : Type 0
StringSet = Table Bool

unfoldable pub contains : StringSet → Bytes → Bool
unfolding lookup
contains s k = elim (lookup k s) [ none ↦ false | some b ↦ b ]

pub contains-insert :
    (k j : Bytes) (s : StringSet)
    → contains (insert k true s) j ≡ (if str_eq k j then true else contains s j)
unfolding contains
contains-insert k j s = ground (arith, lookup-insert k j true s)

-- A table that is a map: no key stands in two of its entries.
abbrev pub IsMap {ℓ} : {V : Type ℓ} → Table V → Type ℓ
IsMap [] = Unit
IsMap ((k, v) ∷ m) = (lookup k m ≡ none) × IsMap m

pub insert-IsMap {ℓ} :
    {V : Type ℓ} (k : Bytes) (v : V) (m : Table V) → IsMap m → IsMap (insert k v m)
unfolding insert lookup
insert-IsMap k v [] h = (refl, tt)
insert-IsMap k v ((j, w) ∷ m) h =
    ground (arith, str_eq_iff j k, str_eq_iff k j, lookup-insert k j v m, insert-IsMap k v m h.1)

-- delete(m, k)
module _ {ℓ} {V : Type ℓ} where
  unfoldable pub remove : Bytes → Table V → Table V
  remove k [] = []
  remove k ((j, v) ∷ m) = let rest = remove k m in if str_eq j k then rest else (j, v) ∷ rest

  pub lookup-remove :
      (k j : Bytes) (m : Table V)
      → lookup j (remove k m) ≡ (if str_eq k j then none else lookup j m)
  unfolding lookup remove
  lookup-remove k j [] = ground arith
  lookup-remove k j ((i, v) ∷ m) =
      ground (arith, str_eq_iff k j, str_eq_iff i k, str_eq_iff i j, lookup-remove k j m)
