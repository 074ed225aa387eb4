-- ===== src/Scoring/Report/Tally.antt =====
-- The loops of Standings against a count for each user.
use training_platform.Shared.{
  Bytes, ℕ, zero, suc, ◌+◌, ◌≡◌, refl, sym, ◌∙◌, Option, none, some, [], ◌∷◌, arith, str_eq,
  str_eq_iff, if◌then◌else◌,
}
use training_platform.Shared.Int.{ℤ, pos, ◌+ℤ◌, +ℤ_assoc, +ℤ_zero}
use training_platform.Shared.Table.{Table, StringSet, lookup, insert, lookup-insert}
use training_platform.Scoring.Store.{Store}
use training_platform.Scoring.Report.{Standing, value_of, bumped, tally_users, tally, by_user}

-- How many challenges of the table a user has solved, and what they are worth.
pub record Score : Type 0 where
  pub solved : ℕ
  pub points : ℤ

abbrev pub no_score : Score
no_score = record { solved = 0; points = pos 0 }

unfoldable pub plus : Score → Score → Score
plus a b = record { solved = a.solved + b.solved; points = a.points +ℤ b.points }

-- The score of a user in one challenge's set of solvers.
unfoldable pub score_in : Bytes → ℤ → StringSet → Score
score_in u value [] = no_score
score_in u value ((v, _) ∷ users) =
    let rest = score_in u value users in
    if str_eq v u then plus (record { solved = 1; points = value }) rest else rest

-- The sum over the challenges.
unfoldable pub score : Store → Bytes → Table StringSet → Score
score s u [] = no_score
score s u ((hash, users) ∷ rest) = plus (score_in u (value_of s hash) users) (score s u rest)

-- The standing of a user with this score: none if nothing is solved.
unfoldable pub standing_of : Bytes → Score → Option Standing
standing_of u sc = elim sc.solved [
  | zero ↦ none
  | suc n ↦ some (record { user = u; solved = suc n; points = sc.points })
]

-- An entry with a score added; a score of nothing makes no entry.
unfoldable pub credit : Bytes → Score → Option Standing → Option Standing
unfolding standing_of
credit u sc none = standing_of u sc
credit u sc (some st) =
    some (record st { solved = st.solved + sc.solved; points = st.points +ℤ sc.points })

credit-no_score : (u : Bytes) (o : Option Standing) → credit u no_score o ≡ o
unfolding credit
credit-no_score u none = refl
credit-no_score u (some st) = ground (arith, +ℤ_zero st.points)

credit-one :
    (u : Bytes) (value : ℤ) (sc : Score) (o : Option Standing)
    → credit u sc (some (bumped u value o))
      ≡ credit u (plus (record { solved = 1; points = value }) sc) o
unfolding credit bumped plus
credit-one u value sc none = ground arith
credit-one u value sc (some st) = ground (arith, +ℤ_assoc st.points value sc.points)

lookup-tally_users :
    (u : Bytes) (value : ℤ) (users : StringSet) (t : Table Standing)
    → lookup u (tally_users value users t) ≡ credit u (score_in u value users) (lookup u t)
unfolding tally_users score_in
lookup-tally_users u value [] t = sym (credit-no_score u (lookup u t))
lookup-tally_users u value ((v, b) ∷ users) t =
    let new = bumped v value (lookup v t) in
    lookup-tally_users u value users (insert v new t)
    ∙ rw (lookup-insert v u new t)
        (ground (arith, str_eq_iff v u, credit-one u value (score_in u value users) (lookup u t)))

-- Who has solved nothing has no points.
abbrev IsConsistent : Score → Type 0
IsConsistent sc = sc.solved ≡ 0 → sc.points ≡ pos 0

score_in-IsConsistent :
    (u : Bytes) (value : ℤ) (users : StringSet) → IsConsistent (score_in u value users)
unfolding score_in plus
score_in-IsConsistent u value [] h = refl
score_in-IsConsistent u value ((v, b) ∷ users) h =
    ground (arith, score_in-IsConsistent u value users)

zero_+ℤ : (a : ℤ) → pos 0 +ℤ a ≡ a
unfolding ◌+ℤ◌
zero_+ℤ a = ground arith

credit-plus-none :
    (u : Bytes) (n : ℕ) (x : ℤ) (b : Score)
    → (n ≡ 0 → x ≡ pos 0)
    → credit u b (credit u (record { solved = n; points = x }) none)
      ≡ credit u (plus (record { solved = n; points = x }) b) none
unfolding credit plus
credit-plus-none u zero x b h = ground (arith, h refl, zero_+ℤ b.points)
credit-plus-none u (suc n) x b h = ground arith

credit-plus :
    (u : Bytes) (a b : Score) (o : Option Standing)
    → IsConsistent a
    → credit u b (credit u a o) ≡ credit u (plus a b) o
credit-plus u a b none h = credit-plus-none u a.solved a.points b h
credit-plus u a b (some st) h =
    unfold credit plus in ground (arith, +ℤ_assoc st.points a.points b.points)

lookup-tally :
    (s : Store) (u : Bytes) (m : Table StringSet) (t : Table Standing)
    → lookup u (tally s m t) ≡ credit u (score s u m) (lookup u t)
unfolding tally score
lookup-tally s u [] t = sym (credit-no_score u (lookup u t))
lookup-tally s u ((hash, users) ∷ rest) t =
    let value = value_of s hash in
    lookup-tally s u rest (tally_users value users t)
    ∙ rw (lookup-tally_users u value users t) (
        credit-plus u (score_in u value users) (score s u rest) (lookup u t)
          (score_in-IsConsistent u value users))

-- The table behind the ranking has an entry for exactly the users with a solve, and it has the
-- number of their solves and the sum of the values.
pub lookup-by_user :
    (s : Store) (u : Bytes) → lookup u (by_user s) ≡ standing_of u (score s u s.solves)
unfolding by_user
lookup-by_user s u = lookup-tally s u s.solves [] ∙ unfold credit lookup in refl
