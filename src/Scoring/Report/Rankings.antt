-- ===== src/Scoring/Report/Rankings.antt =====
-- The order and the content of the three views.
use training_platform.Shared.{
  Bytes, length, ◌≤◌, some, ◌≡◌, refl, sym, ap, ◌∙◌, Bool, List, [], ◌∷◌, ◌++◌, arith, str_eq,
  str_eq_iff, if◌then◌else◌,
}
use training_platform.Shared.Int.{ℤ, ◌+ℤ◌, +ℤ_assoc, +ℤ_comm}
use training_platform.Shared.Table.{Table, StringSet, lookup, IsMap, insert-IsMap}
use training_platform.Shared.Sort.{
  sort_slice, insert_sorted, IsSorted, IsAsymmetric, sort_slice-IsSorted, str_lt_asymm,
}
use training_platform.Scoring.Store.{Store}
use training_platform.Scoring.Report.{
  values, Solve, value_of, user_rows, solve_rows, solve_less, results, Standing, tally_users, tally,
  by_user, ranks_before, standings, bumped,
}
use training_platform.Scoring.Report.Places.{
  AreRanked, entries, listed, sort_slice-AreRanked, entries-sort_slice, entries-values,
  length-listed,
}
use training_platform.Scoring.Report.Tally.{
  lookup-by_user, standing_of, Score, no_score, plus, score_in, score,
}

tally_users-IsMap :
    (value : ℤ) (users : StringSet) (t : Table Standing)
    → IsMap t
    → IsMap (tally_users value users t)
unfolding tally_users
tally_users-IsMap value [] t h = h
tally_users-IsMap value ((v, b) ∷ users) t h =
    tally_users-IsMap value users _ (insert-IsMap v (bumped v value (lookup v t)) t h)

tally-IsMap : (s : Store) (m : Table StringSet) (t : Table Standing) → IsMap t → IsMap (tally s m t)
unfolding tally
tally-IsMap s [] t h = h
tally-IsMap s ((hash, users) ∷ rest) t h =
    tally-IsMap s rest _ (tally_users-IsMap (value_of s hash) users t h)

solve_less_asymm : IsAsymmetric solve_less
unfolding solve_less
solve_less_asymm a b h = ground (
  arith,
  str_eq_iff a.user b.user,
  str_eq_iff b.user a.user,
  str_lt_asymm a.user b.user,
  str_lt_asymm a.challenge_name b.challenge_name,
)

standing_of-user : (u : Bytes) (sc : Score) (a : Standing) → standing_of u sc ≡ some a → a.user ≡ u
unfolding standing_of
standing_of-user u sc a h = ground (arith, h)

-- The entries that the table behind the ranking has for a user.
entries-by_user :
    (s : Store) (u : Bytes)
    → entries u (values (by_user s)) ≡ listed (standing_of u (score s u s.solves))
entries-by_user s u =
    let is_map : IsMap (by_user s) = unfold by_user in tally-IsMap s s.solves [] tt in
    entries-values u (by_user s) is_map
      (λ k a e. standing_of-user k (score s k s.solves) a (sym (lookup-by_user s k) ∙ e))
    ∙ ap listed (lookup-by_user s u)

-- The ranking has one entry for a user with a solve, with the number of the user's solves in the
-- store and the sum of their values, and none for anybody else; and whoever stands before another in
-- it, next to them or not, has at least as many points, and with as many a name that is not greater.
pub standings_ranking :
    (s : Store) (u : Bytes)
    → (entries u (standings s).ranking ≡ listed (standing_of u (score s u s.solves)))
      × AreRanked (standings s).ranking
unfolding standings
standings_ranking s u =
    let found = entries-by_user s u in
    let single : length (entries u (values (by_user s))) ≤ 1 =
      rw found (length-listed (standing_of u (score s u s.solves))) in
    (
      entries-sort_slice u ranks_before (values (by_user s)) single ∙ found,
      sort_slice-AreRanked (values (by_user s)),
    )

-- What the rows of a user add up to.
unfoldable pub rows_score : Bytes → List Solve → Score
rows_score u [] = no_score
rows_score u (r ∷ rows) =
    let rest = rows_score u rows in
    if str_eq r.user u then plus (record { solved = 1; points = r.value }) rest else rest

plus_left_comm : (a b c : Score) → plus a (plus b c) ≡ plus b (plus a c)
unfolding plus
plus_left_comm a b c = ground (
  arith,
  +ℤ_assoc a.points b.points c.points,
  +ℤ_assoc b.points a.points c.points,
  +ℤ_comm a.points b.points,
)

plus_assoc : (a b c : Score) → plus (plus a b) c ≡ plus a (plus b c)
unfolding plus
plus_assoc a b c = ground (arith, +ℤ_assoc a.points b.points c.points)

no_score-plus : (a : Score) → plus no_score a ≡ a
unfolding plus ◌+ℤ◌
no_score-plus a = ground arith

abbrev one_row : Solve → Score
one_row r = record { solved = 1; points = r.value }

rows_score-insert_sorted :
    (u : Bytes) (less : Solve → Solve → Bool) (r : Solve) (rows : List Solve)
    → rows_score u (insert_sorted less r rows) ≡ rows_score u (r ∷ rows)
unfolding insert_sorted rows_score
rows_score-insert_sorted u less r [] = refl
rows_score-insert_sorted u less r (q ∷ rows) = ground (
  arith,
  rows_score-insert_sorted u less r rows,
  plus_left_comm (one_row q) (one_row r) (rows_score u rows),
)

rows_score-sort_slice :
    (u : Bytes) (less : Solve → Solve → Bool) (rows : List Solve)
    → rows_score u (sort_slice less rows) ≡ rows_score u rows
unfolding sort_slice rows_score
rows_score-sort_slice u less [] = refl
rows_score-sort_slice u less (r ∷ rows) =
    rows_score-insert_sorted u less r (sort_slice less rows)
    ∙ unfold rows_score in rw (rows_score-sort_slice u less rows)

rows_score-append :
    (u : Bytes) (xs ys : List Solve)
    → rows_score u (xs ++ ys) ≡ plus (rows_score u xs) (rows_score u ys)
unfolding rows_score
rows_score-append u [] ys = sym (no_score-plus (rows_score u ys))
rows_score-append u (r ∷ xs) ys =
    ground
      (arith, rows_score-append u xs ys, plus_assoc (one_row r) (rows_score u xs) (rows_score u ys))

rows_score-user_rows :
    (s : Store) (u hash : Bytes) (users : StringSet)
    → rows_score u (user_rows s hash users) ≡ score_in u (value_of s hash) users
unfolding rows_score user_rows score_in
rows_score-user_rows s u hash [] = refl
rows_score-user_rows s u hash ((v, b) ∷ users) = ground (arith, rows_score-user_rows s u hash users)

rows_score-solve_rows :
    (s : Store) (u : Bytes) (m : Table StringSet) → rows_score u (solve_rows s m) ≡ score s u m
unfolding solve_rows score
rows_score-solve_rows s u [] = unfold rows_score in refl
rows_score-solve_rows s u ((hash, users) ∷ rest) =
    rows_score-append u (user_rows s hash users) (solve_rows s rest)
    ∙ rw (rows_score-user_rows s u hash users) (rw (rows_score-solve_rows s u rest))

-- The scoreboard and the ranking agree: a user's rows on the scoreboard are as many as the solves of
-- their standing, and add up to its points; with no row there is no standing. The rows are sorted
-- by user, then by the name of the challenge.
pub results-agree :
    (s : Store) (u : Bytes)
    → (lookup u (by_user s) ≡ standing_of u (rows_score u (results s)))
      × IsSorted solve_less (results s)
unfolding results
results-agree s u =
    let same : rows_score u (results s) ≡ score s u s.solves =
      rows_score-sort_slice u solve_less (solve_rows s s.solves)
      ∙ rows_score-solve_rows s u s.solves in
    (
      lookup-by_user s u ∙ ap (standing_of u) (sym same),
      sort_slice-IsSorted solve_less (solve_rows s s.solves) solve_less_asymm,
    )
