-- ===== src/Scoring/Report.antt =====
-- internal/scoring/store.go: List, Results and Standings, the views over the registered challenges
-- and the recorded solves. A range over a map is a recursion on the table.
pub mod Tally
pub mod Places
pub mod Rankings
use training_platform.Shared.{
  Bytes, ℕ, zero, suc, ◌+◌, Bool, true, false, not, Option, none, some, List, [], ◌∷◌, ◌++◌, map,
  length, str_eq, str_lt, if◌then◌else◌,
}
use training_platform.Shared.Int.{ℤ, pos, ◌+ℤ◌, ltb_ℤ, eqb_ℤ}
use training_platform.Shared.Table.{Table, StringSet, lookup, insert}
use training_platform.Shared.Sort.{sort_slice}
use training_platform.Scoring.Challenge.{Challenge}
use training_platform.Scoring.Store.{Store, solvers}

-- for _, c := range m
unfoldable pub values {ℓ} : {V : Type ℓ} → Table V → List V
values [] = []
values ((k, v) ∷ m) = v ∷ values m

unfoldable pub name_less : Challenge → Challenge → Bool
name_less a b = str_lt a.name b.name

-- Store.List
unfoldable pub list_challenges : Store → List Challenge
unfolding values name_less
list_challenges s = sort_slice name_less (values s.by_hash)

-- type Solve struct
pub record Solve : Type 0 where
  pub user : Bytes
  pub challenge_hash : Bytes
  pub challenge_name : Bytes
  pub value : ℤ

-- The name and the value of a challenge in a row: the hash and 0 if it is not registered.
unfoldable pub name_of : Store → Bytes → Bytes
name_of s hash = elim (lookup hash s.by_hash) [ none ↦ hash | some c ↦ c.name ]

unfoldable pub value_of : Store → Bytes → ℤ
value_of s hash = elim (lookup hash s.by_hash) [ none ↦ pos 0 | some c ↦ c.value ]

-- The inner and the outer loop of Results.
unfoldable pub user_rows : Store → Bytes → StringSet → List Solve
user_rows s hash [] = []
user_rows s hash ((u, _) ∷ users) =
    record {
      user = u;
      challenge_hash = hash;
      challenge_name = name_of s hash;
      value = value_of s hash;
    }
    ∷ user_rows s hash users

unfoldable pub solve_rows : Store → Table StringSet → List Solve
unfolding user_rows
solve_rows s [] = []
solve_rows s ((hash, users) ∷ rest) = user_rows s hash users ++ solve_rows s rest

unfoldable pub solve_less : Solve → Solve → Bool
solve_less a b =
    if not (str_eq a.user b.user)
    then str_lt a.user b.user
    else str_lt a.challenge_name b.challenge_name

-- Store.Results
unfoldable pub results : Store → List Solve
results s = sort_slice solve_less (solve_rows s s.solves)

-- type Standing struct
pub record Standing : Type 0 where
  pub user : Bytes
  pub solved : ℕ
  pub points : ℤ

-- type ChallengeStat struct
pub record ChallengeStat : Type 0 where
  pub hash : Bytes
  pub name : Bytes
  pub value : ℤ
  pub solved : ℕ

-- One solve of user `u` in the loop of Standings, on the entry of byUser if there is one.
unfoldable pub bumped : Bytes → ℤ → Option Standing → Standing
bumped u value none = record { user = u; solved = 1; points = value }
bumped u value (some st) = record st { solved = st.solved + 1; points = st.points +ℤ value }

-- The inner and the outer loop of Standings over byUser.
unfoldable pub tally_users : ℤ → StringSet → Table Standing → Table Standing
tally_users value [] by_user = by_user
tally_users value ((u, _) ∷ users) by_user =
    tally_users value users (insert u (bumped u value (lookup u by_user)) by_user)

unfoldable pub tally : Store → Table StringSet → Table Standing → Table Standing
tally s [] by_user = by_user
tally s ((hash, users) ∷ rest) by_user = tally s rest (tally_users (value_of s hash) users by_user)

unfoldable pub by_user : Store → Table Standing
by_user s = tally s s.solves []

-- Points descending, then the user ascending.
unfoldable pub ranks_before : Standing → Standing → Bool
ranks_before a b =
    if not (eqb_ℤ a.points b.points) then ltb_ℤ b.points a.points else str_lt a.user b.user

unfoldable pub stat_less : ChallengeStat → ChallengeStat → Bool
stat_less a b = str_lt a.name b.name

-- The loop of Standings over the challenges.
unfoldable pub challenge_stats : Store → Table Challenge → List ChallengeStat
challenge_stats s [] = []
challenge_stats s ((hash, c) ∷ m) =
    record { hash = hash; name = c.name; value = c.value; solved = length (solvers s hash) }
    ∷ challenge_stats s m

unfoldable pub total_points : Table Challenge → ℤ → ℤ
total_points [] total = total
total_points ((hash, c) ∷ m) total = total_points m (total +ℤ c.value)

pub record Standings : Type 0 where
  pub ranking : List Standing
  pub challenges : List ChallengeStat
  pub total : ℤ

-- Store.Standings
unfoldable pub standings : Store → Standings
standings s = record {
  ranking = sort_slice ranks_before (values (by_user s));
  challenges = sort_slice stat_less (challenge_stats s s.by_hash);
  total = total_points s.by_hash (pos 0);
}
