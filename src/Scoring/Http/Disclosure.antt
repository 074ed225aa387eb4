-- ===== src/Scoring/Http/Disclosure.antt =====
-- The read endpoints do not depend on flags.
use training_platform.Shared.{
  Bytes, ◌≡◌, refl, none, some, List, [], ◌∷◌, map, arith, Option-cases, inl, inr,
}
use training_platform.Shared.Int.{ℤ, pos, ◌+ℤ◌}
use training_platform.Shared.Table.{Table, StringSet, lookup}
use training_platform.Shared.Sort.{sort_slice, insert_sorted}
use training_platform.Scoring.Challenge.{Challenge}
use training_platform.Scoring.Store.{Store, get, solvers}
use training_platform.Scoring.Report.{
  values, name_less, list_challenges, results, user_rows, solve_rows, name_of, value_of, standings,
  Standing, tally_users, tally, by_user, challenge_stats, total_points,
}
use training_platform.Scoring.Http.{
  Request, public, handle_list, handle_hash, handle_scoreboard, handle_standings, hash_of_path,
}

-- The challenge with other flags in place of its own.
unfoldable pub reflag : (Challenge → List Bytes) → Challenge → Challenge
reflag flags c = record c { flags = flags c }

unfoldable pub reflag_all : (Challenge → List Bytes) → Table Challenge → Table Challenge
reflag_all flags [] = []
reflag_all flags ((k, c) ∷ m) = (k, reflag flags c) ∷ reflag_all flags m

unfoldable pub reflag_store : (Challenge → List Bytes) → Store → Store
reflag_store flags s = record s { by_hash = reflag_all flags s.by_hash }

module _ (flags : Challenge → List Bytes) where
  lookup-reflag_all :
      (k : Bytes) (m : Table Challenge)
      → lookup k (reflag_all flags m)
        ≡ elim (lookup k m) [ none ↦ none | some c ↦ some (reflag flags c) ]
  unfolding lookup reflag_all
  lookup-reflag_all k [] = refl
  lookup-reflag_all k ((j, c) ∷ m) = ground (arith, lookup-reflag_all k m)

  name_of-reflag : (s : Store) (k : Bytes) → name_of (reflag_store flags s) k ≡ name_of s k
  unfolding name_of reflag_store reflag
  name_of-reflag s k = ground (arith, lookup-reflag_all k s.by_hash)

  value_of-reflag : (s : Store) (k : Bytes) → value_of (reflag_store flags s) k ≡ value_of s k
  unfolding value_of reflag_store reflag
  value_of-reflag s k = ground (arith, lookup-reflag_all k s.by_hash)

  user_rows-reflag :
      (s : Store) (k : Bytes) (users : StringSet)
      → user_rows (reflag_store flags s) k users ≡ user_rows s k users
  unfolding user_rows
  user_rows-reflag s k [] = refl
  user_rows-reflag s k ((u, b) ∷ users) =
      ground (arith, user_rows-reflag s k users, name_of-reflag s k, value_of-reflag s k)

  solve_rows-reflag :
      (s : Store) (m : Table StringSet) → solve_rows (reflag_store flags s) m ≡ solve_rows s m
  unfolding solve_rows
  solve_rows-reflag s [] = refl
  solve_rows-reflag s ((k, users) ∷ m) =
      rw (user_rows-reflag s k users) (rw (solve_rows-reflag s m))

  tally-reflag :
      (s : Store) (m : Table StringSet) (t : Table Standing)
      → tally (reflag_store flags s) m t ≡ tally s m t
  unfolding tally
  tally-reflag s [] t = refl
  tally-reflag s ((k, users) ∷ m) t =
      rw (value_of-reflag s k) (tally-reflag s m (tally_users (value_of s k) users t))

  challenge_stats-reflag :
      (s : Store) (m : Table Challenge)
      → challenge_stats (reflag_store flags s) (reflag_all flags m) ≡ challenge_stats s m
  unfolding challenge_stats reflag_all reflag reflag_store solvers
  challenge_stats-reflag s [] = refl
  challenge_stats-reflag s ((k, c) ∷ m) = ground (arith, challenge_stats-reflag s m)

  total_points-reflag :
      (m : Table Challenge) (total : ℤ)
      → total_points (reflag_all flags m) total ≡ total_points m total
  unfolding total_points reflag_all reflag
  total_points-reflag [] total = refl
  total_points-reflag ((k, c) ∷ m) total = total_points-reflag m (total +ℤ c.value)

  insert_sorted-reflag :
      (c : Challenge) (cs : List Challenge)
      → insert_sorted name_less (reflag flags c) (map (reflag flags) cs)
        ≡ map (reflag flags) (insert_sorted name_less c cs)
  unfolding insert_sorted name_less reflag
  insert_sorted-reflag c [] = refl
  insert_sorted-reflag c (d ∷ cs) = ground (arith, insert_sorted-reflag c cs)

  sorted-reflag :
      (m : Table Challenge)
      → sort_slice name_less (values (reflag_all flags m))
        ≡ map (reflag flags) (sort_slice name_less (values m))
  unfolding sort_slice values reflag_all
  sorted-reflag [] = refl
  sorted-reflag ((k, c) ∷ m) =
      rw (sorted-reflag m) (insert_sorted-reflag c (sort_slice name_less (values m)))

  public-reflag : (cs : List Challenge) → map public (map (reflag flags) cs) ≡ map public cs
  unfolding public reflag
  public-reflag [] = refl
  public-reflag (c ∷ cs) = ground (arith, public-reflag cs)

  handle_list-reflag : (s : Store) → handle_list (reflag_store flags s) ≡ handle_list s
  unfolding handle_list list_challenges reflag_store
  handle_list-reflag s =
      rw (sorted-reflag s.by_hash) (rw (public-reflag (sort_slice name_less (values s.by_hash))))

  get-reflag :
      (s : Store) (k : Bytes)
      → get (reflag_store flags s) k
        ≡ elim (get s k) [ none ↦ none | some c ↦ some (reflag flags c) ]
  unfolding get reflag_store
  get-reflag s k = lookup-reflag_all k s.by_hash

  handle_hash-reflag :
      (s : Store) (r : Request) → handle_hash (reflag_store flags s) r ≡ handle_hash s r
  unfolding handle_hash public reflag
  handle_hash-reflag s r = elim (Option-cases (hash_of_path r.path)) [
    | inl e ↦ ground arith
    | inr (k, e) ↦ ground (arith, get-reflag s k)
  ]

  handle_scoreboard-reflag :
      (s : Store) → handle_scoreboard (reflag_store flags s) ≡ handle_scoreboard s
  unfolding handle_scoreboard results sort_slice solve_rows reflag_store
  handle_scoreboard-reflag s = rw (solve_rows-reflag s s.solves)

  handle_standings-reflag :
      (s : Store) → handle_standings (reflag_store flags s) ≡ handle_standings s
  unfolding handle_standings standings by_user sort_slice total_points values challenge_stats
      reflag_store
  handle_standings-reflag s = rw (
    tally-reflag s s.solves [],
    challenge_stats-reflag s s.by_hash,
    total_points-reflag s.by_hash (pos 0),
  )

  -- Replacing the flags of any challenges by any others changes nothing in what the four read
  -- endpoints answer to any request: the list, the lookup of a hash, the scoreboard, the standings.
  pub answers-reflag_store :
      (s : Store) (r : Request)
      → (handle_list (reflag_store flags s) ≡ handle_list s)
        × (handle_hash (reflag_store flags s) r ≡ handle_hash s r)
        × (handle_scoreboard (reflag_store flags s) ≡ handle_scoreboard s)
        × (handle_standings (reflag_store flags s) ≡ handle_standings s)
  answers-reflag_store s r = (
    handle_list-reflag s,
    handle_hash-reflag s r,
    handle_scoreboard-reflag s,
    handle_standings-reflag s,
  )
