-- ===== src/Scoring/Store.antt =====
-- internal/scoring/store.go and load.go: the registry of challenges and the solves. A method that
-- changes the store returns the new one; the locks make each method one step.
pub mod Grading
pub mod Recovery
use training_platform.Shared.{
  is_empty, Bytes, codes, str_eq, ℕ, Bool, true, false, Option, none, some, List, [], ◌∷◌, length,
  map, if◌then◌else◌,
}
use training_platform.Shared.Table.{Table, StringSet, lookup, insert, contains}
use training_platform.Scoring.Challenge.{Challenge, is_phash_flag}
use training_platform.Scoring.Journal.{
  Codec, Journal, SolveRecord, Written, append, replay, Replayed, nothing_replayed,
}

-- type Store struct. `journal` is nil when solves are kept in memory only.
pub record Store : Type 0 where
  pub by_hash : Table Challenge
  pub solves : Table StringSet
  pub phash_grade : Option (Bytes → Bytes → Bool)
  pub journal : Option Journal

-- NewStore
unfoldable pub new_store : Option (Bytes → Bytes → Bool) → Store
new_store grader = record { by_hash = []; solves = []; phash_grade = grader; journal = none }

-- Store.Upsert: `none` is the error for an empty hash.
unfoldable pub upsert : Challenge → Store → Option Store
unfolding is_empty
upsert c s =
    if is_empty c.hash then none else some (record s { by_hash = insert c.hash c s.by_hash })

-- Store.Get
unfoldable pub get : Store → Bytes → Option Challenge
unfolding lookup
get s hash = lookup hash s.by_hash

-- Store.Len
unfoldable pub len : Store → ℕ
len s = length s.by_hash

-- The loop of LoadFile over the decoded array: the store as the loop leaves it, and whether every
-- challenge was stored. The loop stops at the first error, and keeps what came before it.
unfoldable pub load_challenges : List Challenge → Store → Store × Bool
load_challenges [] s = (s, true)
load_challenges (c ∷ cs) s = elim (upsert c s) [
  | none ↦ (s, false)
  | some s' ↦ load_challenges cs s'
]

-- s.solves[challengeHash], a nil map when missing.
unfoldable pub solvers : Store → Bytes → StringSet
unfolding lookup
solvers s hash = elim (lookup hash s.solves) [ none ↦ [] | some users ↦ users ]

-- Store.Solved
unfoldable pub solved : Store → Bytes → Bytes → Bool
solved s hash user = contains (solvers s hash) user

-- Store.recordSolve: the store, and whether the solve is new.
unfoldable pub record_solve : Store → Bytes → Bytes → Store × Bool
record_solve s hash user =
    let users = solvers s hash in
    if contains users user
    then (record s { solves = insert hash users s.solves }, false)
    else (record s { solves = insert hash (insert user true users) s.solves }, true)

-- Store.journalSolve: an error of the log is printed, and the solve stands. `out` is how the write
-- ends and `now` the formatted time.
unfoldable pub journal_solve : Codec → Written → Bytes → Store → Bytes → Bytes → Store
journal_solve json out now s hash user = elim s.journal [
  | none ↦ s
  | some j ↦ record s {
    journal = some (append json out (record { user = user; challenge = hash; at = now }) j).0;
  }
]

-- Store.RecordSolve
unfoldable pub commit_solve : Codec → Written → Bytes → Store → Bytes → Bytes → Store
commit_solve json out now s hash user =
    let (s', is_new) = record_solve s hash user in
    if is_new then journal_solve json out now s' hash user else s'

-- grade != nil && grade(flag, submitted)
unfoldable pub graded : Option (Bytes → Bytes → Bool) → Bytes → Bytes → Bool
graded none flag submitted = false
graded (some grade) flag submitted = grade flag submitted

-- The loop of Grade over the flags.
unfoldable pub accepts : Option (Bytes → Bytes → Bool) → List Bytes → Bytes → Bool
unfolding graded is_phash_flag
accepts grade [] submitted = false
accepts grade (flag ∷ rest) submitted =
    let later = accepts grade rest submitted in
    if is_phash_flag flag
    then (if graded grade flag submitted then true else later)
    else if str_eq flag submitted
    then true
    else later

-- The results (correct, known) of Grade.
pub record Grade : Type 0 where
  pub correct : Bool
  pub known : Bool

-- Store.Grade
unfoldable pub grade : Codec → Written → Bytes → Store → Bytes → Bytes → Bytes → Store × Grade
grade json out now s hash submitted user = elim (get s hash) [
  | none ↦ (s, record { correct = false; known = false })
  | some c ↦
      if accepts s.phash_grade c.flags submitted
      then (commit_solve json out now s hash user, record { correct = true; known = true })
      else (s, record { correct = false; known = true })
]

-- The visits of UseJournal: replay must not append again.
unfoldable pub replay_solves : List SolveRecord → Store → Store
replay_solves [] s = s
replay_solves (r ∷ rs) s = replay_solves rs (record_solve s r.challenge r.user).0

-- Store.UseJournal, with a journal whose file can be read: the store, how many solves were
-- recovered, and whether the replay stopped at an error.
unfoldable pub use_journal : Codec → Journal → Store → Store × ℕ × Bool
use_journal json j s =
    let found = replay json j in
    (replay_solves found.visits (record s { journal = some j }), length found.visits, found.failed)
