-- ===== src/Scoring/Store/Grading.antt =====
-- What a graded submission and a recorded solve do to the set of solves.
use training_platform.Shared.{
  Bytes, str_eq, str_eq_iff, ◌≡◌, refl, Bool, true, false, not, ◌&&◌, ◌||◌, Option, none, some,
  List, [], ◌∷◌, arith, if◌then◌else◌, Option-cases, inl, inr, any, all,
}
use training_platform.Shared.Table.{
  StringSet, insert, lookup-insert, lookup-insert_self, contains-insert,
}
use training_platform.Scoring.Challenge.{Challenge, is_phash_flag}
use training_platform.Scoring.Journal.{Codec, Written}
use training_platform.Scoring.Store.{
  Store, get, upsert, solvers, solved, record_solve, journal_solve, commit_solve, graded, accepts,
  grade,
}

-- The pair (h, u) is the pair (hash, user).
abbrev pub same_pair : Bytes → Bytes → Bytes → Bytes → Bool
same_pair hash user h u = str_eq hash h && str_eq user u

solvers-insert :
    (s : Store) (hash h : Bytes) (users : StringSet)
    → solvers (record s { solves = insert hash users s.solves }) h
      ≡ (if str_eq hash h then users else solvers s h)
unfolding solvers
solvers-insert s hash h users = ground (arith, lookup-insert hash h users s.solves)

-- A recorded solve adds its pair to the solves and changes no other.
pub solved-record_solve :
    (s : Store) (hash user h u : Bytes)
    → solved (record_solve s hash user).0 h u ≡ (same_pair hash user h u || solved s h u)
unfolding solved record_solve
solved-record_solve s hash user h u =
    let users = solvers s hash in
    ground (
      arith,
      solvers-insert s hash h users,
      solvers-insert s hash h (insert user true users),
      contains-insert user u users,
      str_eq_iff hash h,
      str_eq_iff user u,
    )

-- It is new exactly if the user had not solved the challenge.
pub record_solve-new :
    (s : Store) (hash user : Bytes) → (record_solve s hash user).1 ≡ not (solved s hash user)
unfolding solved record_solve
record_solve-new s hash user = ground arith

pub journal-record_solve :
    (s : Store) (hash user : Bytes) → (record_solve s hash user).0.journal ≡ s.journal
unfolding record_solve
journal-record_solve s hash user = ground arith

-- The log of a solve leaves the solves as they are.
pub solved-journal_solve :
    (json : Codec) (out : Written) (now : Bytes) (s : Store) (hash user h u : Bytes)
    → solved (journal_solve json out now s hash user) h u ≡ solved s h u
unfolding journal_solve solved solvers
solved-journal_solve json out now s hash user h u = ground arith

pub solved-commit_solve :
    (json : Codec) (out : Written) (now : Bytes) (s : Store) (hash user h u : Bytes)
    → solved (commit_solve json out now s hash user) h u ≡ (same_pair hash user h u || solved s h u)
unfolding commit_solve
solved-commit_solve json out now s hash user h u =
    let s' = (record_solve s hash user).0 in
    ground (
      arith,
      solved-journal_solve json out now s' hash user h u,
      solved-record_solve s hash user h u,
    )

-- However the write to the log ends, after a submission a pair is solved exactly if it was, or if
-- it is the pair submitted and the submission was graded correct.
pub solved-grade :
    (json : Codec) (out : Written) (now : Bytes) (s : Store) (hash submitted user h u : Bytes)
    → let (s', result) = grade json out now s hash submitted user in
      solved s' h u ≡ ((result.correct && same_pair hash user h u) || solved s h u)
unfolding grade
solved-grade json out now s hash submitted user h u =
    ground (arith, solved-commit_solve json out now s hash user h u)

-- A challenge that the store takes is found under its hash.
pub get-upsert : (c : Challenge) (s s' : Store) → upsert c s ≡ some s' → get s' c.hash ≡ some c
unfolding upsert get
get-upsert c s s' e = ground (arith, lookup-insert_self c.hash c s.by_hash)

-- One flag accepts the submission: a screenshot flag by the grader alone, any other by equality.
unfoldable pub flag_accepts : Option (Bytes → Bytes → Bool) → Bytes → Bytes → Bool
flag_accepts grader submitted flag =
    if is_phash_flag flag then graded grader flag submitted else str_eq flag submitted

accepts-any :
    (grader : Option (Bytes → Bytes → Bool)) (flags : List Bytes) (submitted : Bytes)
    → accepts grader flags submitted ≡ any (flag_accepts grader submitted) flags
unfolding accepts flag_accepts any
accepts-any grader [] submitted = refl
accepts-any grader (flag ∷ rest) submitted = ground (arith, accepts-any grader rest submitted)

-- The results of Grade: known exactly for a registered hash, and correct exactly if some flag of
-- the challenge accepts the submission.
pub grade_results :
    (json : Codec) (out : Written) (now : Bytes) (s : Store) (hash submitted user : Bytes)
    → (grade json out now s hash submitted user).1 ≡ elim (get s hash) [
      | none ↦ record { correct = false; known = false }
      | some c ↦ record {
        correct = any (flag_accepts s.phash_grade submitted) c.flags;
        known = true;
      }
    ]
unfolding grade
grade_results json out now s hash submitted user = elim (Option-cases (get s hash)) [
  | inl e ↦ rw (e, grade)
  | inr (c, e) ↦ rw (e, grade) (ground (arith, accepts-any s.phash_grade c.flags submitted))
]

no_flag_accepts :
    (flags : List Bytes) (submitted : Bytes)
    → all is_phash_flag flags ≡ true
    → any (flag_accepts none submitted) flags ≡ false
unfolding any all flag_accepts graded
no_flag_accepts [] submitted h = refl
no_flag_accepts (flag ∷ rest) submitted h = ground (arith, no_flag_accepts rest submitted)

-- With no grader wired, a challenge whose flags are all screenshot flags accepts no submission,
-- not even the text of a flag itself, and the store stays as it was.
exercise_needs_grader :
    (json : Codec) (out : Written) (now : Bytes) (s : Store) (hash submitted user : Bytes)
    (c : Challenge)
    → get s hash ≡ some c
    → s.phash_grade ≡ none
    → all is_phash_flag c.flags ≡ true
    → grade json out now s hash submitted user ≡ (s, record { correct = false; known = true })
unfolding grade
exercise_needs_grader json out now s hash submitted user c e no_grader h =
    ground (arith, accepts-any s.phash_grade c.flags submitted, no_flag_accepts c.flags submitted h)
