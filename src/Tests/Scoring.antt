-- ===== src/Tests/Scoring.antt =====
-- The scoring engine on a small registry.
use training_platform.Shared.{
  Bytes, codes, ◌≡◌, refl, not, subst, true, false, ◌&&◌, ◌||◌, none, some, List, [], ◌∷◌, ◌++◌,
  arith, str_eq, take, any, all, length, length-append, ◌+◌,
}
use training_platform.Shared.Int.{pos}
use training_platform.Shared.Table.{lookup, contains}
use training_platform.Scoring.Challenge.{Challenge, is_phash_flag}
use training_platform.Scoring.Journal.{
  SolveRecord, Journal, synced, short, no_fault, opened, open_journal, append, record_line, replay,
  is_closed, lines,
}
use training_platform.Scoring.Journal.Torn.{lines-append_torn}
use training_platform.Scoring.Journal.Replay.{IsStorable, append_all, replay_after_crash}
use training_platform.Scoring.Store.{Store, get, solvers, commit_solve, solved, grade, use_journal}
use training_platform.Scoring.Store.Grading.{same_pair, solved-grade}
use training_platform.Scoring.Store.Recovery.{
  IsRecorded, Submission, grade_all, visited, logged, commit_solve-IsRecorded, grade_all-IsRecorded,
  use_journal-IsRecorded,
}
use training_platform.Tests.Samples.{
  sample_codec, sample_decode, sample_encode, shift, length-shift,
}

abbrev pub quiz : Challenge
quiz = record {
  hash = codes "ab12";
  name = codes "quiz";
  value = pos 10;
  flags = codes "right" ∷ [];
  verify = none;
}

abbrev pub exercise : Challenge
exercise = record {
  hash = codes "cd34";
  name = codes "exercise";
  value = pos 50;
  flags = codes "phash$0$1" ∷ [];
  verify = none;
}

abbrev pub empty_log : Journal
empty_log = record { file = [] }

abbrev pub registry : Store
registry = record {
  by_hash = (codes "ab12", quiz) ∷ (codes "cd34", exercise) ∷ [];
  solves = [];
  phash_grade = none;
  journal = some empty_log;
}

abbrev pub at : Bytes
at = codes "noon"

solved-grade_example :
    let (s', result) =
      grade sample_codec (short 3) at registry (codes "ab12") (codes "right") (codes "ann") in
    solved s' (codes "ab12") (codes "ann") ≡ (
      (result.correct && same_pair (codes "ab12") (codes "ann") (codes "ab12") (codes "ann"))
      || solved registry (codes "ab12") (codes "ann"))
solved-grade_example =
    solved-grade sample_codec (short 3) at registry (codes "ab12") (codes "right") (codes "ann")
      (codes "ab12") (codes "ann")

exercise_found : get registry (codes "cd34") ≡ some exercise
unfolding get lookup str_eq
exercise_found = refl

exercise_flags : all is_phash_flag exercise.flags ≡ true
unfolding all is_phash_flag str_eq
exercise_flags = refl

abbrev first_solve : SolveRecord
first_solve = record { user = codes "ann"; challenge = codes "ab12"; at = at }

encoded_short :
    (r : SolveRecord)
    → length (sample_encode r) ≡ length r.user + length r.challenge + length r.at + 2
unfolding sample_encode
encoded_short r = ground (
  arith,
  length-append (shift r.user) (14 ∷ (shift r.challenge ++ 14 ∷ shift r.at)),
  length-append (shift r.challenge) (14 ∷ shift r.at),
  length-shift r.user,
  length-shift r.challenge,
  length-shift r.at,
)

first_solve-IsStorable : IsStorable sample_codec first_solve
first_solve-IsStorable = record {
  user_text = refl;
  challenge_text = refl;
  at_text = refl;
  has_user = λ h. cc;
  has_challenge = λ h. cc;
  fits = omega (arith, encoded_short first_solve);
}

-- A log whose last line is torn.
abbrev torn_log : Bytes
torn_log = codes "torn"

torn_opened :
    open_journal (λ path. codes ".") (codes "log") no_fault (some torn_log)
    ≡ opened (record { file = torn_log ++ 10 ∷ [] })
unfolding open_journal
torn_opened = refl

torn_whole : (replay sample_codec (record { file = torn_log })).failed ≡ false
unfolding replay sample_decode
torn_whole = refl

replay_after_crash_example :
    (replay sample_codec
      (append_all sample_codec (first_solve ∷ []) (record { file = torn_log ++ 10 ∷ [] }))).visits
    ≡ (replay sample_codec (record { file = torn_log })).visits ++ first_solve ∷ []
replay_after_crash_example =
    replay_after_crash sample_codec (λ path. codes ".") (codes "log") torn_log
      (record { file = torn_log ++ 10 ∷ [] }) (first_solve ∷ []) torn_opened torn_whole
      (first_solve-IsStorable, tt)

empty_log_closed : is_closed [] ≡ true
unfolding is_closed
empty_log_closed = refl

lines-append_torn_example :
    lines
      (append sample_codec synced first_solve
        (append sample_codec (short 3) first_solve empty_log).0).0.file
    ≡ lines empty_log.file
      ++ ((take 3 (sample_encode first_solve) ++ sample_encode first_solve) ∷ [])
lines-append_torn_example =
    lines-append_torn sample_codec empty_log first_solve first_solve 3 empty_log_closed
      (omega (arith, encoded_short first_solve))

registry-IsRecorded : IsRecorded sample_codec registry empty_log
unfolding is_closed replay solved visited contains any solvers
registry-IsRecorded = record { attached = refl; closed = refl; whole = refl; agrees = λ h u. refl }

abbrev ann_submits : List Submission
ann_submits =
    record { now = at; hash = codes "ab12"; submitted = codes "right"; user = codes "ann" } ∷ []

grade_all-IsRecorded_example :
    (j' : Journal) × IsRecorded sample_codec (grade_all sample_codec ann_submits registry) j'
grade_all-IsRecorded_example =
    grade_all-IsRecorded sample_codec ann_submits registry empty_log (first_solve-IsStorable, tt)
      registry-IsRecorded

-- The store after ann's solve and its log.
abbrev solved_store : Store
solved_store = commit_solve sample_codec synced at registry (codes "ab12") (codes "ann")

abbrev solved_log : Journal
solved_log = logged sample_codec at (codes "ab12") (codes "ann") true empty_log

not_solved_yet : not (solved registry (codes "ab12") (codes "ann")) ≡ true
unfolding solved solvers contains
not_solved_yet = refl

solved_store-IsRecorded : IsRecorded sample_codec solved_store solved_log
solved_store-IsRecorded =
    subst
      (λ b.
        IsRecorded sample_codec solved_store
          (logged sample_codec at (codes "ab12") (codes "ann") b empty_log))
      not_solved_yet
      (commit_solve-IsRecorded sample_codec at (codes "ab12") (codes "ann") registry empty_log
        first_solve-IsStorable registry-IsRecorded)

abbrev restarted : Store
restarted = record registry { solves = []; journal = none }

solved_log_opened :
    open_journal (λ path. codes ".") (codes "log") no_fault (some solved_log.file)
    ≡ opened solved_log
unfolding open_journal logged append record_line sample_encode
solved_log_opened = refl

use_journal-IsRecorded_example :
    ((h u : Bytes)
      → solved (use_journal sample_codec solved_log restarted).0 h u ≡ solved solved_store h u)
    × IsRecorded sample_codec (use_journal sample_codec solved_log restarted).0 solved_log
use_journal-IsRecorded_example =
    use_journal-IsRecorded sample_codec (λ path. codes ".") (codes "log") solved_store restarted
      solved_log solved_log solved_store-IsRecorded solved_log_opened refl
