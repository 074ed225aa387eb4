-- ===== src/Scoring/Store/Recovery.antt =====
-- The solves of a store with a journal survive a restart.
use training_platform.Shared.{
  Bytes, str_eq_iff, ◌≡◌, refl, sym, ◌∙◌, Bool, true, false, not, ◌||◌, some, List, [], ◌∷◌, ◌++◌,
  ◌⊎◌, All, arith, if◌then◌else◌, Bool-cases, inl, inr, any, any-append,
}
use training_platform.Shared.Table.{lookup, contains}
use training_platform.Scoring.Journal.{
  Codec, synced, Journal, SolveRecord, append, replay, is_closed, open_journal, opened, no_fault,
}
use training_platform.Scoring.Journal.Replay.{IsStorable, replay-append, is_closed-append_record}
use training_platform.Scoring.Store.{
  Store, solvers, solved, record_solve, journal_solve, commit_solve, grade, replay_solves,
  use_journal,
}
use training_platform.Scoring.Store.Grading.{
  same_pair, solved-record_solve, solved-commit_solve, record_solve-new, journal-record_solve,
}

-- Some record of the log is of the pair (h, u).
unfoldable pub visited : List SolveRecord → Bytes → Bytes → Bool
visited rs h u = any (λ r. same_pair r.challenge r.user h u) rs

-- Replaying the log adds exactly the pairs that it visits.
pub solved-replay_solves :
    (rs : List SolveRecord) (s : Store) (h u : Bytes)
    → solved (replay_solves rs s) h u ≡ (visited rs h u || solved s h u)
unfolding replay_solves visited any
solved-replay_solves [] s h u = refl
solved-replay_solves (r ∷ rs) s h u = ground (
  arith,
  solved-replay_solves rs (record_solve s r.challenge r.user).0 h u,
  solved-record_solve s r.challenge r.user h u,
)

-- The log is sound, and it holds exactly the solves of the store.
pub record IsRecorded (json : Codec) (s : Store) (j : Journal) : Type 0 where
  pub attached : s.journal ≡ some j
  pub closed : is_closed j.file ≡ true
  pub whole : (replay json j).failed ≡ false
  pub agrees : (h u : Bytes) → solved s h u ≡ visited (replay json j).visits h u

-- The log after a solve of (hash, user) at `now`.
unfoldable pub logged : Codec → Bytes → Bytes → Bytes → Bool → Journal → Journal
logged json now hash user is_new j =
    if is_new
    then (append json synced (record { user = user; challenge = hash; at = now }) j).0
    else j

module _ (json : Codec) (now : Bytes) (hash user : Bytes) where
  abbrev entry : SolveRecord
  entry = record { user = user; challenge = hash; at = now }

  visited-append :
      (rs : List SolveRecord) (h u : Bytes)
      → visited (rs ++ entry ∷ []) h u ≡ (visited rs h u || same_pair hash user h u)
  unfolding visited any
  visited-append rs h u =
      any-append (λ r. same_pair r.challenge r.user h u) rs (entry ∷ []) ∙ ground arith

  solved_self :
      (s : Store) (h u : Bytes)
      → solved s hash user ≡ true
      → same_pair hash user h u ≡ true
      → solved s h u ≡ true
  solved_self s h u k e = ground (arith, str_eq_iff hash h, str_eq_iff user u)

  journal_solve-attached :
      (s : Store) (j : Journal)
      → s.journal ≡ some j
      → (journal_solve json synced now s hash user).journal ≡ some (append json synced entry j).0
  unfolding journal_solve
  journal_solve-attached s j e = ground arith

  commit_old :
      (s : Store)
      → solved s hash user ≡ true
      → commit_solve json synced now s hash user ≡ (record_solve s hash user).0
  unfolding commit_solve
  commit_old s e = ground (arith, record_solve-new s hash user)

  commit_new :
      (s : Store)
      → solved s hash user ≡ false
      → commit_solve json synced now s hash user
        ≡ journal_solve json synced now (record_solve s hash user).0 hash user
  unfolding commit_solve
  commit_new s e = ground (arith, record_solve-new s hash user)

  -- A solve that is committed with a synced write is in the log, and the log still holds exactly
  -- the solves.
  pub commit_solve-IsRecorded :
      (s : Store) (j : Journal)
      → IsStorable json entry
      → IsRecorded json s j
      → IsRecorded json
          (commit_solve json synced now s hash user)
          (logged json now hash user (not (solved s hash user)) j)
  unfolding logged
  commit_solve-IsRecorded s j ok v = elim (Bool-cases (solved s hash user)) [
    | inl old ↦ rw old (record {
      attached = rw (commit_old s old) (journal-record_solve s hash user ∙ v.attached);
      closed = v.closed;
      whole = v.whole;
      agrees = λ h u. ground (
        arith,
        solved-commit_solve json synced now s hash user h u,
        solved_self s h u old,
        v.agrees h u,
      );
    })
    | inr fresh ↦
        let after = replay-append json j entry v.closed v.whole ok in
        rw fresh (record {
          attached = rw (commit_new s fresh) (
              journal_solve-attached (record_solve s hash user).0 j
                (journal-record_solve s hash user ∙ v.attached));
          closed = is_closed-append_record json j entry v.closed;
          whole = after.1;
          agrees = λ h u. rw after.0 (
              ground (
                arith,
                solved-commit_solve json synced now s hash user h u,
                visited-append (replay json j).visits h u,
                v.agrees h u,
              ));
        })
  ]

-- One submission, with the formatted time at which it arrives.
pub record Submission : Type 0 where
  pub now : Bytes
  pub hash : Bytes
  pub submitted : Bytes
  pub user : Bytes

-- The record that a correct submission leaves in the log.
abbrev pub record_of : Submission → SolveRecord
record_of x = record { user = x.user; challenge = x.hash; at = x.now }

-- Submissions graded one after the other, every write to the log synced.
unfoldable pub grade_all : Codec → List Submission → Store → Store
grade_all json [] s = s
grade_all json (x ∷ xs) s =
    grade_all json xs (grade json synced x.now s x.hash x.submitted x.user).0

module _ (json : Codec) where
  grade_store :
      (s : Store) (x : Submission)
      → ((grade json synced x.now s x.hash x.submitted x.user).0 ≡ s)
        ⊎ ((grade json synced x.now s x.hash x.submitted x.user).0
            ≡ commit_solve json synced x.now s x.hash x.user)
  unfolding grade
  grade_store s x = ground arith

  grade-IsRecorded :
      (s : Store) (j : Journal) (x : Submission)
      → IsStorable json (record_of x)
      → IsRecorded json s j
      → (j' : Journal) × IsRecorded json (grade json synced x.now s x.hash x.submitted x.user).0 j'
  grade-IsRecorded s j x ok v = elim (grade_store s x) [
    | inl e ↦ (j, rw e v)
    | inr e ↦ (
      logged json x.now x.hash x.user (not (solved s x.hash x.user)) j,
      rw e (commit_solve-IsRecorded json x.now x.hash x.user s j ok v),
    )
  ]

  -- Whatever is submitted, in whatever order, the log goes on holding exactly the solves, as long
  -- as every write is synced and every record is storable.
  pub grade_all-IsRecorded :
      (xs : List Submission) (s : Store) (j : Journal)
      → All (λ x. IsStorable json (record_of x)) xs
      → IsRecorded json s j
      → (j' : Journal) × IsRecorded json (grade_all json xs s) j'
  unfolding grade_all
  grade_all-IsRecorded [] s j ok v = (j, v)
  grade_all-IsRecorded (x ∷ xs) s j ok v =
      let (j', v') = grade-IsRecorded s j x ok.0 v in grade_all-IsRecorded xs _ j' ok.1 v'

  -- Opening a log that ends in a newline changes nothing of it.
  open_journal-closed :
      (dir : Bytes → Bytes) (path : Bytes) (j j' : Journal)
      → is_closed j.file ≡ true
      → open_journal dir path no_fault (some j.file) ≡ opened j'
      → j' ≡ j
  unfolding open_journal
  open_journal-closed dir path j j' closed e = ground arith

  solved-none : (s : Store) (h u : Bytes) → s.solves ≡ [] → solved s h u ≡ false
  unfolding solved solvers contains lookup
  solved-none s h u e = rw e

  journal-replay_solves :
      (rs : List SolveRecord) (s : Store) → (replay_solves rs s).journal ≡ s.journal
  unfolding replay_solves
  journal-replay_solves [] s = refl
  journal-replay_solves (r ∷ rs) s =
      journal-replay_solves rs (record_solve s r.challenge r.user).0
      ∙ journal-record_solve s r.challenge r.user

  solved-use_journal :
      (j : Journal) (fresh : Store) (h u : Bytes)
      → fresh.solves ≡ []
      → solved (use_journal json j fresh).0 h u ≡ visited (replay json j).visits h u
  unfolding use_journal
  solved-use_journal j fresh h u none_yet =
      let s : Store = record fresh { journal = some j } in
      ground (arith, solved-replay_solves (replay json j).visits s h u, solved-none s h u none_yet)

  -- A new process opens the log of a recorded store without a fault and replays it into a store
  -- without solves: that store has the solves of the old one, no more and no less, and its log
  -- holds exactly these.
  pub use_journal-IsRecorded :
      (dir : Bytes → Bytes) (path : Bytes) (s fresh : Store) (j j' : Journal)
      → IsRecorded json s j
      → open_journal dir path no_fault (some j.file) ≡ opened j'
      → fresh.solves ≡ []
      → ((h u : Bytes) → solved (use_journal json j' fresh).0 h u ≡ solved s h u)
        × IsRecorded json (use_journal json j' fresh).0 j'
  unfolding use_journal
  use_journal-IsRecorded dir path s fresh j j' v e none_yet =
      rw (open_journal-closed dir path j j' v.closed e) (
        (λ h u. solved-use_journal j fresh h u none_yet ∙ sym (v.agrees h u)),
        record {
          attached =
              journal-replay_solves (replay json j).visits (record fresh { journal = some j });
          closed = v.closed;
          whole = v.whole;
          agrees = λ h u. solved-use_journal j fresh h u none_yet;
        },
      )
