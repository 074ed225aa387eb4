-- ===== src/Scoring/Journal/Replay.antt =====
-- What Replay finds of a log that was opened and appended to.
use training_platform.Shared.{
  not_empty, Bytes, ◌≡◌, ◌≢◌, ◌<◌, refl, true, false, some, List, [], ◌∷◌, ◌++◌, All, arith, length,
  ◌∙◌,
}
use mathlib.Core.List.{append-nil, append_assoc}
use training_platform.Scoring.Journal.{
  Codec, SolveRecord, Journal, synced, append, record_line, lines, max_line, accepted, replay_lines,
  replay, is_closed, open_journal, opened, no_fault,
}
use training_platform.Scoring.Journal.Lines.{
  lines-append, lines-record_line, drop_cr-OneLine, is_closed-append, is_closed-record_line,
  lines-terminate_last_line, is_closed-terminate_last_line,
}

-- A record that its line gives back: text in every field, a user and a challenge, and a line that
-- fits the scanner's buffer.
pub record IsStorable (json : Codec) (r : SolveRecord) : Type 0 where
  pub user_text : json.is_text r.user ≡ true
  pub challenge_text : json.is_text r.challenge ≡ true
  pub at_text : json.is_text r.at ≡ true
  pub has_user : r.user ≢ []
  pub has_challenge : r.challenge ≢ []
  pub fits : length (json.encode r) < max_line

module _ (json : Codec) where
  replay_lines-append :
      (ls ms : List Bytes)
      → (replay_lines json ls).failed ≡ false
      → ((replay_lines json (ls ++ ms)).visits
          ≡ (replay_lines json ls).visits ++ (replay_lines json ms).visits)
        × ((replay_lines json (ls ++ ms)).failed ≡ (replay_lines json ms).failed)
  unfolding replay_lines
  replay_lines-append [] ms h = (refl, refl)
  replay_lines-append (l ∷ ls) ms h = ground (arith, replay_lines-append ls ms)

accepted-IsStorable :
    (json : Codec) (r : SolveRecord) → IsStorable json r → accepted (some r) ≡ some r
unfolding accepted
accepted-IsStorable json r h =
    rw (not_empty r.user h.has_user) (rw (not_empty r.challenge h.has_challenge))

module _ (json : Codec) where
  decoded : (r : SolveRecord) → IsStorable json r → accepted (json.decode (json.encode r)) ≡ some r
  decoded r h =
      rw (json.decode-encode r h.user_text h.challenge_text h.at_text)
        (accepted-IsStorable json r h)

  -- The line of a record is visited as that record.
  replay_lines-encode :
      (r : SolveRecord)
      → IsStorable json r
      → replay_lines json (json.encode r ∷ [])
        ≡ record { visits = r ∷ []; skipped = 0; failed = false }
  unfolding replay_lines
  replay_lines-encode r h =
      rw (drop_cr-OneLine (json.encode r) (json.one_line r))
        (ground (arith, decoded r h, not_empty (json.encode r) (json.not_empty r), h.fits))

  -- A record appended to a closed log that replays whole is visited after the others.
  pub replay-append :
      (j : Journal) (r : SolveRecord)
      → is_closed j.file ≡ true
      → (replay json j).failed ≡ false
      → IsStorable json r
      → ((replay json (append json synced r j).0).visits ≡ (replay json j).visits ++ r ∷ [])
        × ((replay json (append json synced r j).0).failed ≡ false)
  unfolding replay append
  replay-append j r closed whole h =
      rw (lines-append j.file (record_line json r) closed, lines-record_line json r)
        (ground (
          arith,
          replay_lines-append json (lines j.file) (json.encode r ∷ []) whole,
          replay_lines-encode r h,
        ))

  pub is_closed-append_record :
      (j : Journal) (r : SolveRecord)
      → is_closed j.file ≡ true
      → is_closed (append json synced r j).0.file ≡ true
  unfolding append
  is_closed-append_record j r closed =
      is_closed-append j.file (record_line json r) closed (is_closed-record_line json r)

  -- Appending records one by one, each synced to disk.
  unfoldable pub append_all : List SolveRecord → Journal → Journal
  append_all [] j = j
  append_all (r ∷ rs) j = append_all rs (append json synced r j).0

  -- Records appended to a closed log are all visited, in order, after what the log held.
  pub replay-append_all :
      (rs : List SolveRecord) (j : Journal)
      → is_closed j.file ≡ true
      → (replay json j).failed ≡ false
      → All (IsStorable json) rs
      → (replay json (append_all rs j)).visits ≡ (replay json j).visits ++ rs
  unfolding append_all
  replay-append_all [] j closed whole h = rw append-nil
  replay-append_all (r ∷ rs) j closed whole h =
      let next = replay-append j r closed whole h.0 in
      replay-append_all rs _ (is_closed-append_record j r closed) next.1 h.1
      ∙ rw (next.0, append_assoc)

  -- A log that a crash left in any state, its last line torn or not, is opened without a fault,
  -- and records are appended to it: replay visits what the old file gave, and then every new
  -- record, in order, if the old file replays without an error and the records are storable.
  pub replay_after_crash :
      (dir : Bytes → Bytes) (path torn : Bytes) (j : Journal) (rs : List SolveRecord)
      → open_journal dir path no_fault (some torn) ≡ opened j
      → (replay json (record { file = torn })).failed ≡ false
      → All (IsStorable json) rs
      → (replay json (append_all rs j)).visits ≡ (replay json (record { file = torn })).visits ++ rs
  unfolding replay open_journal
  replay_after_crash dir path torn j rs e whole h =
      let same : lines j.file ≡ lines torn = ground (arith, lines-terminate_last_line torn) in
      let closed : is_closed j.file ≡ true = ground (arith, is_closed-terminate_last_line torn) in
      replay-append_all rs j closed (rw same whole) h ∙ rw same
