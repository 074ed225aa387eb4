-- ===== src/Scoring/Journal.antt =====
-- internal/scoring/journal.go: the append-only log of solves. The file is its bytes; package
-- encoding/json is the parameter `Codec`.
pub mod Lines
pub mod Replay
pub mod Torn
use training_platform.Shared.{
  is_empty, Bytes, codes, ℕ, ◌≡◌, ◌≢◌, ◌<◌, ◌+◌, Bool, true, false, Option, none, some, List, [],
  ◌∷◌, ◌++◌, All, length, take, leb, ◌==◌, if◌then◌else◌, str_eq,
}

-- type solveRecord struct
pub record SolveRecord : Type 0 where
  pub user : Bytes
  pub challenge : Bytes
  pub at : Bytes

-- What the code relies on of encoding/json for this struct: the output is one line with no raw
-- control characters, and decoding gives back strings that are valid UTF-8 (`is_text`).
pub record Codec : Type 0 where
  pub encode : SolveRecord → Bytes
  pub decode : Bytes → Option SolveRecord
  pub is_text : Bytes → Bool
  pub one_line : (r : SolveRecord) → All (λ c. (c ≢ 10) × (c ≢ 13)) (encode r)
  pub not_empty : (r : SolveRecord) → encode r ≢ []
  pub decode-encode :
      (r : SolveRecord)
      → is_text r.user ≡ true
      → is_text r.challenge ≡ true
      → is_text r.at ≡ true
      → decode (encode r) ≡ some r

-- type Journal struct: what its open file holds.
pub record Journal : Type 0 where
  pub file : Bytes

-- How a write to the log ends: on disk, all bytes written but not synced, or an error after the
-- first n bytes.
pub data Written : Type 0 where
  synced unsynced : Written
  short : ℕ → Written

-- Does the file need no newline at its end?
unfoldable pub is_closed : Bytes → Bool
is_closed [] = true
is_closed (c ∷ []) = c == 10
is_closed (c ∷ d ∷ s) = is_closed (d ∷ s)

-- terminateLastLine
unfoldable pub terminate_last_line : Bytes → Bytes
unfolding is_closed
terminate_last_line file = if is_closed file then file else file ++ 10 ∷ []

-- The system call of OpenJournal that fails, if one does.
pub data Fault : Type 0 where
  no_fault mkdir_fails open_fails heal_fails : Fault

pub data Opened : Type 0 where
  disabled : Opened
  opened : Journal → Opened
  open_error : Fault → Opened

-- What the file holds once it is open: created empty, or with its last line terminated.
unfoldable pub healed : Option Bytes → Bytes
unfolding terminate_last_line
healed none = []
healed (some file) = terminate_last_line file

-- OpenJournal. `dir` is filepath.Dir, and `old` the content of the file before, if it exists.
unfoldable pub open_journal : (Bytes → Bytes) → Bytes → Fault → Option Bytes → Opened
unfolding healed is_empty
open_journal dir path fault old = if is_empty path then disabled else elim fault [
  | mkdir_fails ↦
      if is_empty (dir path)
      then opened (record { file = healed old })
      else if str_eq (dir path) (codes ".")
      then opened (record { file = healed old })
      else open_error mkdir_fails
  | no_fault ↦ opened (record { file = healed old })
  | f ↦ open_error f
]

-- The bytes of one record in the file.
unfoldable pub record_line : Codec → SolveRecord → Bytes
record_line json r = json.encode r ++ 10 ∷ []

-- Journal.Append: the journal after it, and whether it returned an error.
unfoldable pub append : Codec → Written → SolveRecord → Journal → Journal × Bool
append json synced r j = (record { file = j.file ++ record_line json r }, false)
append json unsynced r j = (record { file = j.file ++ record_line json r }, true)
append json (short n) r j = (record { file = j.file ++ take n (record_line json r) }, true)

-- Scanner.Scan with ScanLines: a newline ends a token, and so does the end of a file that has no
-- newline there.
extend_first : ℕ → List Bytes → List Bytes
extend_first c [] = (c ∷ []) ∷ []
extend_first c (l ∷ ls) = (c ∷ l) ∷ ls

unfoldable pub lines : Bytes → List Bytes
unfolding extend_first
lines [] = []
lines (c ∷ s) = if c == 10 then [] ∷ lines s else extend_first c (lines s)

-- The carriage return that ScanLines drops at the end of a token.
unfoldable pub drop_cr : Bytes → Bytes
drop_cr [] = []
drop_cr (c ∷ []) = if c == 13 then [] else c ∷ []
drop_cr (c ∷ d ∷ s) = c ∷ drop_cr (d ∷ s)

-- The scanner's buffer: a token of this length or longer is the error ErrTooLong.
abbrev pub max_line : ℕ
max_line = 1048576

-- What Replay hands to `visit`, in order, the lines it skips, and whether it returns an error.
pub record Replayed : Type 0 where
  pub visits : List SolveRecord
  pub skipped : ℕ
  pub failed : Bool

abbrev pub nothing_replayed : Replayed
nothing_replayed = record { visits = []; skipped = 0; failed = false }

-- The test on a decoded line.
unfoldable pub accepted : Option SolveRecord → Option SolveRecord
unfolding is_empty
accepted none = none
accepted (some r) = if is_empty r.user then none else if is_empty r.challenge then none else some r

-- The loop of Replay.
unfoldable pub replay_lines : Codec → List Bytes → Replayed
unfolding drop_cr accepted
replay_lines json [] = nothing_replayed
replay_lines json (l ∷ ls) =
    let rest = replay_lines json ls in
    if leb max_line (length l)
    then record { visits = []; skipped = 0; failed = true }
    else if is_empty (drop_cr l)
    then rest
    else elim (accepted (json.decode (drop_cr l))) [
      | none ↦ record rest { skipped = rest.skipped + 1 }
      | some r ↦ record rest { visits = r ∷ rest.visits }
    ]

-- Journal.Replay of a file that can be read.
unfoldable pub replay : Codec → Journal → Replayed
unfolding replay_lines lines
replay json j = replay_lines json (lines j.file)
