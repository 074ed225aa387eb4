-- ===== src/Scoring/Journal/Torn.antt =====
-- What a write that fails part-way does to the record that the same process appends next.
use training_platform.Shared.{
  Bytes, ℕ, zero, suc, ◌≤◌, ◌≡◌, ◌≢◌, sym, true, [], ◌∷◌, ◌++◌, All-append, length, take,
  take-append, ◌∙◌, ap,
}
use mathlib.Core.List.{append_assoc}
use training_platform.Scoring.Journal.{
  Codec, SolveRecord, Journal, synced, short, append, record_line, lines, is_closed,
}
use training_platform.Scoring.Journal.Lines.{OneLine, lines-append, lines_of_text}

take-OneLine : (n : ℕ) (s : Bytes) → OneLine s → OneLine (take n s)
take-OneLine zero s h = tt
take-OneLine (suc n) [] h = tt
take-OneLine (suc n) (c ∷ s) h = (h.0, take-OneLine n s h.1)

append-not_empty : (s t : Bytes) → t ≢ [] → s ++ t ≢ []
append-not_empty [] t h = h
append-not_empty (c ∷ s) t h = λ e. cc

-- A text of one line in front of a record is on one line with it.
lines-glued :
    (json : Codec) (s : Bytes) (r : SolveRecord)
    → OneLine s
    → lines (s ++ record_line json r) ≡ (s ++ json.encode r) ∷ []
unfolding record_line
lines-glued json s r h =
    ap lines (sym (append_assoc s (json.encode r) (10 ∷ [])))
    ∙ lines_of_text (s ++ json.encode r) (All-append _ s (json.encode r) h (json.one_line r))
        (append-not_empty s (json.encode r) (json.not_empty r))

-- When a write to a closed log ends with an error inside a record, the next record that is
-- appended, and synced without an error, has no line of its own: it stands on one line behind the
-- part that was written.
pub lines-append_torn :
    (json : Codec) (j : Journal) (first next : SolveRecord) (n : ℕ)
    → is_closed j.file ≡ true
    → n ≤ length (json.encode first)
    → lines (append json synced next (append json (short n) first j).0).0.file
      ≡ lines j.file ++ ((take n (json.encode first) ++ json.encode next) ∷ [])
unfolding append record_line
lines-append_torn json j first next n closed inside =
    let torn = take n (json.encode first) in
    rw (take-append n (json.encode first) (10 ∷ []) inside, append_assoc)
      (lines-append j.file (torn ++ record_line json next) closed
        ∙ rw
            (lines-glued json torn next (take-OneLine n (json.encode first) (json.one_line first))))
