-- ===== src/Scoring/Journal/Lines.antt =====
-- The lines of the log, as the scanner of Replay splits them.
use training_platform.Shared.{
  Bytes, ℕ, ◌≡◌, ◌≢◌, refl, true, false, List, [], ◌∷◌, ◌++◌, All, arith, ◌==◌, Bool-cases, inl,
  inr,
}
use training_platform.Scoring.Journal.{
  is_closed, terminate_last_line, extend_first, lines, drop_cr, Codec, SolveRecord, record_line,
}

abbrev IsCons {ℓ} : {A : Type ℓ} → List A → Type ℓ
IsCons {A = A} xs = (x : A) × (rest : List A) × (xs ≡ x ∷ rest)

extend_first-IsCons : (c : ℕ) (ls : List Bytes) → IsCons (extend_first c ls)
unfolding extend_first
extend_first-IsCons c [] = (c ∷ [], [], refl)
extend_first-IsCons c (l ∷ ls) = (c ∷ l, ls, refl)

lines-IsCons : (c : ℕ) (s : Bytes) → IsCons (lines (c ∷ s))
unfolding lines
lines-IsCons c s = elim (Bool-cases (c == 10)) [
  | inl e ↦ ([], lines s, rw e)
  | inr e ↦ rw e (extend_first-IsCons c (lines s))
]

extend_first-append :
    (c : ℕ) (ls ms : List Bytes) → IsCons ls → extend_first c (ls ++ ms) ≡ extend_first c ls ++ ms
unfolding extend_first
extend_first-append c [] ms h = ground arith
extend_first-append c (l ∷ ls) ms h = refl

-- What follows a terminated line starts a line of its own.
pub lines-append : (f g : Bytes) → is_closed f ≡ true → lines (f ++ g) ≡ lines f ++ lines g
unfolding lines is_closed
lines-append [] g h = refl
lines-append (c ∷ []) g h = rw h
lines-append (c ∷ d ∷ s) g h = elim (Bool-cases (c == 10)) [
  | inl e ↦ rw e (rw (lines-append (d ∷ s) g h))
  | inr e ↦
      rw (e, lines-append (d ∷ s) g h)
        (extend_first-append c (lines (d ∷ s)) (lines g) (lines-IsCons d s))
]

is_closed-append-newline : (f : Bytes) → is_closed (f ++ 10 ∷ []) ≡ true
unfolding is_closed
is_closed-append-newline [] = refl
is_closed-append-newline (c ∷ []) = refl
is_closed-append-newline (c ∷ d ∷ s) = is_closed-append-newline (d ∷ s)

pub is_closed-terminate_last_line : (f : Bytes) → is_closed (terminate_last_line f) ≡ true
unfolding terminate_last_line
is_closed-terminate_last_line f = ground (arith, is_closed-append-newline f)

-- A newline at the end of an unterminated line adds no line.
lines-append-newline : (f : Bytes) → is_closed f ≡ false → lines (f ++ 10 ∷ []) ≡ lines f
unfolding lines is_closed extend_first
lines-append-newline [] h = cc
lines-append-newline (c ∷ []) h = rw h
lines-append-newline (c ∷ d ∷ s) h = ground (arith, lines-append-newline (d ∷ s))

pub lines-terminate_last_line : (f : Bytes) → lines (terminate_last_line f) ≡ lines f
unfolding terminate_last_line
lines-terminate_last_line f = ground (arith, lines-append-newline f)

pub is_closed-append :
    (f g : Bytes) → is_closed f ≡ true → is_closed g ≡ true → is_closed (f ++ g) ≡ true
unfolding is_closed
is_closed-append [] g h k = k
is_closed-append (c ∷ []) [] h k = h
is_closed-append (c ∷ []) (d ∷ g) h k = k
is_closed-append (c ∷ d ∷ s) g h k = is_closed-append (d ∷ s) g h k

abbrev pub OneLine : Bytes → Type 0
OneLine = All (λ c. (c ≢ 10) × (c ≢ 13))

lines-OneLine : (c : ℕ) (s : Bytes) → OneLine (c ∷ s) → lines (c ∷ s ++ 10 ∷ []) ≡ (c ∷ s) ∷ []
unfolding lines extend_first
lines-OneLine c [] h = ground arith
lines-OneLine c (d ∷ s) h = ground (arith, lines-OneLine d s h.1)

pub drop_cr-OneLine : (s : Bytes) → OneLine s → drop_cr s ≡ s
unfolding drop_cr
drop_cr-OneLine [] h = refl
drop_cr-OneLine (c ∷ []) h = ground arith
drop_cr-OneLine (c ∷ d ∷ s) h = rw (drop_cr-OneLine (d ∷ s) h.1)

pub lines_of_text : (s : Bytes) → OneLine s → s ≢ [] → lines (s ++ 10 ∷ []) ≡ s ∷ []
lines_of_text [] h ne = absurd (ne refl)
lines_of_text (c ∷ s) h ne = lines-OneLine c s h

-- A record that is written whole is one line.
pub lines-record_line :
    (json : Codec) (r : SolveRecord) → lines (record_line json r) ≡ json.encode r ∷ []
unfolding record_line
lines-record_line json r = lines_of_text (json.encode r) (json.one_line r) (json.not_empty r)

pub is_closed-record_line : (json : Codec) (r : SolveRecord) → is_closed (record_line json r) ≡ true
unfolding record_line
is_closed-record_line json r = is_closed-append-newline (json.encode r)
