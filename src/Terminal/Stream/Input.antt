-- ===== src/Terminal/Stream/Input.antt =====
-- What the browser types arrives once and in order.
use training_platform.Shared.{
  Bytes, ℕ, zero, suc, ◌+◌, ◌<◌, ◌≤◌, ◌≡◌, refl, sym, ap, ◌∙◌, true, false, Option, none, some,
  List, [], ◌∷◌, ◌++◌, length, take, drop, is_empty, is_empty→eq, arith, Bool-cases, inl, inr,
}
use mathlib.Core.List.{append_assoc}
use training_platform.Terminal.Stream.{
  Message, text_message, binary_message, other_message, ControlMsg, WsStream, ReadResult, got,
  read_error, panics, read_loop, read,
}

-- The bytes of the binary messages.
unfoldable pub typed : List Message → Bytes
typed [] = []
typed (text_message frame ∷ ms) = typed ms
typed (binary_message frame ∷ ms) = frame ++ typed ms
typed (other_message ∷ ms) = typed ms

-- The input that is still to be read.
abbrev pub pending : WsStream → Bytes
pending s = s.buf ++ typed s.incoming

unfoldable pub bytes_of : ReadResult → Bytes
bytes_of (got p) = p
bytes_of read_error = []
bytes_of panics = []

take-drop : (n : ℕ) (s : Bytes) → take n s ++ drop n s ≡ s
take-drop zero s = refl
take-drop (suc n) [] = refl
take-drop (suc n) (c ∷ s) = ap (λ r. c ∷ r) (take-drop n s)

split_input : (n : ℕ) (s t : Bytes) → take n s ++ (drop n s ++ t) ≡ s ++ t
split_input n s t = sym (append_assoc (take n s) (drop n s) t) ∙ ap (λ r. r ++ t) (take-drop n s)

module _ (decode : Bytes → Option ControlMsg) where
  read_loop-pending :
      (n : ℕ) (ms : List Message) (s : WsStream)
      → is_empty s.buf ≡ true
      → let (s', result) = read_loop decode n ms s in bytes_of result ++ pending s' ≡ typed ms
  unfolding read_loop typed bytes_of is_empty
  read_loop-pending n [] s h = ground (arith, is_empty→eq s.buf h)
  read_loop-pending n (text_message frame ∷ ms) s h = read_loop-pending n ms _ h
  read_loop-pending n (binary_message frame ∷ ms) s h = split_input n frame (typed ms)
  read_loop-pending n (other_message ∷ ms) s h = read_loop-pending n ms s h

  -- A Read takes bytes from the front of the input, and leaves the rest.
  pub read-pending :
      (n : ℕ) (s : WsStream)
      → let (s', result) = read decode n s in bytes_of result ++ pending s' ≡ pending s
  unfolding read is_empty bytes_of
  read-pending n s = elim (Bool-cases (is_empty s.buf)) [
    | inl e ↦
        rw (e, read)
          (read_loop-pending n s.incoming s e
            ∙ ap (λ b. b ++ typed s.incoming) (sym (is_empty→eq s.buf e)))
    | inr e ↦ rw (e, read) (split_input n s.buf (typed s.incoming))
  ]

-- How much there is to read: each binary message counts one more than its bytes.
unfoldable pub weight : List Message → ℕ
weight [] = 0
weight (text_message frame ∷ ms) = weight ms
weight (binary_message frame ∷ ms) = suc (length frame + weight ms)
weight (other_message ∷ ms) = weight ms

abbrev pub measure : WsStream → ℕ
measure s = length s.buf + weight s.incoming

length-drop_le : (n : ℕ) (s : Bytes) → length (drop n s) ≤ length s
length-drop_le zero s = omega arith
length-drop_le (suc n) [] = omega arith
length-drop_le (suc n) (c ∷ s) = omega (arith, length-drop_le n s)

length-drop_lt : (n : ℕ) (s : Bytes) → is_empty s ≡ false → length (drop (suc n) s) < length s
unfolding is_empty
length-drop_lt n [] h = ground arith
length-drop_lt n (c ∷ s) h = omega (arith, length-drop_le n s)

-- A Read that returns bytes makes progress, and one that does not has nothing left to return.
abbrev Progress : WsStream → WsStream × ReadResult → Type 0
Progress s (s', result) = elim result [
  | got p ↦ measure s' < measure s
  | read_error ↦ pending s' ≡ []
  | panics ↦ pending s' ≡ []
]

-- What a copy has when the rest of it has been copied.
unfoldable pub after_read : ReadResult → Option Bytes → Option Bytes
after_read (got p) none = none
after_read (got p) (some input) = some (p ++ input)
after_read read_error rest = some []
after_read panics rest = some []

after_read-pending :
    (result : ReadResult) (s s' : WsStream) (rest : Option Bytes)
    → bytes_of result ++ pending s' ≡ pending s
    → Progress s (s', result)
    → (measure s' < measure s → rest ≡ some (pending s'))
    → after_read result rest ≡ some (pending s)
unfolding after_read bytes_of
after_read-pending (got p) s s' rest split progress more = rw (more progress) (ap some split)
after_read-pending read_error s s' rest split progress more = ap some (sym progress ∙ split)
after_read-pending panics s s' rest split progress more = ap some (sym progress ∙ split)

module _ (decode : Bytes → Option ControlMsg) where
  read_loop-Progress :
      (n : ℕ) (ms : List Message) (s t : WsStream)
      → s.buf ≡ []
      → weight ms ≤ measure t
      → Progress t (read_loop decode n ms s)
  unfolding read_loop weight typed
  read_loop-Progress n [] s t e h = elim (Bool-cases s.is_closed) [
    | inl k ↦ rw k (ground arith)
    | inr k ↦ rw k (ground arith)
  ]
  read_loop-Progress n (text_message frame ∷ ms) s t e h = read_loop-Progress n ms _ t e h
  read_loop-Progress n (binary_message frame ∷ ms) s t e h = omega (arith, length-drop_le n frame)
  read_loop-Progress n (other_message ∷ ms) s t e h = read_loop-Progress n ms s t e h

  read-Progress : (n : ℕ) (s : WsStream) → Progress s (read decode (suc n) s)
  unfolding read
  read-Progress n s = elim (Bool-cases (is_empty s.buf)) [
    | inl e ↦
        rw (e, read) (read_loop-Progress (suc n) s.incoming s s (is_empty→eq s.buf e) (omega arith))
    | inr e ↦ rw (e, read) (omega (arith, length-drop_lt n s.buf e))
  ]

  -- The copy of the input: Read with a buffer of n bytes until it fails. `none` is no end within the
  -- fuel.
  unfoldable pub copy_input : ℕ → ℕ → WsStream → Option Bytes
  copy_input zero n s = none
  copy_input (suc fuel) n s =
      let (s', result) = read decode n s in after_read result (copy_input fuel n s')

  -- A copy of the input with a buffer that is not empty ends, in at most one Read for each byte and
  -- each message and one more, and it has every byte of every binary message, in order.
  pub copy_input-pending :
      (fuel n : ℕ) (s : WsStream)
      → measure s < fuel
      → 0 < n
      → copy_input fuel n s ≡ some (pending s)
  unfolding copy_input
  copy_input-pending zero n s h k = absurd (omega arith)
  copy_input-pending (suc fuel) zero s h k = absurd (omega arith)
  copy_input-pending (suc fuel) (suc n) s h k =
      let next = read decode (suc n) s in
      after_read-pending next.1 s next.0 _ (read-pending decode (suc n) s) (read-Progress n s)
        (λ less. copy_input-pending fuel (suc n) next.0 (omega arith) k)
