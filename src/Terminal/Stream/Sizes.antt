-- ===== src/Terminal/Stream/Sizes.antt =====
-- The stream over any sequence of calls: its input, and the sizes that it hands out.
use training_platform.Shared.{
  Bytes, ℕ, ◌<◌, ◌≤◌, ◌≡◌, refl, ap, ◌∙◌, Bool, true, false, Option, none, some, List, [], ◌∷◌,
  ◌++◌, All, All-append, length, length-append, ltb, is_empty, arith, Bool-cases, Option-cases, inl,
  inr,
}
use mathlib.Core.List.{append_assoc}
use training_platform.Terminal.Stream.{
  Message, text_message, binary_message, other_message, ControlMsg, TerminalSize, WsStream,
  new_ws_stream, sizes_capacity, offer, resize_of, dispatch, read_loop, read, write, NextResult,
  next_size, stopped, waiting, next,
}
use training_platform.Terminal.Stream.Input.{typed, pending, bytes_of, read-pending}

abbrev pub IsSize : TerminalSize → Type 0
IsSize size = (0 < size.cols) × (0 < size.rows)

-- A queue that the channel can hold, of sizes that a terminal can have.
abbrev pub IsQueue : List TerminalSize → Type 0
IsQueue sizes = (length sizes ≤ sizes_capacity) × All IsSize sizes

resize_of-IsSize :
    (m : Option ControlMsg) (size : TerminalSize) → resize_of m ≡ some size → IsSize size
unfolding resize_of
resize_of-IsSize none size h = cc
resize_of-IsSize (some m) size h = ground arith

offer-IsQueue :
    (size : TerminalSize) (sizes : List TerminalSize)
    → IsSize size
    → IsQueue sizes
    → IsQueue (offer size sizes)
unfolding offer
offer-IsQueue size sizes h (short, good) = elim (Bool-cases (ltb (length sizes) sizes_capacity)) [
  | inl e ↦ rw e (
    ground (arith, length-append sizes (size ∷ []), e),
    All-append IsSize sizes (size ∷ []) good (h, tt),
  )
  | inr e ↦ rw e (short, good)
]

-- A call on the stream: Read with a buffer, Next with the choice of its select, Write.
pub data Call : Type 0 where
  reads : ℕ → Call
  asks : Bool → Call
  writes : Bool → Bytes → Call

-- What the calls have handed out.
pub record Handed : Type 0 where
  pub input : Bytes
  pub resizes : List TerminalSize

unfoldable pub sizes_of : NextResult → List TerminalSize
sizes_of (next_size size) = size ∷ []
sizes_of stopped = []
sizes_of waiting = []

module _ (decode : Bytes → Option ControlMsg) where
  dispatch-IsQueue :
      (frame : Bytes) (sizes : List TerminalSize)
      → IsQueue sizes
      → IsQueue (dispatch decode frame sizes)
  unfolding dispatch
  dispatch-IsQueue frame sizes h = elim (Option-cases (resize_of (decode frame))) [
    | inl e ↦ rw (e, dispatch) h
    | inr (size, e) ↦
        rw (e, dispatch) (offer-IsQueue size sizes (resize_of-IsSize (decode frame) size e) h)
  ]

  read_loop-IsQueue :
      (n : ℕ) (ms : List Message) (s : WsStream)
      → IsQueue s.sizes
      → IsQueue (read_loop decode n ms s).0.sizes
  unfolding read_loop
  read_loop-IsQueue n [] s h = elim (Bool-cases s.is_closed) [ inl e ↦ rw e h | inr e ↦ rw e h ]
  read_loop-IsQueue n (text_message frame ∷ ms) s h =
      read_loop-IsQueue n ms _ (dispatch-IsQueue frame s.sizes h)
  read_loop-IsQueue n (binary_message frame ∷ ms) s h = h
  read_loop-IsQueue n (other_message ∷ ms) s h = read_loop-IsQueue n ms s h

  read-IsQueue : (n : ℕ) (s : WsStream) → IsQueue s.sizes → IsQueue (read decode n s).0.sizes
  unfolding read
  read-IsQueue n s h = elim (Bool-cases (is_empty s.buf)) [
    | inl e ↦ rw (e, read) (read_loop-IsQueue n s.incoming s h)
    | inr e ↦ rw (e, read) h
  ]

  unfoldable pub run_calls : List Call → WsStream → WsStream × Handed
  run_calls [] s = (s, record { input = []; resizes = [] })
  run_calls (reads n ∷ calls) s =
      let (s', result) = read decode n s in
      let (t, rest) = run_calls calls s' in
      (t, record rest { input = bytes_of result ++ rest.input })
  run_calls (asks choice ∷ calls) s =
      let (s', result) = next choice s in
      let (t, rest) = run_calls calls s' in
      (t, record rest { resizes = sizes_of result ++ rest.resizes })
  run_calls (writes fails p ∷ calls) s = run_calls calls (write fails p s).0

  -- Next takes from the front of the queue, or nothing, and leaves the input alone.
  pop_lem :
      (choice closed : Bool) (incoming : List Message) (buf : Bytes) (sizes : List TerminalSize)
      (sent : List Bytes)
      → IsQueue sizes
      → let s : WsStream = record {
        incoming = incoming;
        buf = buf;
        sizes = sizes;
        is_closed = closed;
        sent = sent;
      } in
        let (s', result) = next choice s in
        IsQueue s'.sizes × All IsSize (sizes_of result) × (pending s' ≡ pending s)
  unfolding next sizes_of
  pop_lem choice true incoming buf [] sent h = (h, tt, refl)
  pop_lem choice false incoming buf [] sent h = (h, tt, refl)
  pop_lem true true incoming buf (size ∷ sizes) sent (short, good) =
      ((omega arith, good.1), (good.0, tt), refl)
  pop_lem false true incoming buf (size ∷ sizes) sent h = (h, tt, refl)
  pop_lem choice false incoming buf (size ∷ sizes) sent (short, good) =
      ((omega arith, good.1), (good.0, tt), refl)

  write_lem :
      (fails : Bool) (p : Bytes) (s : WsStream)
      → let s' = (write fails p s).0 in (s'.sizes ≡ s.sizes) × (pending s' ≡ pending s)
  unfolding write
  write_lem true p s = (refl, refl)
  write_lem false p s = (refl, refl)

  -- What holds after calls from s that handed out `handed`.
  abbrev Delivered : WsStream → WsStream → Handed → Type 0
  Delivered s s' handed =
      IsQueue s'.sizes × All IsSize handed.resizes × (handed.input ++ pending s' ≡ pending s)

  run_calls-Delivered :
      (calls : List Call) (s : WsStream)
      → IsQueue s.sizes
      → let (s', handed) = run_calls calls s in Delivered s s' handed
  unfolding run_calls
  run_calls-Delivered [] s h = (h, tt, refl)
  run_calls-Delivered (reads n ∷ calls) s h =
      let (s', result) = read decode n s in
      let (queue, good, split) = run_calls-Delivered calls s' (read-IsQueue n s h) in
      (
        queue,
        good,
        append_assoc (bytes_of result) (run_calls calls s').1.input _
            ∙ ap (λ b. bytes_of result ++ b) split
            ∙ read-pending decode n s,
      )
  run_calls-Delivered (asks choice ∷ calls) s h =
      let (s', result) = next choice s in
      let (kept, popped, same) = pop_lem choice s.is_closed s.incoming s.buf s.sizes s.sent h in
      let (queue, good, split) = run_calls-Delivered calls s' kept in
      (
        queue,
        All-append IsSize (sizes_of result) (run_calls calls s').1.resizes popped good,
        split ∙ same,
      )
  run_calls-Delivered (writes fails p ∷ calls) s h =
      let (same, still) = write_lem fails p s in
      let (queue, good, split) = run_calls-Delivered calls (write fails p s).0 (rw same h) in
      (queue, good, split ∙ still)

  -- Whatever calls a terminal makes on a new stream, one after the other, the channel holds at most 4
  -- sizes, every size that Next returns has columns and rows, and the input that the Reads returned
  -- is the start of what the browser types: what is left to read is the rest of it.
  pub run_calls-typed :
      (calls : List Call) (incoming : List Message)
      → let (s, handed) = run_calls calls (new_ws_stream incoming) in
        (length s.sizes ≤ 4)
        × All IsSize handed.resizes
        × (handed.input ++ pending s ≡ typed incoming)
  unfolding new_ws_stream
  run_calls-typed calls incoming =
      let ((short, good), sizes, split) =
        run_calls-Delivered calls (new_ws_stream incoming) (omega arith, tt) in
      (short, sizes, split)
