-- ===== src/Tests/Terminal.antt =====
-- The terminal's stream at concrete messages.
use training_platform.Shared.{
  Bytes, codes, ◌≤◌, ◌≡◌, true, false, Option, none, some, List, [], ◌∷◌, ◌++◌, All, length, arith,
  is_empty, str_eq,
}
use training_platform.Terminal.Stream.{
  Message, text_message, binary_message, other_message, ControlMsg, new_ws_stream, offer, resize_of,
  got, dispatch, read_loop, read,
}
use training_platform.Terminal.Stream.Input.{typed, pending, weight, copy_input, copy_input-pending}
use training_platform.Terminal.Stream.Sizes.{
  IsSize, Call, reads, asks, writes, run_calls, run_calls-typed,
}

-- A JSON decoder that knows one text.
abbrev decode_resize : Bytes → Option ControlMsg
decode_resize (c ∷ s) = some (record { kind = codes "resize"; cols = 80; rows = 24 })
decode_resize [] = none

abbrev session_messages : List Message
session_messages =
    text_message (codes "{}")
    ∷ binary_message (codes "ls -l")
    ∷ other_message
    ∷ binary_message (codes "!")
    ∷ []

abbrev session_calls : List Call
session_calls =
    reads 3 ∷ asks true ∷ writes false (codes "total 0") ∷ reads 8 ∷ asks true ∷ reads 8 ∷ []

first_read : (read decode_resize 3 (new_ws_stream session_messages)).1 ≡ got (codes "ls ")
unfolding read read_loop new_ws_stream dispatch offer resize_of is_empty str_eq
first_read = ground arith

copy_input-pending_example :
    copy_input decode_resize 12 4 (new_ws_stream session_messages)
    ≡ some (pending (new_ws_stream session_messages))
unfolding new_ws_stream weight
copy_input-pending_example =
    copy_input-pending decode_resize 12 4 (new_ws_stream session_messages) (omega arith)
      (omega arith)

run_calls-typed_example :
    let (s, handed) = run_calls decode_resize session_calls (new_ws_stream session_messages) in
    (length s.sizes ≤ 4)
    × All IsSize handed.resizes
    × (handed.input ++ pending s ≡ typed session_messages)
run_calls-typed_example = run_calls-typed decode_resize session_calls session_messages
