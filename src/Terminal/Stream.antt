-- ===== src/Terminal/Stream.antt =====
-- internal/terminal/wsstream.go: a WebSocket as the terminal's input, output and queue of sizes. The
-- messages that arrive before the connection fails are a list; `decode` is json.Unmarshal.
pub mod Input
pub mod Sizes
use training_platform.Shared.{
  Bytes, codes, ℕ, Bool, true, false, ◌&&◌, Option, none, some, List, [], ◌∷◌, ◌++◌, length, take,
  drop, is_empty, str_eq, ltb, if◌then◌else◌,
}

-- What ReadMessage returns when it does not fail.
pub data Message : Type 0 where
  text_message binary_message : Bytes → Message
  other_message : Message

-- type controlMsg struct
pub record ControlMsg : Type 0 where
  pub kind : Bytes
  pub cols : ℕ
  pub rows : ℕ

-- remotecommand.TerminalSize
pub record TerminalSize : Type 0 where
  pub cols : ℕ
  pub rows : ℕ

-- type wsStream struct: the messages to come, `buf`, the values in the channel `sizes`, whether
-- `closed` is closed, and the frames that were written.
pub record WsStream : Type 0 where
  pub incoming : List Message
  pub buf : Bytes
  pub sizes : List TerminalSize
  pub is_closed : Bool
  pub sent : List Bytes

-- newWSStream
unfoldable pub new_ws_stream : List Message → WsStream
new_ws_stream incoming = record {
  incoming = incoming;
  buf = [];
  sizes = [];
  is_closed = false;
  sent = [];
}

-- The capacity of the channel.
abbrev pub sizes_capacity : ℕ
sizes_capacity = 4

-- The select with a default: a size is dropped when the channel is full.
unfoldable pub offer : TerminalSize → List TerminalSize → List TerminalSize
offer size sizes = if ltb (length sizes) sizes_capacity then sizes ++ size ∷ [] else sizes

-- The size that a control message asks for.
unfoldable pub resize_of : Option ControlMsg → Option TerminalSize
resize_of none = none
resize_of (some m) =
    if str_eq m.kind (codes "resize") && ltb 0 m.cols && ltb 0 m.rows
    then some (record { cols = m.cols; rows = m.rows })
    else none

-- The results of Read: bytes, an error, or the panic of closing a closed channel.
pub data ReadResult : Type 0 where
  got : Bytes → ReadResult
  read_error panics : ReadResult

module _ (decode : Bytes → Option ControlMsg) where
  -- What a text message does to the channel.
  unfoldable pub dispatch : Bytes → List TerminalSize → List TerminalSize
  dispatch frame sizes = elim (resize_of (decode frame)) [
    | none ↦ sizes
    | some size ↦ offer size sizes
  ]

  -- The loop of Read, into a buffer of n bytes, over the messages to come.
  unfoldable pub read_loop : ℕ → List Message → WsStream → WsStream × ReadResult
  read_loop n [] s =
      if s.is_closed
      then (record s { incoming = [] }, panics)
      else (record s { incoming = []; is_closed = true }, read_error)
  read_loop n (text_message frame ∷ ms) s =
      read_loop n ms (record s { sizes = dispatch frame s.sizes })
  read_loop n (binary_message frame ∷ ms) s =
      (record s { incoming = ms; buf = drop n frame }, got (take n frame))
  read_loop n (other_message ∷ ms) s = read_loop n ms s

  -- Read
  unfoldable pub read : ℕ → WsStream → WsStream × ReadResult
  read n s =
      if is_empty s.buf
      then read_loop n s.incoming s
      else (record s { buf = drop n s.buf }, got (take n s.buf))

-- Write: the stream, the count and whether it failed.
unfoldable pub write : Bool → Bytes → WsStream → WsStream × ℕ × Bool
write true p s = (s, 0, true)
write false p s = (record s { sent = s.sent ++ p ∷ [] }, length p, false)

-- The results of Next: it may wait.
pub data NextResult : Type 0 where
  next_size : TerminalSize → NextResult
  stopped waiting : NextResult

-- Next. When both channels are ready, `takes_size` is the choice that select makes.
unfoldable pub next : Bool → WsStream → WsStream × NextResult
next takes_size s = elim s.sizes [
  | [] ↦ (s, if s.is_closed then stopped else waiting)
  | size ∷ sizes ↦
      if s.is_closed
      then (if takes_size then (record s { sizes = sizes }, next_size size) else (s, stopped))
      else (record s { sizes = sizes }, next_size size)
]
