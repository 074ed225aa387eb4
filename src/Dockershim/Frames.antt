-- ===== src/Dockershim/Frames.antt =====
-- internal/dockershim/exec.go and the copy loop of handleContainerLogs in server.go: the frames of
-- Docker's raw stream.
pub mod Demux
use training_platform.Shared.{
  Bytes, ℕ, zero, suc, ◌+◌, ◌*◌, ◌/◌, ◌%◌, ◌^◌, Bool, true, false, Option, none, some, List, [],
  ◌∷◌, ◌++◌, length, take, drop, is_empty, ltb, if◌then◌else◌,
}

-- binary.BigEndian.PutUint32 of uint32(n).
unfoldable pub put_uint32 : ℕ → Bytes
put_uint32 n = let m = n % 2 ^ 32 in m / 2 ^ 24 ∷ m / 2 ^ 16 % 256 ∷ m / 2 ^ 8 % 256 ∷ m % 256 ∷ []

-- The header that dockerFrameWriter.Write puts in front of p.
unfoldable pub header : ℕ → Bytes → Bytes
header stream p = stream ∷ 0 ∷ 0 ∷ 0 ∷ put_uint32 (length p)

-- How the two writes below end: both whole, or one with an error after some bytes.
pub data FrameWritten : Type 0 where
  whole : FrameWritten
  header_fails payload_fails : ℕ → FrameWritten

-- dockerFrameWriter.Write: what reaches the connection, and the results (n, failed).
unfoldable pub frame_write : FrameWritten → ℕ → Bytes → Bytes × ℕ × Bool
frame_write whole stream p = (header stream p ++ p, length p, false)
frame_write (header_fails n) stream p = (take n (header stream p), 0, true)
frame_write (payload_fails n) stream p = (header stream p ++ take n p, length (take n p), true)

-- The loop of handleContainerLogs over what the reads return, with writes that do not fail: a read of
-- no bytes writes nothing.
unfoldable pub copy_logs : Bool → List Bytes → Bytes
copy_logs tty [] = []
copy_logs tty (p ∷ ps) =
    let rest = copy_logs tty ps in
    if is_empty p then rest else if tty then p ++ rest else (frame_write whole 1 p).0 ++ rest
