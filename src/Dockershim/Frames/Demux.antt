-- ===== src/Dockershim/Frames/Demux.antt =====
-- A client that follows the layout of the raw stream gets back what was written.
use training_platform.Shared.{
  Bytes, ℕ, zero, suc, ◌+◌, ◌*◌, ◌/◌, ◌%◌, ◌^◌, ◌≤◌, ◌<◌, ◌≡◌, refl, sym, ap, ◌∙◌, true, false,
  Option, none, some, List, [], ◌∷◌, ◌++◌, All, length, length-append, take, drop,
  take-append_whole, drop-append_whole, is_empty, leb, ◌==◌, ◌&&◌, if◌then◌else◌, arith, map,
}
use mathlib.Core.List.{append_assoc}
use training_platform.Dockershim.Frames.{put_uint32, header, whole, frame_write, copy_logs}

-- A frame is the stream, three zeros, the size in four bytes, the highest first, and as many bytes.
unfoldable pub read_frame : Bytes → Option ((ℕ × Bytes) × Bytes)
read_frame (stream ∷ x ∷ y ∷ z ∷ a ∷ b ∷ c ∷ d ∷ s) =
    let size = a * 2 ^ 24 + b * 2 ^ 16 + c * 2 ^ 8 + d in
    if (x == 0) && (y == 0) && (z == 0) && leb size (length s)
    then some ((stream, take size s), drop size s)
    else none
read_frame _ = none

-- Frame by frame to the end of the stream.
unfoldable pub demux : ℕ → Bytes → Option (List (ℕ × Bytes))
demux fuel [] = some []
demux zero (c ∷ s) = none
demux (suc fuel) (c ∷ s) = elim (read_frame (c ∷ s)) [
  | none ↦ none
  | some (frame, rest) ↦ elim (demux fuel rest) [
    | none ↦ none
    | some frames ↦ some (frame ∷ frames)
  ]
]

size_lem :
    (n : ℕ)
    → n < 2 ^ 32
    → n % 2 ^ 32 / 2 ^ 24 * 2 ^ 24
        + n % 2 ^ 32 / 2 ^ 16 % 256 * 2 ^ 16
        + n % 2 ^ 32 / 2 ^ 8 % 256 * 2 ^ 8
        + n % 2 ^ 32 % 256
      ≡ n
size_lem n h = omega arith

-- What a client reads behind a header, whatever follows it.
read_frame-header :
    (stream : ℕ) (p s : Bytes)
    → length p < 2 ^ 32
    → length p ≤ length s
    → read_frame (header stream p ++ s) ≡ some ((stream, take (length p) s), drop (length p) s)
unfolding read_frame header put_uint32
read_frame-header stream p s h k = rw (size_lem (length p) h) (ground (arith, k))

-- What the writers of one connection write, one Write after the other.
unfoldable pub write_all : List (ℕ × Bytes) → Bytes
write_all [] = []
write_all ((stream, p) ∷ ws) = (frame_write whole stream p).0 ++ write_all ws

read_frame-frame_write :
    (stream : ℕ) (p rest : Bytes)
    → length p < 2 ^ 32
    → read_frame ((frame_write whole stream p).0 ++ rest) ≡ some ((stream, p), rest)
unfolding frame_write
read_frame-frame_write stream p rest h =
    ap read_frame (append_assoc (header stream p) p rest)
    ∙ read_frame-header stream p (p ++ rest) h (omega (arith, length-append p rest))
    ∙ rw (take-append_whole p rest, drop-append_whole p rest) refl

-- A text that a frame can carry: its size fits in four bytes.
abbrev pub IsWritable : ℕ × Bytes → Type 0
IsWritable w = length w.1 < 2 ^ 32

frame_write-IsCons :
    (stream : ℕ) (p rest : Bytes)
    → (c : ℕ) × (s : Bytes) × ((frame_write whole stream p).0 ++ rest ≡ c ∷ s)
unfolding frame_write header
frame_write-IsCons stream p rest = (_, _, refl)

demux_step :
    (fuel c : ℕ) (s : Bytes) (frame : ℕ × Bytes) (rest : Bytes) (frames : List (ℕ × Bytes))
    → read_frame (c ∷ s) ≡ some (frame, rest)
    → demux fuel rest ≡ some frames
    → demux (suc fuel) (c ∷ s) ≡ some (frame ∷ frames)
unfolding demux
demux_step fuel c s frame rest frames read e = ground (arith, read, e)

demux-frame_write :
    (fuel stream : ℕ) (p rest : Bytes) (frames : List (ℕ × Bytes))
    → length p < 2 ^ 32
    → demux fuel rest ≡ some frames
    → demux (suc fuel) ((frame_write whole stream p).0 ++ rest) ≡ some ((stream, p) ∷ frames)
demux-frame_write fuel stream p rest frames h e =
    let (c, s, cons) = frame_write-IsCons stream p rest in
    let read = sym (ap read_frame cons) ∙ read_frame-frame_write stream p rest h in
    rw cons (demux_step fuel c s (stream, p) rest frames read e)

-- Writes that do not fail, to one connection and one after the other, on whatever streams: a
-- client that reads frame by frame gets the same texts on the same streams, in the same order, with
-- nothing left over, if each is shorter than 2 ^ 32 bytes. As many steps as writes are enough.
pub demux-write_all :
    (ws : List (ℕ × Bytes)) (fuel : ℕ)
    → All IsWritable ws
    → length ws ≤ fuel
    → demux fuel (write_all ws) ≡ some ws
unfolding write_all demux
demux-write_all [] zero h k = refl
demux-write_all [] (suc fuel) h k = refl
demux-write_all ((stream, p) ∷ ws) zero h k = ground arith
demux-write_all ((stream, p) ∷ ws) (suc fuel) h k =
    demux-frame_write fuel stream p (write_all ws) ws h.0
      (demux-write_all ws fuel h.1 (omega arith))

-- The reads that the log loop passes on.
unfoldable pub non_empty : List Bytes → List Bytes
non_empty [] = []
non_empty (p ∷ ps) = let rest = non_empty ps in if is_empty p then rest else p ∷ rest

unfoldable pub joined : List Bytes → Bytes
joined [] = []
joined (p ∷ ps) = p ++ joined ps

-- The logs of a container, read in pieces of the loop's buffer: with a terminal the client gets
-- the text itself, and without one frames of stream 1, one for each piece that is not empty.
pub copy_logs_lem :
    (ps : List Bytes) (fuel : ℕ)
    → All (λ p. length p ≤ 4096) ps
    → length ps ≤ fuel
    → (copy_logs true ps ≡ joined ps)
      × (demux fuel (copy_logs false ps) ≡ some (map (λ p. (1, p)) (non_empty ps)))
unfolding copy_logs joined non_empty is_empty demux
copy_logs_lem [] zero h k = (refl, refl)
copy_logs_lem [] (suc fuel) h k = (refl, refl)
copy_logs_lem (p ∷ ps) zero h k = ground arith
copy_logs_lem ([] ∷ ps) (suc fuel) h k = copy_logs_lem ps (suc fuel) h.1 (omega arith)
copy_logs_lem ((c ∷ p) ∷ ps) (suc fuel) h k =
    let (raw, framed) = copy_logs_lem ps fuel h.1 (omega arith) in
    (
      ap (λ r. c ∷ (p ++ r)) raw,
      demux-frame_write fuel 1 (c ∷ p) (copy_logs false ps) _ (omega arith) framed,
    )

-- Two writers of one connection whose calls overlap, so that both headers go out before the texts:
-- the client takes the second header for the start of the first text.
pub read_frame-overlap :
    (p q rest : Bytes)
    → length p < 2 ^ 32
    → read_frame (header 1 p ++ (header 2 q ++ (p ++ (q ++ rest))))
      ≡ some (
        (1, take (length p) (header 2 q ++ (p ++ (q ++ rest)))),
        drop (length p) (header 2 q ++ (p ++ (q ++ rest))),
      )
read_frame-overlap p q rest h =
    let after = p ++ (q ++ rest) in
    read_frame-header 1 p (header 2 q ++ after) h
      (omega (arith, length-append (header 2 q) after, length-append p (q ++ rest)))
