-- ===== src/Proto/Frame/Stream.antt =====
-- Frames on a byte stream, bhumi-proto/src/lib.rs: what is written is read back frame by frame.
use bhumi.Base.{
  All-drop, ℕ, zero, suc, ◌*◌, ◌^◌, ◌≤◌, ◌<◌, ◌≡◌, ◌≢◌, refl, sym, ap, ◌∙◌, List, [], ◌∷◌, ◌++◌,
  arith, ltb, if◌then◌else◌, length, take, drop, All, Result, ok, err, panic, invalid_data, ◌>>=◌,
  append_assoc, length-append, append-nil,
}
use bhumi.Proto.Buffer.{
  Bytes, IsByte, be16, be32, as_u32, cut, u16_at, u32_at, read_u16_ok, read_u32_ok, u16_piece,
  u32_piece, length-be16, length-be32, cut-drop, AreBytes, be16-u16_at, be32-u32_at, u32_at-lt,
}
use bhumi.Base.{unexpected_eof, take-append, drop-append, length-take, take-append-drop, All-take}
use bhumi.Proto.Frame.{Frame, write_to, read_from, write_frame, read_frame}

-- The type is a 16-bit number, and the payload is one that a reader takes.
pub record IsValid (f : Frame) : Type 0 where
  pub type_size : f.msg_type < 2 ^ 16
  pub payload_size : length f.payload ≤ 1024 * 1024

-- The head of a frame.
abbrev header : Frame → Bytes
header f = be16 f.msg_type ++ be32 (as_u32 (length f.payload))

abbrev wire : Frame → Bytes
wire f = header f ++ f.payload

write_to-wire : (f : Frame) (out : Bytes) → write_to f out ≡ out ++ wire f
unfolding write_to
write_to-wire f out = simp append_assoc

length-header : (f : Frame) → length (header f) ≡ 6
length-header f =
    let n = as_u32 (length f.payload) in
    omega (arith, length-append (be16 f.msg_type) (be32 n), length-be16 f.msg_type, length-be32 n)

-- `read_from` on a stream whose first six bytes are `head`.
read_from-append :
    (head rest : Bytes)
    → length head ≡ 6
    → read_from (head ++ rest) ≡ (
        if ltb (1024 * 1024) (u32_at head 2)
        then err (invalid_data "frame too large")
        else if ltb (length rest) (u32_at head 2)
        then err unexpected_eof
        else ok (
          record { msg_type = u16_at head 0; payload = take (u32_at head 2) rest },
          drop (u32_at head 2) rest,
        ))
unfolding read_from
read_from-append head rest h =
    let t : take 6 (head ++ rest) ≡ head = rw h at (take-append head rest) in
    let d : drop 6 (head ++ rest) ≡ rest = rw h at (drop-append head rest) in
    ground (arith, t, d, length-append head rest, read_u16_ok head 0, read_u32_ok head 2)

header_fields :
    (f : Frame)
    → f.msg_type < 2 ^ 16
    → length f.payload < 2 ^ 32
    → (u16_at (header f) 0 ≡ f.msg_type) × (u32_at (header f) 2 ≡ length f.payload)
header_fields f h k =
    let n = length f.payload in
    let e : as_u32 n ≡ n = omega arith in
    rw e (
      rw append-nil at (u16_piece [] f.msg_type (be32 n ∷ []) 0 refl h),
      rw append-nil at
          (u32_piece (be16 f.msg_type ∷ []) n [] 2 (omega (arith, length-be16 f.msg_type)) k),
    )

-- A frame that was written is read back, and the reader stands at the byte behind it.
pub read_from-write_to :
    (f : Frame) (rest : Bytes) → IsValid f → read_from (write_to f [] ++ rest) ≡ ok (f, rest)
read_from-write_to f rest v =
    rw
      (
        write_to-wire f [],
        append_assoc (header f) f.payload rest,
        read_from-append (header f) (f.payload ++ rest) (length-header f),
      )
      (ground (
        arith,
        header_fields f,
        length-append f.payload rest,
        take-append f.payload rest,
        drop-append f.payload rest,
      ))

-- The writer does not check the size that the reader refuses: a frame with a payload of more than
-- 1 MiB (and less than 4 GiB) is written, and reading it fails.
pub read_from-too_large :
    (f : Frame) (rest : Bytes)
    → f.msg_type < 2 ^ 16
    → 1024 * 1024 < length f.payload
    → length f.payload < 2 ^ 32
    → read_from (write_to f [] ++ rest) ≡ err (invalid_data "frame too large")
read_from-too_large f rest h k l =
    rw
      (
        write_to-wire f [],
        append_assoc (header f) f.payload rest,
        read_from-append (header f) (f.payload ++ rest) (length-header f),
      )
      (ground (arith, header_fields f))

-- `n` calls of `read_from` in a row.
unfoldable pub read_frames : ℕ → Bytes → Result (List Frame × Bytes)
read_frames zero reader = ok ([], reader)
read_frames (suc n) reader = do
  (f, reader') ← read_from reader
  (fs, reader'') ← read_frames n reader'
  ok (f ∷ fs, reader'')

-- Frames written one after the other.
unfoldable pub write_frames : List Frame → Bytes → Bytes
write_frames [] writer = writer
write_frames (f ∷ fs) writer = write_frames fs (write_to f writer)

write_frames-append :
    (fs : List Frame) (writer : Bytes) → write_frames fs writer ≡ writer ++ write_frames fs []
unfolding write_frames
write_frames-append [] writer = sym (append-nil writer)
write_frames-append (f ∷ fs) writer =
    write_frames-append fs (write_to f writer)
    ∙ rw (write_to-wire f writer, append_assoc writer (wire f) (write_frames fs []))
        (ap (◌++◌ writer) (sym (write_frames-append fs (write_to f []) ∙ rw (write_to-wire f []))))

-- Any sequence of frames written to one stream is read back in order, with no frame lost, split
-- or joined, and the reader stands behind the last of them.
pub read_frames-write_frames :
    (fs : List Frame) (rest : Bytes)
    → All IsValid fs
    → read_frames (length fs) (write_frames fs [] ++ rest) ≡ ok (fs, rest)
unfolding read_frames write_frames
read_frames-write_frames [] rest v = refl
read_frames-write_frames (f ∷ fs) rest v =
    let more = write_frames fs [] in
    rw (write_frames-append fs (write_to f []), append_assoc (write_to f []) more rest)
      (rw (read_from-write_to f (more ++ rest) v.0, read_frames-write_frames fs rest v.1))

-- What `read_from` gives on any bytes.
read_from_lem :
    (reader : Bytes)
    → read_from reader ≡ (
        if ltb (length reader) 6
        then err unexpected_eof
        else if ltb (1024 * 1024) (u32_at (take 6 reader) 2)
        then err (invalid_data "frame too large")
        else if ltb (length (drop 6 reader)) (u32_at (take 6 reader) 2)
        then err unexpected_eof
        else ok (
          record {
            msg_type = u16_at (take 6 reader) 0;
            payload = take (u32_at (take 6 reader) 2) (drop 6 reader);
          },
          drop (u32_at (take 6 reader) 2) (drop 6 reader),
        ))
unfolding read_from
read_from_lem reader =
    let head = take 6 reader in
    ground (arith, length-take 6 reader, read_u16_ok head 0, read_u32_ok head 2)

pub read_from-ne-panic : (reader : Bytes) → read_from reader ≢ panic
read_from-ne-panic reader = rw (read_from_lem reader) (ground arith)

head-eq :
    (head : Bytes)
    → AreBytes head
    → length head ≡ 6
    → be16 (u16_at head 0) ++ be32 (u32_at head 2) ≡ head
head-eq head v h =
    let z : drop 6 head ≡ [] = rw h at (rw append-nil at (drop-append head [])) in
    let t : cut head 2 6 ≡ drop 2 head =
      sym (append-nil (cut head 2 6)) ∙ rw z at (cut-drop head 2 6 (omega arith)) in
    rw (be16-u16_at head 0 2 v refl (omega arith), be32-u32_at head 2 6 v refl (omega arith), t)
      (cut-drop head 0 2 (omega arith))

frame_at : Bytes → Frame
frame_at reader = record {
  msg_type = u16_at (take 6 reader) 0;
  payload = take (u32_at (take 6 reader) 2) (drop 6 reader);
}

read_from_inv :
    (reader rest : Bytes) (f : Frame)
    → read_from reader ≡ ok (f, rest)
    → (6 ≤ length reader)
      × (u32_at (take 6 reader) 2 ≤ 1024 * 1024)
      × (u32_at (take 6 reader) 2 ≤ length (drop 6 reader))
      × (frame_at reader ≡ f)
      × (drop (u32_at (take 6 reader) 2) (drop 6 reader) ≡ rest)
unfolding frame_at
read_from_inv reader rest f h = ground (arith, read_from_lem reader)

frame_at-joins :
    (reader : Bytes)
    → AreBytes reader
    → 6 ≤ length reader
    → u32_at (take 6 reader) 2 ≤ length (drop 6 reader)
    → (wire (frame_at reader) ++ drop (u32_at (take 6 reader) 2) (drop 6 reader) ≡ reader)
      × (length (frame_at reader).payload ≡ u32_at (take 6 reader) 2)
unfolding frame_at
frame_at-joins reader v h k =
    let head = take 6 reader in
    let body = drop 6 reader in
    let n = u32_at head 2 in
    let av = All-take IsByte 6 reader v in
    let len : length (take n body) ≡ n = omega (arith, length-take n body) in
    let e : as_u32 (length (take n body)) ≡ n = omega (arith, len, u32_at-lt head 2 av) in
    (
      rw
          (
            e,
            append_assoc,
            take-append-drop n body,
            head-eq head av (omega (arith, length-take 6 reader)),
          )
          (take-append-drop 6 reader),
      len,
    )

-- A frame that was read is what the stream began with, and its payload is at most 1 MiB.
pub read_from-IsPrefix :
    (reader rest : Bytes) (f : Frame)
    → AreBytes reader
    → read_from reader ≡ ok (f, rest)
    → (write_to f [] ++ rest ≡ reader) × (length f.payload ≤ 1024 * 1024)
read_from-IsPrefix reader rest f v h =
    let (long, small, fits, here, there) = read_from_inv reader rest f h in
    let (joins, len) = frame_at-joins reader v long fits in
    rw (← here, ← there, write_to-wire) (joins, omega arith)

pub read_from_payload :
    (reader rest : Bytes) (f : Frame)
    → AreBytes reader
    → read_from reader ≡ ok (f, rest)
    → AreBytes f.payload × (length f.payload ≤ 1024 * 1024)
unfolding frame_at
read_from_payload reader rest f v h =
    let (long, small, fits, here, there) = read_from_inv reader rest f h in
    let n = u32_at (take 6 reader) 2 in
    let body = drop 6 reader in
    rw (← here)
      (All-take IsByte n body (All-drop IsByte 6 reader v), omega (arith, length-take n body))

-- The asynchronous reader and writer do what the blocking ones do.
pub read_frame-read_from :
    (reader : Bytes) (f : Frame) (out : Bytes)
    → (read_frame reader ≡ read_from reader) × (write_frame out f ≡ write_to f out)
unfolding read_frame read_from write_frame write_to
read_frame-read_from reader f out = (refl, refl)
