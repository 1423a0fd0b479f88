-- ===== src/Node/Connection/Wire.antt =====
-- A frame alone on a stream, and a message alone in a frame, bhumi-proto/src/lib.rs.
use bhumi.Base.{
  ◌+◌, ◌≡◌, [], ◌∷◌, ◌++◌, ok, arith, length, concat, append_assoc, append-nil, bytes_has_eq,
}
use bhumi.Proto.Buffer.{Bytes, be16, be32, as_u16, as_u32, length-concat, length-be16, length-be32}
use bhumi.Proto.Hello
use bhumi.Proto.Hello.{Hello}
use bhumi.Proto.IAm
use bhumi.Proto.IAm.{IAm}
use bhumi.Proto.Send
use bhumi.Proto.Send.{Send}
use bhumi.Proto.SendResult
use bhumi.Proto.SendResult.{SendResult}
use bhumi.Proto.Deliver
use bhumi.Proto.Deliver.{Deliver}
use bhumi.Proto.Ack
use bhumi.Proto.Ack.{Ack}
use bhumi.Proto.UpdateCommits
use bhumi.Proto.UpdateCommits.{UpdateCommits}
use bhumi.Proto.Frame.{Frame, write_frame, read_frame, write_to}
use bhumi.Proto.Frame.Stream
use bhumi.Proto.Frame.Stream.{read_from-write_to, read_frame-read_from}

pub read_frame-write_frame :
    (f : Frame) (rest : Bytes)
    → Stream.IsValid f
    → read_frame (write_frame [] f ++ rest) ≡ ok (f, rest)
read_frame-write_frame f rest v =
    rw ((read_frame-read_from [] f []).1, (read_frame-read_from (write_to f [] ++ rest) f []).0)
      (read_from-write_to f rest v)

pub read_frame-alone : (f : Frame) → Stream.IsValid f → read_frame (write_frame [] f) ≡ ok (f, [])
read_frame-alone f v = rw append-nil at (read_frame-write_frame f [] v)

pub write_frame-append : (out : Bytes) (f : Frame) → write_frame out f ≡ out ++ write_frame [] f
unfolding write_frame
write_frame-append out f = simp append_assoc

pub IAm-alone : (m : IAm) → IAm.IsValid m → IAm.from_bytes (IAm.to_bytes m) ≡ ok m
IAm-alone m v = rw append-nil at (IAm.i_am_from_bytes-to_bytes m [] v)

pub Hello-alone : (m : Hello) → Hello.IsValid m → Hello.from_bytes (Hello.to_bytes m) ≡ ok m
Hello-alone m v = rw append-nil at (Hello.hello_from_bytes-to_bytes m [] v)

pub Send-alone : (m : Send) → Send.IsValid m → Send.from_bytes (Send.to_bytes m) ≡ ok m
Send-alone m v = rw append-nil at (Send.send_from_bytes-to_bytes m [] v)

pub SendResult-alone :
    (m : SendResult) → SendResult.IsValid m → SendResult.from_bytes (SendResult.to_bytes m) ≡ ok m
SendResult-alone m v = rw append-nil at (SendResult.send_result_from_bytes-to_bytes m [] v)

pub Deliver-alone :
    (m : Deliver) → Deliver.IsValid m → Deliver.from_bytes (Deliver.to_bytes m) ≡ ok m
Deliver-alone m v = rw append-nil at (Deliver.deliver_from_bytes-to_bytes m [] v)

pub Ack-alone : (m : Ack) → Ack.IsValid m → Ack.from_bytes (Ack.to_bytes m) ≡ ok m
Ack-alone m v = rw append-nil at (Ack.ack_from_bytes-to_bytes m [] v)

pub UpdateCommits-alone :
    (m : UpdateCommits)
    → UpdateCommits.IsValid m
    → UpdateCommits.from_bytes (UpdateCommits.to_bytes m) ≡ ok m
UpdateCommits-alone m v = rw append-nil at (UpdateCommits.update_commits_from_bytes-to_bytes m [] v)

pub length-deliver :
    (m : Deliver) → length (Deliver.to_bytes m) ≡ 8 + length m.preimage + length m.payload
unfolding Deliver.to_bytes
length-deliver m =
    let n = be32 (as_u32 (length m.payload)) in
    omega (
      arith,
      length-concat (be32 m.msg_id ∷ m.preimage ∷ n ∷ m.payload ∷ []),
      length-be32 m.msg_id,
      length-be32 (as_u32 (length m.payload)),
    )

pub length-ack : (m : Ack) → length (Ack.to_bytes m) ≡ 8 + length m.payload
unfolding Ack.to_bytes
length-ack m =
    let n = be32 (as_u32 (length m.payload)) in
    omega (
      arith,
      length-concat (be32 m.msg_id ∷ n ∷ m.payload ∷ []),
      length-be32 m.msg_id,
      length-be32 (as_u32 (length m.payload)),
    )

-- The commits of one preimage.
pub length-one_commit :
    (c : Bytes) → length (UpdateCommits.to_bytes (record { commits = c ∷ [] })) ≡ 2 + length c
unfolding UpdateCommits.to_bytes
length-one_commit c = omega (
  arith,
  length-concat (be16 (as_u16 1) ∷ concat (c ∷ []) ∷ []),
  length-concat (c ∷ []),
  length-be16 (as_u16 1),
)

pub length-hello : (m : Hello) → length (Hello.to_bytes m) ≡ 9
unfolding Hello.to_bytes
length-hello m = omega (
  arith,
  length-concat ((m.version ∷ []) ∷ be32 m.nonce ∷ be32 m.max_payload_size ∷ []),
  length-be32 m.nonce,
  length-be32 m.max_payload_size,
)

pub length-send :
    (m : Send)
    → length (Send.to_bytes m) ≡ length m.to_id52 + length m.preimage + 4 + length m.payload
unfolding Send.to_bytes
length-send m =
    let n = be32 (as_u32 (length m.payload)) in
    omega (
      arith,
      length-concat (m.to_id52 ∷ m.preimage ∷ n ∷ m.payload ∷ []),
      length-be32 (as_u32 (length m.payload)),
    )

pub length-send_result : (m : SendResult) → length (SendResult.to_bytes m) ≡ 5 + length m.payload
unfolding SendResult.to_bytes
length-send_result m =
    let n = be32 (as_u32 (length m.payload)) in
    omega (
      arith,
      length-concat ((m.status ∷ []) ∷ n ∷ m.payload ∷ []),
      length-be32 (as_u32 (length m.payload)),
    )
