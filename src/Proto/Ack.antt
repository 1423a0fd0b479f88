-- ===== src/Proto/Ack.antt =====
-- `Ack`, bhumi-proto/src/lib.rs: the recipient's answer to a delivery.
use bhumi.Base.{
  ℕ, ◌+◌, ◌^◌, ◌≤◌, ◌<◌, ◌≡◌, ◌≢◌, refl, [], ◌∷◌, ◌++◌, arith, ltb, if◌then◌else◌, length, drop,
  concat, Result, ok, err, panic, invalid_data, ◌>>=◌, concat-snoc, append-nil,
}
use bhumi.Proto.Buffer.{
  Bytes, be32, as_u32, slice, read_u32, cut, u32_at, slice_ok, read_u32_ok, cut_piece, u32_piece,
  length-concat, length-be32, length-cut, cut-drop, AreBytes, be32-u32_at, u32_at-lt,
}

pub record Ack : Type 0 where
  pub msg_id : ℕ
  pub payload : Bytes

unfoldable pub to_bytes : Ack → Bytes
to_bytes m = concat (be32 m.msg_id ∷ be32 (as_u32 (length m.payload)) ∷ m.payload ∷ [])

unfoldable pub from_bytes : Bytes → Result Ack
from_bytes buf = if ltb (length buf) 8 then err (invalid_data "ACK too short") else do
  msg_id ← read_u32 buf 0
  payload_len ← read_u32 buf 4
  if ltb (length buf) (8 + payload_len) then err (invalid_data "ACK payload truncated") else do
    payload ← slice buf 8 (8 + payload_len)
    ok (record { msg_id = msg_id; payload = payload })

-- The id fits its type, and the payload's length fits its field.
pub record IsValid (m : Ack) : Type 0 where
  pub msg_id_size : m.msg_id < 2 ^ 32
  pub payload_size : length m.payload < 2 ^ 32

parsed : Bytes → Ack
parsed buf = record { msg_id = u32_at buf 0; payload = cut buf 8 (8 + u32_at buf 4) }

from_bytes_lem :
    (buf : Bytes)
    → from_bytes buf ≡ (
        if ltb (length buf) 8
        then err (invalid_data "ACK too short")
        else if ltb (length buf) (8 + u32_at buf 4)
        then err (invalid_data "ACK payload truncated")
        else ok (parsed buf))
unfolding from_bytes parsed
from_bytes_lem buf =
    ground (arith, read_u32_ok buf 0, read_u32_ok buf 4, slice_ok buf 8 (8 + u32_at buf 4))

pub from_bytes-ne-panic : (buf : Bytes) → from_bytes buf ≢ panic
from_bytes-ne-panic buf = rw (from_bytes_lem buf) (ground arith)

-- What `to_bytes` writes for a valid acknowledgement, `from_bytes` reads back, whatever follows it.
pub ack_from_bytes-to_bytes :
    (m : Ack) (rest : Bytes) → IsValid m → from_bytes (to_bytes m ++ rest) ≡ ok m
unfolding to_bytes parsed
ack_from_bytes-to_bytes m rest v =
    let len = length m.payload in
    let e : as_u32 len ≡ len = omega arith in
    let id = be32 m.msg_id in
    rw (concat-snoc, e, from_bytes_lem)
      (ground (
        arith,
        length-concat (id ∷ be32 len ∷ m.payload ∷ rest ∷ []),
        length-be32 m.msg_id,
        length-be32 len,
        u32_piece [] m.msg_id (be32 len ∷ m.payload ∷ rest ∷ []) 0,
        u32_piece (id ∷ []) len (m.payload ∷ rest ∷ []) 4,
        cut_piece (id ∷ be32 len ∷ []) m.payload (rest ∷ []) 8 (8 + len),
      ))

parsed-joins :
    (buf : Bytes)
    → AreBytes buf
    → 8 + u32_at buf 4 ≤ length buf
    → to_bytes (parsed buf) ++ drop (8 + u32_at buf 4) buf ≡ buf
unfolding to_bytes parsed
parsed-joins buf v h =
    let n = u32_at buf 4 in
    let e : as_u32 (length (cut buf 8 (8 + n))) ≡ n =
      omega (arith, length-cut buf 8 (8 + n) h, u32_at-lt buf 4 v) in
    rw
      (
        concat-snoc,
        e,
        be32-u32_at buf 0 4 v refl (omega arith),
        be32-u32_at buf 4 8 v refl (omega arith),
        append-nil,
        cut-drop buf 8 (8 + n) (omega arith),
        cut-drop buf 4 8 (omega arith),
        cut-drop buf 0 4 (omega arith),
      )
      refl

-- An acknowledgement that `from_bytes` accepts is the start of the bytes that it was given.
pub ack_from_bytes-IsPrefix :
    (buf : Bytes) (m : Ack)
    → AreBytes buf
    → from_bytes buf ≡ ok m
    → (rest : Bytes) × (to_bytes m ++ rest ≡ buf)
ack_from_bytes-IsPrefix buf m v h =
    (drop (8 + u32_at buf 4) buf, ground (arith, from_bytes_lem buf, parsed-joins buf v))
