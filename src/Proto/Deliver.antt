-- ===== src/Proto/Deliver.antt =====
-- `Deliver`, bhumi-proto/src/lib.rs: a message that the relay forwards to its recipient.
use bhumi.Base.{
  ℕ, ◌+◌, ◌%◌, ◌^◌, ◌≤◌, ◌<◌, ◌≡◌, ◌≢◌, refl, [], ◌∷◌, ◌++◌, arith, ltb, if◌then◌else◌, length,
  drop, concat, Result, ok, err, panic, invalid_data, ◌>>=◌, concat-snoc, append-nil,
}
use bhumi.Proto.Buffer.{
  Bytes, be32, as_u32, slice, array, read_u32, cut, u32_at, slice_ok, array_ok, read_u32_ok,
  cut_piece, u32_piece, length-concat, length-be32, length-cut, cut-drop, AreBytes, be32-u32_at,
  u32_at-lt,
}

pub record Deliver : Type 0 where
  pub msg_id : ℕ
  pub preimage : Bytes
  pub payload : Bytes

unfoldable pub to_bytes : Deliver → Bytes
to_bytes m = concat (be32 m.msg_id ∷ m.preimage ∷ be32 (as_u32 (length m.payload)) ∷ m.payload ∷ [])

unfoldable pub from_bytes : Bytes → Result Deliver
from_bytes buf =
    if ltb (length buf) (4 + 32 + 4) then err (invalid_data "DELIVER too short") else do
      msg_id ← read_u32 buf 0
      preimage ← array 32 buf 4 36
      payload_len ← read_u32 buf 36
      if ltb (length buf) (40 + payload_len)
          then err (invalid_data "DELIVER payload truncated")
          else do
            payload ← slice buf 40 (40 + payload_len)
            ok (record { msg_id = msg_id; preimage = preimage; payload = payload })

-- The same code where a `usize` has 32 bits: the end of the payload wraps, and the slice panics if it
-- is then before the start.
unfoldable pub from_bytes_32 : Bytes → Result Deliver
from_bytes_32 buf =
    if ltb (length buf) (4 + 32 + 4) then err (invalid_data "DELIVER too short") else do
      msg_id ← read_u32 buf 0
      preimage ← array 32 buf 4 36
      payload_len ← read_u32 buf 36
      let end = (40 + payload_len) % 2 ^ 32
      if ltb (length buf) end then err (invalid_data "DELIVER payload truncated") else do
        payload ← slice buf 40 end
        ok (record { msg_id = msg_id; preimage = preimage; payload = payload })

-- The fields fit their types, and the payload's length fits its field.
pub record IsValid (m : Deliver) : Type 0 where
  pub msg_id_size : m.msg_id < 2 ^ 32
  pub preimage_size : length m.preimage ≡ 32
  pub payload_size : length m.payload < 2 ^ 32

pub parsed : Bytes → Deliver
parsed buf = record {
  msg_id = u32_at buf 0;
  preimage = cut buf 4 36;
  payload = cut buf 40 (40 + u32_at buf 36);
}

pub from_bytes_lem :
    (buf : Bytes)
    → from_bytes buf ≡ (
        if ltb (length buf) 40
        then err (invalid_data "DELIVER too short")
        else if ltb (length buf) (40 + u32_at buf 36)
        then err (invalid_data "DELIVER payload truncated")
        else ok (parsed buf))
unfolding from_bytes parsed
from_bytes_lem buf = ground (
  arith,
  read_u32_ok buf 0,
  array_ok 32 buf 4 36,
  read_u32_ok buf 36,
  slice_ok buf 40 (40 + u32_at buf 36),
)

pub from_bytes-ne-panic : (buf : Bytes) → from_bytes buf ≢ panic
from_bytes-ne-panic buf = rw (from_bytes_lem buf) (ground arith)

-- What `to_bytes` writes for a valid delivery, `from_bytes` reads back, whatever bytes follow it.
pub deliver_from_bytes-to_bytes :
    (m : Deliver) (rest : Bytes) → IsValid m → from_bytes (to_bytes m ++ rest) ≡ ok m
unfolding to_bytes parsed
deliver_from_bytes-to_bytes m rest v =
    let len = length m.payload in
    let e : as_u32 len ≡ len = omega arith in
    let id = be32 m.msg_id in
    let pre = m.preimage in
    rw (concat-snoc, e, from_bytes_lem)
      (ground (
        arith,
        length-concat (id ∷ pre ∷ be32 len ∷ m.payload ∷ rest ∷ []),
        length-be32 m.msg_id,
        length-be32 len,
        u32_piece [] m.msg_id (pre ∷ be32 len ∷ m.payload ∷ rest ∷ []) 0,
        cut_piece (id ∷ []) pre (be32 len ∷ m.payload ∷ rest ∷ []) 4 36,
        u32_piece (id ∷ pre ∷ []) len (m.payload ∷ rest ∷ []) 36,
        cut_piece (id ∷ pre ∷ be32 len ∷ []) m.payload (rest ∷ []) 40 (40 + len),
      ))

parsed-joins :
    (buf : Bytes)
    → AreBytes buf
    → 40 + u32_at buf 36 ≤ length buf
    → to_bytes (parsed buf) ++ drop (40 + u32_at buf 36) buf ≡ buf
unfolding to_bytes parsed
parsed-joins buf v h =
    let n = u32_at buf 36 in
    let e : as_u32 (length (cut buf 40 (40 + n))) ≡ n =
      omega (arith, length-cut buf 40 (40 + n) h, u32_at-lt buf 36 v) in
    rw
      (
        concat-snoc,
        e,
        be32-u32_at buf 0 4 v refl (omega arith),
        be32-u32_at buf 36 40 v refl (omega arith),
        append-nil,
        cut-drop buf 40 (40 + n) (omega arith),
        cut-drop buf 36 40 (omega arith),
        cut-drop buf 4 36 (omega arith),
        cut-drop buf 0 4 (omega arith),
      )
      refl

-- A delivery that `from_bytes` accepts is the start of the bytes that it was given.
pub deliver_from_bytes-IsPrefix :
    (buf : Bytes) (m : Deliver)
    → AreBytes buf
    → from_bytes buf ≡ ok m
    → (rest : Bytes) × (to_bytes m ++ rest ≡ buf)
deliver_from_bytes-IsPrefix buf m v h =
    (drop (40 + u32_at buf 36) buf, ground (arith, from_bytes_lem buf, parsed-joins buf v))
