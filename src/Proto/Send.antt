-- ===== src/Proto/Send.antt =====
-- `Send`, bhumi-proto/src/lib.rs: a message for a recipient.
use bhumi.Base.{
  ◌+◌, ◌^◌, ◌≤◌, ◌<◌, ◌≡◌, ◌≢◌, refl, [], ◌∷◌, ◌++◌, arith, ltb, if◌then◌else◌, length, drop,
  concat, Result, ok, err, panic, invalid_data, ◌>>=◌, concat-snoc, append-nil,
}
use bhumi.Proto.Buffer.{
  Bytes, be32, as_u32, slice, array, read_u32, cut, u32_at, slice_ok, array_ok, read_u32_ok,
  cut_piece, u32_piece, length-concat, length-be32, length-cut, AreBytes, be32-u32_at, u32_at-lt,
  cut-drop,
}

pub record Send : Type 0 where
  pub to_id52 : Bytes
  pub preimage : Bytes
  pub payload : Bytes

unfoldable pub to_bytes : Send → Bytes
to_bytes m = concat (m.to_id52 ∷ m.preimage ∷ be32 (as_u32 (length m.payload)) ∷ m.payload ∷ [])

unfoldable pub from_bytes : Bytes → Result Send
from_bytes buf = if ltb (length buf) (32 + 32 + 4) then err (invalid_data "SEND too short") else do
  to_id52 ← array 32 buf 0 32
  preimage ← array 32 buf 32 64
  payload_len ← read_u32 buf 64
  if ltb (length buf) (68 + payload_len) then err (invalid_data "SEND payload truncated") else do
    payload ← slice buf 68 (68 + payload_len)
    ok (record { to_id52 = to_id52; preimage = preimage; payload = payload })

-- The arrays have their sizes, and the payload's length fits its field.
pub record IsValid (m : Send) : Type 0 where
  pub id52_size : length m.to_id52 ≡ 32
  pub preimage_size : length m.preimage ≡ 32
  pub payload_size : length m.payload < 2 ^ 32

parsed : Bytes → Send
parsed buf = record {
  to_id52 = cut buf 0 32;
  preimage = cut buf 32 64;
  payload = cut buf 68 (68 + u32_at buf 64);
}

from_bytes_lem :
    (buf : Bytes)
    → from_bytes buf ≡ (
        if ltb (length buf) 68
        then err (invalid_data "SEND too short")
        else if ltb (length buf) (68 + u32_at buf 64)
        then err (invalid_data "SEND payload truncated")
        else ok (parsed buf))
unfolding from_bytes parsed
from_bytes_lem buf = ground (
  arith,
  array_ok 32 buf 0 32,
  array_ok 32 buf 32 64,
  read_u32_ok buf 64,
  slice_ok buf 68 (68 + u32_at buf 64),
)

pub from_bytes-ne-panic : (buf : Bytes) → from_bytes buf ≢ panic
from_bytes-ne-panic buf = rw (from_bytes_lem buf) (ground arith)

-- What `to_bytes` writes for a valid message, `from_bytes` reads back, whatever bytes follow it.
pub send_from_bytes-to_bytes :
    (m : Send) (rest : Bytes) → IsValid m → from_bytes (to_bytes m ++ rest) ≡ ok m
unfolding to_bytes parsed
send_from_bytes-to_bytes m rest v =
    let len = length m.payload in
    let id = m.to_id52 in
    let pre = m.preimage in
    let e : as_u32 len ≡ len = omega arith in
    let ps = m.to_id52 ∷ m.preimage ∷ be32 len ∷ m.payload ∷ rest ∷ [] in
    rw (concat-snoc, e, from_bytes_lem)
      (ground (
        arith,
        length-concat ps,
        length-be32 len,
        cut_piece [] id (pre ∷ be32 len ∷ m.payload ∷ rest ∷ []) 0 32,
        cut_piece (id ∷ []) pre (be32 len ∷ m.payload ∷ rest ∷ []) 32 64,
        u32_piece (id ∷ pre ∷ []) len (m.payload ∷ rest ∷ []) 64,
        cut_piece (id ∷ pre ∷ be32 len ∷ []) m.payload (rest ∷ []) 68 (68 + len),
      ))

parsed-joins :
    (buf : Bytes)
    → AreBytes buf
    → 68 + u32_at buf 64 ≤ length buf
    → to_bytes (parsed buf) ++ drop (68 + u32_at buf 64) buf ≡ buf
unfolding to_bytes parsed
parsed-joins buf v h =
    let n = u32_at buf 64 in
    let e : as_u32 (length (cut buf 68 (68 + n))) ≡ n =
      omega (arith, length-cut buf 68 (68 + n) h, u32_at-lt buf 64 v) in
    rw (concat-snoc, e, be32-u32_at buf 64 68 v refl (omega arith))
      (rw (
        append-nil,
        cut-drop buf 68 (68 + n) (omega arith),
        cut-drop buf 64 68 (omega arith),
        cut-drop buf 32 64 (omega arith),
        cut-drop buf 0 32 (omega arith),
      ))

-- A message that `from_bytes` accepts is the start of the bytes that it was given.
pub send_from_bytes-IsPrefix :
    (buf : Bytes) (m : Send)
    → AreBytes buf
    → from_bytes buf ≡ ok m
    → (rest : Bytes) × (to_bytes m ++ rest ≡ buf)
send_from_bytes-IsPrefix buf m v h =
    (drop (68 + u32_at buf 64) buf, ground (arith, from_bytes_lem buf, parsed-joins buf v))
