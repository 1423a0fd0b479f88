-- ===== src/Proto/SendResult.antt =====
-- `SendResult` and its status codes, bhumi-proto/src/lib.rs: the relay's answer to a sender.
use bhumi.Base.{
  ℕ, ◌+◌, ◌^◌, ◌≤◌, ◌<◌, ◌≡◌, ◌≢◌, refl, [], ◌∷◌, ◌++◌, arith, ltb, if◌then◌else◌, length, get_or,
  drop, concat, Result, ok, err, panic, invalid_data, ◌>>=◌, concat-snoc, append-nil,
}
use bhumi.Proto.Buffer.{
  Bytes, IsByte, be32, as_u32, index, slice, read_u32, cut, u32_at, index_ok, slice_ok, read_u32_ok,
  cut_piece, u32_piece, byte_piece, byte-drop, length-concat, length-be32, length-cut, cut-drop,
  AreBytes, be32-u32_at, u32_at-lt,
}

abbrev pub send_ok : ℕ
send_ok = 0

abbrev pub send_err_not_connected : ℕ
send_err_not_connected = 1

abbrev pub send_err_invalid_preimage : ℕ
send_err_invalid_preimage = 2

abbrev pub send_err_timeout : ℕ
send_err_timeout = 3

abbrev pub send_err_disconnected : ℕ
send_err_disconnected = 4

pub record SendResult : Type 0 where
  pub status : ℕ
  pub payload : Bytes

unfoldable pub success : Bytes → SendResult
success payload = record { status = send_ok; payload = payload }

unfoldable pub error : ℕ → SendResult
error status = record { status = status; payload = [] }

unfoldable pub to_bytes : SendResult → Bytes
to_bytes m = concat ((m.status ∷ []) ∷ be32 (as_u32 (length m.payload)) ∷ m.payload ∷ [])

unfoldable pub from_bytes : Bytes → Result SendResult
from_bytes buf = if ltb (length buf) 5 then err (invalid_data "SEND_RESULT too short") else do
  status ← index buf 0
  payload_len ← read_u32 buf 1
  if ltb (length buf) (5 + payload_len)
      then err (invalid_data "SEND_RESULT payload truncated")
      else do
        payload ← slice buf 5 (5 + payload_len)
        ok (record { status = status; payload = payload })

-- The status is a byte, and the payload's length fits its field.
pub record IsValid (m : SendResult) : Type 0 where
  pub status_size : IsByte m.status
  pub payload_size : length m.payload < 2 ^ 32

parsed : Bytes → SendResult
parsed buf = record { status = get_or buf 0 0; payload = cut buf 5 (5 + u32_at buf 1) }

from_bytes_lem :
    (buf : Bytes)
    → from_bytes buf ≡ (
        if ltb (length buf) 5
        then err (invalid_data "SEND_RESULT too short")
        else if ltb (length buf) (5 + u32_at buf 1)
        then err (invalid_data "SEND_RESULT payload truncated")
        else ok (parsed buf))
unfolding from_bytes parsed
from_bytes_lem buf =
    ground (arith, index_ok buf 0, read_u32_ok buf 1, slice_ok buf 5 (5 + u32_at buf 1))

pub from_bytes-ne-panic : (buf : Bytes) → from_bytes buf ≢ panic
from_bytes-ne-panic buf = rw (from_bytes_lem buf) (ground arith)

-- What `to_bytes` writes for a valid result, `from_bytes` reads back, whatever bytes follow it.
pub send_result_from_bytes-to_bytes :
    (m : SendResult) (rest : Bytes) → IsValid m → from_bytes (to_bytes m ++ rest) ≡ ok m
unfolding to_bytes parsed
send_result_from_bytes-to_bytes m rest v =
    let len = length m.payload in
    let e : as_u32 len ≡ len = omega arith in
    let status = m.status ∷ [] in
    rw (concat-snoc, e, from_bytes_lem)
      (ground (
        arith,
        length-concat (status ∷ be32 len ∷ m.payload ∷ rest ∷ []),
        length-be32 len,
        byte_piece [] m.status (be32 len ∷ m.payload ∷ rest ∷ []) 0,
        u32_piece (status ∷ []) len (m.payload ∷ rest ∷ []) 1,
        cut_piece (status ∷ be32 len ∷ []) m.payload (rest ∷ []) 5 (5 + len),
      ))

parsed-joins :
    (buf : Bytes)
    → AreBytes buf
    → 5 + u32_at buf 1 ≤ length buf
    → to_bytes (parsed buf) ++ drop (5 + u32_at buf 1) buf ≡ buf
unfolding to_bytes parsed
parsed-joins buf v h =
    let n = u32_at buf 1 in
    let e : as_u32 (length (cut buf 5 (5 + n))) ≡ n =
      omega (arith, length-cut buf 5 (5 + n) h, u32_at-lt buf 1 v) in
    rw
      (
        concat-snoc,
        e,
        be32-u32_at buf 1 5 v refl (omega arith),
        append-nil,
        cut-drop buf 5 (5 + n) (omega arith),
        cut-drop buf 1 5 (omega arith),
        byte-drop buf 0 1 refl (omega arith),
      )
      refl

-- A result that `from_bytes` accepts is the start of the bytes that it was given.
pub send_result_from_bytes-IsPrefix :
    (buf : Bytes) (m : SendResult)
    → AreBytes buf
    → from_bytes buf ≡ ok m
    → (rest : Bytes) × (to_bytes m ++ rest ≡ buf)
send_result_from_bytes-IsPrefix buf m v h =
    (drop (5 + u32_at buf 1) buf, ground (arith, from_bytes_lem buf, parsed-joins buf v))
