-- ===== src/Proto/HandshakeInit.antt =====
-- `HandshakeInit`, bhumi-proto/src/lib.rs: the first message of whoever accepts an invite.
use bhumi.Base.{
  ℕ, ◌+◌, ◌^◌, ◌≤◌, ◌<◌, ◌≡◌, ◌≢◌, refl, [], ◌∷◌, ◌++◌, arith, ltb, nat_eq, if◌then◌else◌, length,
  get_or, drop, concat, Result, ok, err, panic, invalid_data, ◌>>=◌, concat-snoc, append-nil, true,
  not,
}
use bhumi.Proto.Buffer.{
  Bytes, be16, as_u16, index, slice, array, read_u16, cut, u16_at, index_ok, slice_ok, array_ok,
  read_u16_ok, cut_piece, u16_piece, byte_piece, tag-drop, length-concat, length-be16, length-cut,
  cut-drop, AreBytes, be16-u16_at, u16_at-lt,
}
use bhumi.Proto.Utf8.{is_utf8, from_utf8}

abbrev pub dev_handshake_init : ℕ
dev_handshake_init = 0x01

pub record HandshakeInit : Type 0 where
  pub sender_id52 : Bytes
  pub preimage_for_peer : Bytes
  pub relay_url : Bytes

unfoldable pub to_bytes : HandshakeInit → Bytes
to_bytes m = concat (
    (dev_handshake_init ∷ [])
    ∷ m.sender_id52
    ∷ m.preimage_for_peer
    ∷ be16 (as_u16 (length m.relay_url))
    ∷ m.relay_url
    ∷ [])

unfoldable pub from_bytes : Bytes → Result HandshakeInit
unfolding from_utf8
from_bytes buf =
    if ltb (length buf) (1 + 32 + 32 + 2) then err (invalid_data "HANDSHAKE_INIT too short") else do
      tag ← index buf 0
      if not (nat_eq tag dev_handshake_init) then err (invalid_data "not HANDSHAKE_INIT") else do
        sender_id52 ← array 32 buf 1 33
        preimage_for_peer ← array 32 buf 33 65
        url_len ← read_u16 buf 65
        if ltb (length buf) (67 + url_len)
            then err (invalid_data "HANDSHAKE_INIT url truncated")
            else do
              url ← slice buf 67 (67 + url_len)
              relay_url ← from_utf8 url
              ok (record {
                sender_id52 = sender_id52;
                preimage_for_peer = preimage_for_peer;
                relay_url = relay_url;
              })

-- The arrays have their sizes, the url is a string, and its length fits its field.
pub record IsValid (m : HandshakeInit) : Type 0 where
  pub id52_size : length m.sender_id52 ≡ 32
  pub preimage_size : length m.preimage_for_peer ≡ 32
  pub url_utf8 : is_utf8 m.relay_url ≡ true
  pub url_size : length m.relay_url < 2 ^ 16

parsed : Bytes → HandshakeInit
parsed buf = record {
  sender_id52 = cut buf 1 33;
  preimage_for_peer = cut buf 33 65;
  relay_url = cut buf 67 (67 + u16_at buf 65);
}

from_bytes_lem :
    (buf : Bytes)
    → from_bytes buf ≡ (
        if ltb (length buf) 67
        then err (invalid_data "HANDSHAKE_INIT too short")
        else if not (nat_eq (get_or buf 0 0) 1)
        then err (invalid_data "not HANDSHAKE_INIT")
        else if ltb (length buf) (67 + u16_at buf 65)
        then err (invalid_data "HANDSHAKE_INIT url truncated")
        else if is_utf8 (cut buf 67 (67 + u16_at buf 65))
        then ok (parsed buf)
        else err (invalid_data "invalid utf8 in relay_url"))
unfolding from_bytes parsed
from_bytes_lem buf = ground (
  arith,
  index_ok buf 0,
  array_ok 32 buf 1 33,
  array_ok 32 buf 33 65,
  read_u16_ok buf 65,
  slice_ok buf 67 (67 + u16_at buf 65),
)

pub from_bytes-ne-panic : (buf : Bytes) → from_bytes buf ≢ panic
from_bytes-ne-panic buf = rw (from_bytes_lem buf) (ground arith)

-- What `to_bytes` writes for a valid handshake, `from_bytes` reads back, whatever bytes follow it.
pub handshake_init_from_bytes-to_bytes :
    (m : HandshakeInit) (rest : Bytes) → IsValid m → from_bytes (to_bytes m ++ rest) ≡ ok m
unfolding to_bytes parsed
handshake_init_from_bytes-to_bytes m rest v =
    let len = length m.relay_url in
    let e : as_u16 len ≡ len = omega arith in
    let tag = dev_handshake_init ∷ [] in
    let id = m.sender_id52 in
    let pre = m.preimage_for_peer in
    let url = m.relay_url in
    rw (concat-snoc, e, from_bytes_lem)
      (ground (
        arith,
        length-concat (tag ∷ id ∷ pre ∷ be16 len ∷ url ∷ rest ∷ []),
        length-be16 len,
        byte_piece [] dev_handshake_init (id ∷ pre ∷ be16 len ∷ url ∷ rest ∷ []) 0,
        cut_piece (tag ∷ []) id (pre ∷ be16 len ∷ url ∷ rest ∷ []) 1 33,
        cut_piece (tag ∷ id ∷ []) pre (be16 len ∷ url ∷ rest ∷ []) 33 65,
        u16_piece (tag ∷ id ∷ pre ∷ []) len (url ∷ rest ∷ []) 65,
        cut_piece (tag ∷ id ∷ pre ∷ be16 len ∷ []) url (rest ∷ []) 67 (67 + len),
      ))

parsed-joins :
    (buf : Bytes)
    → AreBytes buf
    → get_or buf 0 0 ≡ 1
    → 67 + u16_at buf 65 ≤ length buf
    → to_bytes (parsed buf) ++ drop (67 + u16_at buf 65) buf ≡ buf
unfolding to_bytes parsed
parsed-joins buf v t h =
    let n = u16_at buf 65 in
    let e : as_u16 (length (cut buf 67 (67 + n))) ≡ n =
      omega (arith, length-cut buf 67 (67 + n) h, u16_at-lt buf 65 v) in
    rw
      (
        concat-snoc,
        e,
        be16-u16_at buf 65 67 v refl (omega arith),
        append-nil,
        cut-drop buf 67 (67 + n) (omega arith),
        cut-drop buf 65 67 (omega arith),
        cut-drop buf 33 65 (omega arith),
        cut-drop buf 1 33 (omega arith),
        tag-drop buf 1 t (omega arith),
      )
      refl

-- A handshake that `from_bytes` accepts is the start of the bytes that it was given.
pub handshake_init_from_bytes-IsPrefix :
    (buf : Bytes) (m : HandshakeInit)
    → AreBytes buf
    → from_bytes buf ≡ ok m
    → (rest : Bytes) × (to_bytes m ++ rest ≡ buf)
handshake_init_from_bytes-IsPrefix buf m v h =
    (drop (67 + u16_at buf 65) buf, ground (arith, from_bytes_lem buf, parsed-joins buf v))
