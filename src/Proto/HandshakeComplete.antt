-- ===== src/Proto/HandshakeComplete.antt =====
-- `HandshakeComplete`, bhumi-proto/src/lib.rs: the answer to a handshake.
use bhumi.Base.{
  ℕ, ◌+◌, ◌^◌, ◌≤◌, ◌<◌, ◌≡◌, ◌≢◌, refl, [], ◌∷◌, ◌++◌, arith, ltb, nat_eq, if◌then◌else◌, length,
  get_or, drop, concat, Result, ok, err, panic, invalid_data, ◌>>=◌, concat-snoc, append-nil, true,
  not,
}
use bhumi.Proto.Buffer.{
  Bytes, IsByte, be16, as_u16, index, slice, array, read_u16, cut, u16_at, index_ok, slice_ok,
  array_ok, read_u16_ok, cut_piece, u16_piece, byte_piece, byte-drop, tag-drop, length-concat,
  length-be16, length-cut, cut-drop, AreBytes, be16-u16_at, u16_at-lt,
}
use bhumi.Proto.Utf8.{is_utf8, from_utf8}

abbrev pub dev_handshake_complete : ℕ
dev_handshake_complete = 0x02

abbrev pub handshake_accepted : ℕ
handshake_accepted = 0

abbrev pub handshake_rejected : ℕ
handshake_rejected = 1

pub record HandshakeComplete : Type 0 where
  pub status : ℕ
  pub preimage_for_peer : Bytes
  pub relay_url : Bytes

unfoldable pub to_bytes : HandshakeComplete → Bytes
to_bytes m = concat (
    (dev_handshake_complete ∷ [])
    ∷ (m.status ∷ [])
    ∷ m.preimage_for_peer
    ∷ be16 (as_u16 (length m.relay_url))
    ∷ m.relay_url
    ∷ [])

unfoldable pub from_bytes : Bytes → Result HandshakeComplete
unfolding from_utf8
from_bytes buf =
    if ltb (length buf) (1 + 1 + 32 + 2)
    then err (invalid_data "HANDSHAKE_COMPLETE too short")
    else do
      tag ← index buf 0
      if not (nat_eq tag dev_handshake_complete)
          then err (invalid_data "not HANDSHAKE_COMPLETE")
          else do
            status ← index buf 1
            preimage_for_peer ← array 32 buf 2 34
            url_len ← read_u16 buf 34
            if ltb (length buf) (36 + url_len)
                then err (invalid_data "HANDSHAKE_COMPLETE url truncated")
                else do
                  url ← slice buf 36 (36 + url_len)
                  relay_url ← from_utf8 url
                  ok (record {
                    status = status;
                    preimage_for_peer = preimage_for_peer;
                    relay_url = relay_url;
                  })

-- The status is a byte, the array has its size, the url is a string, and its length fits its field.
pub record IsValid (m : HandshakeComplete) : Type 0 where
  pub status_size : IsByte m.status
  pub preimage_size : length m.preimage_for_peer ≡ 32
  pub url_utf8 : is_utf8 m.relay_url ≡ true
  pub url_size : length m.relay_url < 2 ^ 16

parsed : Bytes → HandshakeComplete
parsed buf = record {
  status = get_or buf 1 0;
  preimage_for_peer = cut buf 2 34;
  relay_url = cut buf 36 (36 + u16_at buf 34);
}

from_bytes_lem :
    (buf : Bytes)
    → from_bytes buf ≡ (
        if ltb (length buf) 36
        then err (invalid_data "HANDSHAKE_COMPLETE too short")
        else if not (nat_eq (get_or buf 0 0) 2)
        then err (invalid_data "not HANDSHAKE_COMPLETE")
        else if ltb (length buf) (36 + u16_at buf 34)
        then err (invalid_data "HANDSHAKE_COMPLETE url truncated")
        else if is_utf8 (cut buf 36 (36 + u16_at buf 34))
        then ok (parsed buf)
        else err (invalid_data "invalid utf8 in relay_url"))
unfolding from_bytes parsed
from_bytes_lem buf = ground (
  arith,
  index_ok buf 0,
  index_ok buf 1,
  array_ok 32 buf 2 34,
  read_u16_ok buf 34,
  slice_ok buf 36 (36 + u16_at buf 34),
)

pub from_bytes-ne-panic : (buf : Bytes) → from_bytes buf ≢ panic
from_bytes-ne-panic buf = rw (from_bytes_lem buf) (ground arith)

-- What `to_bytes` writes for a valid answer, `from_bytes` reads back, whatever bytes follow it.
pub handshake_complete_from_bytes-to_bytes :
    (m : HandshakeComplete) (rest : Bytes) → IsValid m → from_bytes (to_bytes m ++ rest) ≡ ok m
unfolding to_bytes parsed
handshake_complete_from_bytes-to_bytes m rest v =
    let len = length m.relay_url in
    let e : as_u16 len ≡ len = omega arith in
    let tag = dev_handshake_complete ∷ [] in
    let status = m.status ∷ [] in
    let pre = m.preimage_for_peer in
    let url = m.relay_url in
    rw (concat-snoc, e, from_bytes_lem)
      (ground (
        arith,
        length-concat (tag ∷ status ∷ pre ∷ be16 len ∷ url ∷ rest ∷ []),
        length-be16 len,
        byte_piece [] dev_handshake_complete (status ∷ pre ∷ be16 len ∷ url ∷ rest ∷ []) 0,
        byte_piece (tag ∷ []) m.status (pre ∷ be16 len ∷ url ∷ rest ∷ []) 1,
        cut_piece (tag ∷ status ∷ []) pre (be16 len ∷ url ∷ rest ∷ []) 2 34,
        u16_piece (tag ∷ status ∷ pre ∷ []) len (url ∷ rest ∷ []) 34,
        cut_piece (tag ∷ status ∷ pre ∷ be16 len ∷ []) url (rest ∷ []) 36 (36 + len),
      ))

parsed-joins :
    (buf : Bytes)
    → AreBytes buf
    → get_or buf 0 0 ≡ 2
    → 36 + u16_at buf 34 ≤ length buf
    → to_bytes (parsed buf) ++ drop (36 + u16_at buf 34) buf ≡ buf
unfolding to_bytes parsed
parsed-joins buf v t h =
    let n = u16_at buf 34 in
    let e : as_u16 (length (cut buf 36 (36 + n))) ≡ n =
      omega (arith, length-cut buf 36 (36 + n) h, u16_at-lt buf 34 v) in
    rw
      (
        concat-snoc,
        e,
        be16-u16_at buf 34 36 v refl (omega arith),
        append-nil,
        cut-drop buf 36 (36 + n) (omega arith),
        cut-drop buf 34 36 (omega arith),
        cut-drop buf 2 34 (omega arith),
        byte-drop buf 1 2 refl (omega arith),
        tag-drop buf 2 t (omega arith),
      )
      refl

-- An answer that `from_bytes` accepts is the start of the bytes that it was given.
pub handshake_complete_from_bytes-IsPrefix :
    (buf : Bytes) (m : HandshakeComplete)
    → AreBytes buf
    → from_bytes buf ≡ ok m
    → (rest : Bytes) × (to_bytes m ++ rest ≡ buf)
handshake_complete_from_bytes-IsPrefix buf m v h =
    (drop (36 + u16_at buf 34) buf, ground (arith, from_bytes_lem buf, parsed-joins buf v))
