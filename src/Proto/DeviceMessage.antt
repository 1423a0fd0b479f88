-- ===== src/Proto/DeviceMessage.antt =====
-- `DeviceMessage`, bhumi-proto/src/lib.rs: an application message between paired peers.
use bhumi.Base.{
  ℕ, ◌+◌, ◌^◌, ◌≤◌, ◌<◌, ◌≡◌, ◌≢◌, refl, [], ◌∷◌, ◌++◌, arith, ltb, nat_eq, if◌then◌else◌, length,
  get_or, drop, concat, Result, ok, err, panic, invalid_data, ◌>>=◌, concat-snoc, append-nil, true,
  not,
}
use bhumi.Proto.Buffer.{
  Bytes, IsByte, be16, be32, as_u16, as_u32, index, slice, read_u16, read_u32, cut, u16_at, u32_at,
  index_ok, slice_ok, read_u16_ok, read_u32_ok, cut_piece, u16_piece, u32_piece, byte_piece,
  byte-drop, tag-drop, length-concat, length-be16, length-be32, length-cut, cut-drop, AreBytes,
  be16-u16_at, be32-u32_at, u16_at-lt, u32_at-lt,
}
use bhumi.Proto.Utf8.{is_utf8, from_utf8}

abbrev pub dev_message : ℕ
dev_message = 0x10

abbrev pub content_text : ℕ
content_text = 0

abbrev pub content_binary : ℕ
content_binary = 1

pub record DeviceMessage : Type 0 where
  pub content_type : ℕ
  pub relay_url : Bytes
  pub content : Bytes

unfoldable pub text : Bytes → Bytes → DeviceMessage
text relay_url txt = record { content_type = content_text; relay_url = relay_url; content = txt }

unfoldable pub to_bytes : DeviceMessage → Bytes
to_bytes m = concat (
    (dev_message ∷ [])
    ∷ (m.content_type ∷ [])
    ∷ be16 (as_u16 (length m.relay_url))
    ∷ m.relay_url
    ∷ be32 (as_u32 (length m.content))
    ∷ m.content
    ∷ [])

unfoldable pub from_bytes : Bytes → Result DeviceMessage
unfolding from_utf8
from_bytes buf = if ltb (length buf) (1 + 1 + 2) then err (invalid_data "MESSAGE too short") else do
  tag ← index buf 0
  if not (nat_eq tag dev_message) then err (invalid_data "not MESSAGE") else do
    content_type ← index buf 1
    url_len ← read_u16 buf 2
    if ltb (length buf) (4 + url_len + 4) then err (invalid_data "MESSAGE url truncated") else do
      url ← slice buf 4 (4 + url_len)
      relay_url ← from_utf8 url
      let content_start = 4 + url_len
      content_len ← read_u32 buf content_start
      if ltb (length buf) (content_start + 4 + content_len)
          then err (invalid_data "MESSAGE content truncated")
          else do
            content ← slice buf (content_start + 4) (content_start + 4 + content_len)
            ok (record { content_type = content_type; relay_url = relay_url; content = content })

-- The type is a byte, the url is a string, and both lengths fit their fields.
pub record IsValid (m : DeviceMessage) : Type 0 where
  pub content_type_size : IsByte m.content_type
  pub url_utf8 : is_utf8 m.relay_url ≡ true
  pub url_size : length m.relay_url < 2 ^ 16
  pub content_size : length m.content < 2 ^ 32

-- Where the content's length stands, and where the content ends.
start : Bytes → ℕ
start buf = 4 + u16_at buf 2

end : Bytes → ℕ
end buf = start buf + 4 + u32_at buf (start buf)

parsed : Bytes → DeviceMessage
parsed buf = record {
  content_type = get_or buf 1 0;
  relay_url = cut buf 4 (start buf);
  content = cut buf (start buf + 4) (end buf);
}

from_bytes_lem :
    (buf : Bytes)
    → from_bytes buf ≡ (
        if ltb (length buf) 4
        then err (invalid_data "MESSAGE too short")
        else if not (nat_eq (get_or buf 0 0) 0x10)
        then err (invalid_data "not MESSAGE")
        else if ltb (length buf) (start buf + 4)
        then err (invalid_data "MESSAGE url truncated")
        else if not (is_utf8 (cut buf 4 (start buf)))
        then err (invalid_data "invalid utf8 in relay_url")
        else if ltb (length buf) (end buf)
        then err (invalid_data "MESSAGE content truncated")
        else ok (parsed buf))
unfolding from_bytes parsed start end
from_bytes_lem buf =
    let at = 4 + u16_at buf 2 in
    ground (
      arith,
      index_ok buf 0,
      index_ok buf 1,
      read_u16_ok buf 2,
      slice_ok buf 4 at,
      read_u32_ok buf at,
      slice_ok buf (at + 4) (at + 4 + u32_at buf at),
    )

pub from_bytes-ne-panic : (buf : Bytes) → from_bytes buf ≢ panic
from_bytes-ne-panic buf = rw (from_bytes_lem buf) (ground arith)

-- What `to_bytes` writes for a valid message, `from_bytes` reads back, whatever bytes follow it.
pub device_message_from_bytes-to_bytes :
    (m : DeviceMessage) (rest : Bytes) → IsValid m → from_bytes (to_bytes m ++ rest) ≡ ok m
unfolding to_bytes parsed start end
device_message_from_bytes-to_bytes m rest v =
    let n = length m.relay_url in
    let k = length m.content in
    let en : as_u16 n ≡ n = omega arith in
    let ek : as_u32 k ≡ k = omega arith in
    let tag = dev_message ∷ [] in
    let kind = m.content_type ∷ [] in
    let url = m.relay_url in
    let body = m.content in
    rw (concat-snoc, en, ek, from_bytes_lem)
      (ground (
        arith,
        length-concat (tag ∷ kind ∷ be16 n ∷ url ∷ be32 k ∷ body ∷ rest ∷ []),
        length-be16 n,
        length-be32 k,
        byte_piece [] dev_message (kind ∷ be16 n ∷ url ∷ be32 k ∷ body ∷ rest ∷ []) 0,
        byte_piece (tag ∷ []) m.content_type (be16 n ∷ url ∷ be32 k ∷ body ∷ rest ∷ []) 1,
        u16_piece (tag ∷ kind ∷ []) n (url ∷ be32 k ∷ body ∷ rest ∷ []) 2,
        cut_piece (tag ∷ kind ∷ be16 n ∷ []) url (be32 k ∷ body ∷ rest ∷ []) 4 (4 + n),
        u32_piece (tag ∷ kind ∷ be16 n ∷ url ∷ []) k (body ∷ rest ∷ []) (4 + n),
        cut_piece (tag ∷ kind ∷ be16 n ∷ url ∷ be32 k ∷ []) body (rest ∷ []) (4 + n + 4)
            (4 + n + 4 + k),
      ))

parsed-joins :
    (buf : Bytes)
    → AreBytes buf
    → get_or buf 0 0 ≡ 0x10
    → end buf ≤ length buf
    → to_bytes (parsed buf) ++ drop (end buf) buf ≡ buf
unfolding to_bytes parsed start end
parsed-joins buf v t h =
    let at = 4 + u16_at buf 2 in
    let fin = at + 4 + u32_at buf at in
    let en : as_u16 (length (cut buf 4 at)) ≡ u16_at buf 2 =
      omega (arith, length-cut buf 4 at (omega arith), u16_at-lt buf 2 v) in
    let ek : as_u32 (length (cut buf (at + 4) fin)) ≡ u32_at buf at =
      omega (arith, length-cut buf (at + 4) fin h, u32_at-lt buf at v) in
    rw
      (
        concat-snoc,
        en,
        ek,
        be16-u16_at buf 2 4 v refl (omega arith),
        be32-u32_at buf at (at + 4) v refl (omega arith),
        append-nil,
        cut-drop buf (at + 4) fin (omega arith),
        cut-drop buf at (at + 4) (omega arith),
        cut-drop buf 4 at (omega arith),
        cut-drop buf 2 4 (omega arith),
        byte-drop buf 1 2 refl (omega arith),
        tag-drop buf 0x10 t (omega arith),
      )
      refl

-- A message that `from_bytes` accepts is the start of the bytes that it was given.
pub device_message_from_bytes-IsPrefix :
    (buf : Bytes) (m : DeviceMessage)
    → AreBytes buf
    → from_bytes buf ≡ ok m
    → (rest : Bytes) × (to_bytes m ++ rest ≡ buf)
device_message_from_bytes-IsPrefix buf m v h =
    (drop (end buf) buf, ground (arith, from_bytes_lem buf, parsed-joins buf v))
