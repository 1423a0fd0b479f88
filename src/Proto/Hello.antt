-- ===== src/Proto/Hello.antt =====
-- `Hello`, bhumi-proto/src/lib.rs: the relay's greeting, with the nonce to sign.
use bhumi.Base.{
  ℕ, ◌^◌, ◌≤◌, ◌<◌, ◌≡◌, ◌≢◌, refl, [], ◌∷◌, ◌++◌, arith, ltb, if◌then◌else◌, length, get_or, drop,
  concat, Result, ok, err, panic, invalid_data, ◌>>=◌, concat-snoc, append-nil,
}
use bhumi.Proto.Buffer.{
  Bytes, IsByte, be32, index, read_u32, u32_at, index_ok, read_u32_ok, u32_piece, byte_piece,
  byte-drop, length-concat, length-be32, cut-drop, AreBytes, be32-u32_at,
}

pub record Hello : Type 0 where
  pub version : ℕ
  pub nonce : ℕ
  pub max_payload_size : ℕ

unfoldable pub new : ℕ → ℕ → Hello
new nonce max_payload_size = record {
  version = 1;
  nonce = nonce;
  max_payload_size = max_payload_size;
}

unfoldable pub to_bytes : Hello → Bytes
to_bytes m = concat ((m.version ∷ []) ∷ be32 m.nonce ∷ be32 m.max_payload_size ∷ [])

unfoldable pub from_bytes : Bytes → Result Hello
from_bytes buf = if ltb (length buf) 9 then err (invalid_data "HELLO too short") else do
  version ← index buf 0
  nonce ← read_u32 buf 1
  max_payload_size ← read_u32 buf 5
  ok (record { version = version; nonce = nonce; max_payload_size = max_payload_size })

-- The numbers fit their types.
pub record IsValid (m : Hello) : Type 0 where
  pub version_size : IsByte m.version
  pub nonce_size : m.nonce < 2 ^ 32
  pub max_payload_size_size : m.max_payload_size < 2 ^ 32

parsed : Bytes → Hello
parsed buf = record {
  version = get_or buf 0 0;
  nonce = u32_at buf 1;
  max_payload_size = u32_at buf 5;
}

from_bytes_lem :
    (buf : Bytes)
    → from_bytes buf
      ≡ (if ltb (length buf) 9 then err (invalid_data "HELLO too short") else ok (parsed buf))
unfolding from_bytes parsed
from_bytes_lem buf = ground (arith, index_ok buf 0, read_u32_ok buf 1, read_u32_ok buf 5)

pub from_bytes-ne-panic : (buf : Bytes) → from_bytes buf ≢ panic
from_bytes-ne-panic buf = rw (from_bytes_lem buf) (ground arith)

-- What `to_bytes` writes for a greeting whose numbers fit their types, `from_bytes` reads back,
-- whatever bytes follow it.
pub hello_from_bytes-to_bytes :
    (m : Hello) (rest : Bytes) → IsValid m → from_bytes (to_bytes m ++ rest) ≡ ok m
unfolding to_bytes parsed
hello_from_bytes-to_bytes m rest v =
    let version = m.version ∷ [] in
    let nonce = be32 m.nonce in
    let size = be32 m.max_payload_size in
    rw (concat-snoc, from_bytes_lem)
      (ground (
        arith,
        length-concat (version ∷ nonce ∷ size ∷ rest ∷ []),
        length-be32 m.nonce,
        length-be32 m.max_payload_size,
        byte_piece [] m.version (nonce ∷ size ∷ rest ∷ []) 0,
        u32_piece (version ∷ []) m.nonce (size ∷ rest ∷ []) 1,
        u32_piece (version ∷ nonce ∷ []) m.max_payload_size (rest ∷ []) 5,
      ))

parsed-joins :
    (buf : Bytes) → AreBytes buf → 9 ≤ length buf → to_bytes (parsed buf) ++ drop 9 buf ≡ buf
unfolding to_bytes parsed
parsed-joins buf v h =
    rw
      (
        concat-snoc,
        be32-u32_at buf 1 5 v refl (omega arith),
        be32-u32_at buf 5 9 v refl (omega arith),
        append-nil,
        cut-drop buf 5 9 (omega arith),
        cut-drop buf 1 5 (omega arith),
        byte-drop buf 0 1 refl (omega arith),
      )
      refl

-- A greeting that `from_bytes` accepts is the start of the bytes that it was given.
pub hello_from_bytes-IsPrefix :
    (buf : Bytes) (m : Hello)
    → AreBytes buf
    → from_bytes buf ≡ ok m
    → (rest : Bytes) × (to_bytes m ++ rest ≡ buf)
hello_from_bytes-IsPrefix buf m v h =
    (drop 9 buf, ground (arith, from_bytes_lem buf, parsed-joins buf v))
