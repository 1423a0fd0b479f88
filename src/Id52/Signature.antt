-- ===== src/Id52/Signature.antt =====
-- `Signature`, fastn-id52/src/keys.rs, by its 64 bytes.
use bhumi.Base.{ℕ, ◌/◌, true, false, not, if◌then◌else◌, nat_eq, length, none, some}
use bhumi.Proto.Buffer.{Bytes}
use bhumi.Node.Core.{good, bad}
use bhumi.Id52.Outside.{
  Outside, Encoding, Checked, panics, fails, gives, map_err, InvalidSignatureBytesError,
}

pub record Signature : Type 0 where
  pub bytes : Bytes

unfoldable pub from_bytes : Bytes → Checked InvalidSignatureBytesError Signature
from_bytes bytes = gives (record { bytes = bytes })

-- Also `to_vec`, and the two `From`.
unfoldable pub to_bytes : Signature → Bytes
to_bytes s = s.bytes

unfoldable pub to_string : Outside → Signature → Bytes
to_string o s = o.hexlower.encode s.bytes

-- `decode_mut` of data-encoding into a buffer of `size` bytes: it panics unless a text of this length
-- decodes to that many bytes.
unfoldable pub decode_mut : Encoding → Bytes → ℕ → Checked Bytes Bytes
decode_mut e s size = elim (e.decode_len (length s)) [
  | none ↦ panics
  | some n ↦ elim (nat_eq n size) [
    | false ↦ panics
    | true ↦ elim (e.decode s) [ bad x ↦ fails x | good b ↦ gives b ]
  ]
]

abbrev bad_hex : Bytes → InvalidSignatureBytesError
bad_hex e = record { expected = 64; got = 0 }

unfoldable pub from_decoded :
    Checked InvalidSignatureBytesError Bytes → Checked InvalidSignatureBytesError Signature
unfolding from_bytes
from_decoded panics = panics
from_decoded (fails e) = fails e
from_decoded (gives b) = from_bytes b

unfoldable pub from_str : Outside → Bytes → Checked InvalidSignatureBytesError Signature
unfolding decode_mut from_decoded
from_str o s =
    if not (nat_eq (length s) 128)
    then fails (record { expected = 64; got = length s / 2 })
    else from_decoded (map_err bad_hex (decode_mut o.hexlower s 64))
