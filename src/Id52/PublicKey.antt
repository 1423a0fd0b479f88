-- ===== src/Id52/PublicKey.antt =====
-- `PublicKey`, fastn-id52/src/keys.rs: an ed25519 key, by its bytes.
use bhumi.Base.{◌++◌, not, if◌then◌else◌, nat_eq, length, ascii}
use bhumi.Proto.Buffer.{Bytes}
use bhumi.Node.Core.{good, bad}
use bhumi.Id52.Outside.{
  Outside, Checked, fails, gives, map_err, InvalidKeyBytesError, ParseId52Error,
  SignatureVerificationError,
}
use bhumi.Id52.Signature.{Signature}

pub record PublicKey : Type 0 where
  pub bytes : Bytes

unfoldable pub from_bytes : Outside → Bytes → Checked InvalidKeyBytesError PublicKey
from_bytes o bytes =
    if o.ed25519.is_key bytes
    then gives (record { bytes = bytes })
    else fails (record { expected = 32; got = 32 })

unfoldable pub to_bytes : PublicKey → Bytes
to_bytes k = k.bytes

unfoldable pub verify :
    Outside → Bytes → Signature → PublicKey → Checked SignatureVerificationError (Unit {0})
verify o message signature k =
    if o.ed25519.verify k.bytes message signature.bytes then gives tt else fails tt

-- `Display`, and the text that `Serialize` writes.
unfoldable pub to_string : Outside → PublicKey → Bytes
to_string o k = o.base32_dnssec.encode k.bytes

abbrev invalid_key : Bytes → InvalidKeyBytesError → ParseId52Error
invalid_key s e = record { input = s; reason = ascii "invalid public key bytes" }

-- `FromStr`, and what `Deserialize` does with its text.
unfoldable pub from_str : Outside → Bytes → Checked ParseId52Error PublicKey
unfolding from_bytes
from_str o s = elim (o.base32_dnssec.decode s) [
  | bad e ↦ fails (record { input = s; reason = ascii "invalid BASE32_DNSSEC encoding: " ++ e })
  | good bytes ↦
      if not (nat_eq (length bytes) 32)
      then fails (record {
        input = s;
        reason = ascii "expected 32 bytes after decoding, got " ++ o.decimal (length bytes);
      })
      else map_err (invalid_key s) (from_bytes o bytes)
]
