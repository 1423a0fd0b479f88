-- ===== src/Id52/SecretKey.antt =====
-- `SecretKey`, fastn-id52/src/keys.rs, by its 32 bytes.
use bhumi.Base.{◌-◌, ◌++◌, [], ◌∷◌, ◌&&◌, if◌then◌else◌, nat_eq, leb, length, ascii}
use bhumi.Proto.Buffer.{Bytes}
use bhumi.Id52.Outside.{Outside, Checked, panics, fails, gives, ParseSecretKeyError}
use bhumi.Id52.PublicKey
use bhumi.Id52.PublicKey.{PublicKey}
use bhumi.Id52.Signature.{Signature, decode_mut}

pub record SecretKey : Type 0 where
  pub bytes : Bytes

-- `fresh` is what the random generator of the operating system returns.
unfoldable pub generate : Bytes → SecretKey
generate fresh = record { bytes = fresh }

unfoldable pub from_bytes : Bytes → SecretKey
from_bytes bytes = record { bytes = bytes }

unfoldable pub to_bytes : SecretKey → Bytes
to_bytes k = k.bytes

unfoldable pub public_key : Outside → SecretKey → PublicKey
public_key o k = record { bytes = o.ed25519.verifying_key k.bytes }

unfoldable pub id52 : Outside → SecretKey → Bytes
unfolding public_key
id52 o k = PublicKey.to_string o (public_key o k)

unfoldable pub sign : Outside → Bytes → SecretKey → Signature
sign o message k = record { bytes = o.ed25519.sign k.bytes message }

unfoldable pub to_string : Outside → SecretKey → Bytes
to_string o k = o.hexlower.encode k.bytes

unfoldable pub to_ascii_uppercase : Bytes → Bytes
to_ascii_uppercase [] = []
to_ascii_uppercase (c ∷ s) = (if leb 97 c && leb c 122 then c - 32 else c) ∷ to_ascii_uppercase s

unfoldable pub from_decoded : Bytes → Checked Bytes Bytes → Checked ParseSecretKeyError SecretKey
unfolding from_bytes
from_decoded what panics = panics
from_decoded what (fails e) = fails (record { reason = what ++ e })
from_decoded what (gives b) = gives (from_bytes b)

unfoldable pub from_str : Outside → Bytes → Checked ParseSecretKeyError SecretKey
unfolding from_decoded to_ascii_uppercase
from_str o s =
    if nat_eq (length s) 64
    then from_decoded (ascii "invalid hex encoding: ") (decode_mut o.hexlower s 32)
    else from_decoded (ascii "invalid base32 encoding: ")
        (decode_mut o.base32_nopad (to_ascii_uppercase s) 32)
