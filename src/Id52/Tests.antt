-- ===== src/Id52/Tests.antt =====
-- The properties of fastn-id52/src/keys.rs at small encodings.
use bhumi.Base.{◌*◌, ◌/◌, ◌≡◌, ◌⊎◌, refl, ap, [], ◌∷◌, true, some, length, arith, ascii}
use bhumi.Proto.Buffer.{Bytes}
use bhumi.Proto.Tests.{fill}
use bhumi.Node.Core.{good}
use bhumi.Id52.Outside.{
  Outside, Ed25519, IsEd25519, Encoding, IsEncoding, IsHex, gives, fails, panics, ParseId52Error,
}
use bhumi.Id52.PublicKey
use bhumi.Id52.PublicKey.{PublicKey}
use bhumi.Id52.SecretKey
use bhumi.Id52.SecretKey.{SecretKey, public_key, sign}
use bhumi.Id52.Signature
use bhumi.Id52.Text.{from_str-to_string, from_str-IsKey, from_str-panics}

-- Each byte twice.
abbrev twice : Bytes → Bytes
twice [] = []
twice (x ∷ xs) = x ∷ x ∷ twice xs

abbrev halve : Bytes → Bytes
halve [] = []
halve (x ∷ []) = []
halve (x ∷ y ∷ xs) = x ∷ halve xs

halve-twice : (b : Bytes) → halve (twice b) ≡ b
halve-twice [] = refl
halve-twice (x ∷ xs) = ap (◌∷◌ x) (halve-twice xs)

length-twice : (b : Bytes) → length (twice b) ≡ length b * 2
length-twice [] = omega arith
length-twice (x ∷ xs) = omega (arith, length-twice xs)

abbrev hex : Encoding
hex = record { encode = twice; decode = λ s. good (halve s); decode_len = λ n. some (n / 2) }

hex-IsHex : IsHex hex
hex-IsHex = record {
  is_encoding = record {
    decode-encode = λ b. ap good (halve-twice b);
    decode_len-encode = λ b. ap some (omega (arith, length-twice b));
  };
  length-encode = length-twice;
}

abbrev plain : Encoding
plain = record { encode = λ b. b; decode = λ s. good s; decode_len = λ n. some n }

plain-IsEncoding : IsEncoding plain
plain-IsEncoding = record { decode-encode = λ b. refl; decode_len-encode = λ b. refl }

abbrev ed : Ed25519
ed = record {
  is_key = λ b. true;
  verifying_key = λ k. k;
  sign = λ k m. fill 1 64;
  verify = λ k m s. true;
}

ed-IsEd25519 : IsEd25519 ed
ed-IsEd25519 = record {
  public_is_key = λ k h. refl;
  public_size = λ k h. h;
  signature_size = λ k m h. refl;
  signature_right = λ k m h. refl;
}

abbrev outside : Outside
outside = record {
  ed25519 = ed;
  base32_dnssec = plain;
  base32_nopad = plain;
  hexlower = hex;
  decimal = λ n. [];
}

abbrev key : SecretKey
key = record { bytes = fill 7 32 }

from_str-to_string_example :
    (SecretKey.from_str outside (SecretKey.to_string outside key) ≡ gives key)
    × (PublicKey.from_str outside (SecretKey.id52 outside key) ≡ gives (public_key outside key))
    × (Signature.from_str outside (Signature.to_string outside (sign outside (1 ∷ []) key))
        ≡ gives (sign outside (1 ∷ []) key))
    × (PublicKey.verify outside (1 ∷ []) (sign outside (1 ∷ []) key) (public_key outside key)
        ≡ gives tt)
from_str-to_string_example =
    from_str-to_string outside key (1 ∷ []) plain-IsEncoding hex-IsHex ed-IsEd25519 refl

from_str-IsKey_example :
    ((k : PublicKey) × (PublicKey.from_str outside (ascii "abc") ≡ gives k)
      × (good (ascii "abc") ≡ good k.bytes)
      × (length k.bytes ≡ 32)
      × (true ≡ true))
    ⊎ ((e : ParseId52Error) × (PublicKey.from_str outside (ascii "abc") ≡ fails e)
        × (e.input ≡ ascii "abc"))
from_str-IsKey_example = from_str-IsKey outside (ascii "abc")

from_str-panics_example : SecretKey.from_str outside (ascii "abc") ≡ panics
from_str-panics_example = from_str-panics outside (ascii "abc") (λ e. cc) (λ e. cc)
