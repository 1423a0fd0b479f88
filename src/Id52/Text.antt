-- ===== src/Id52/Text.antt =====
-- The texts of keys and signatures, fastn-id52/src/keys.rs.
use bhumi.Base.{
  ℕ, [], ◌∷◌, ◌≡◌, ◌≢◌, ◌⊎◌, inl, inr, refl, true, false, nat_eq, nat_eq_iff, length, arith, some,
  Option-cases, Bool-cases,
}
use bhumi.Proto.Buffer.{Bytes}
use bhumi.Node.Core.{good, Outcome-cases}
use bhumi.Id52.Outside.{
  Outside, Encoding, panics, fails, gives, IsEd25519, IsEncoding, IsHex, ParseId52Error,
}
use bhumi.Id52.PublicKey
use bhumi.Id52.PublicKey.{PublicKey}
use bhumi.Id52.SecretKey
use bhumi.Id52.SecretKey.{SecretKey, public_key, sign, to_ascii_uppercase}
use bhumi.Id52.Signature
use bhumi.Id52.Signature.{Signature, decode_mut}

decode_mut-encode :
    (e : Encoding) (b : Bytes) (size : ℕ)
    → IsEncoding e
    → length b ≡ size
    → decode_mut e (e.encode b) size ≡ gives b
unfolding decode_mut
decode_mut-encode e b size law h =
    let same : nat_eq (length b) size ≡ true = (nat_eq_iff (length b) size).1 h in
    rw (decode_mut, law.decode_len-encode b, same, law.decode-encode b) refl

public_key_round :
    (o : Outside) (k : PublicKey)
    → IsEncoding o.base32_dnssec
    → o.ed25519.is_key k.bytes ≡ true
    → length k.bytes ≡ 32
    → PublicKey.from_str o (PublicKey.to_string o k) ≡ gives k
unfolding PublicKey.from_str PublicKey.to_string PublicKey.from_bytes
public_key_round o k law is_key size =
    let same : nat_eq (length k.bytes) 32 ≡ true = (nat_eq_iff (length k.bytes) 32).1 size in
    rw (PublicKey.from_str, PublicKey.to_string, law.decode-encode k.bytes, same, is_key) refl

secret_key_round :
    (o : Outside) (k : SecretKey)
    → IsHex o.hexlower
    → length k.bytes ≡ 32
    → SecretKey.from_str o (SecretKey.to_string o k) ≡ gives k
unfolding SecretKey.from_str SecretKey.to_string SecretKey.from_decoded SecretKey.from_bytes
secret_key_round o k law size =
    let text = o.hexlower.encode k.bytes in
    let long : nat_eq (length text) 64 ≡ true =
      (nat_eq_iff (length text) 64).1 (omega (arith, law.length-encode k.bytes, size)) in
    rw (SecretKey.from_str, long, decode_mut-encode o.hexlower k.bytes 32 law.is_encoding size) refl

signature_round :
    (o : Outside) (s : Signature)
    → IsHex o.hexlower
    → length s.bytes ≡ 64
    → Signature.from_str o (Signature.to_string o s) ≡ gives s
unfolding Signature.from_str Signature.to_string Signature.from_decoded Signature.from_bytes
signature_round o s law size =
    let text = o.hexlower.encode s.bytes in
    let long : nat_eq (length text) 128 ≡ true =
      (nat_eq_iff (length text) 128).1 (omega (arith, law.length-encode s.bytes, size)) in
    rw (Signature.from_str, long, decode_mut-encode o.hexlower s.bytes 64 law.is_encoding size) refl

-- A secret key of 32 bytes, its public key and its signature of a message are read back from their
-- texts, and the signature that was read is right for the message under the public key that was read.
-- The encodings and ed25519 do what is documented of them.
pub from_str-to_string :
    (o : Outside) (k : SecretKey) (message : Bytes)
    → IsEncoding o.base32_dnssec
    → IsHex o.hexlower
    → IsEd25519 o.ed25519
    → length k.bytes ≡ 32
    → (SecretKey.from_str o (SecretKey.to_string o k) ≡ gives k)
      × (PublicKey.from_str o (SecretKey.id52 o k) ≡ gives (public_key o k))
      × (Signature.from_str o (Signature.to_string o (sign o message k)) ≡ gives (sign o message k))
      × (PublicKey.verify o message (sign o message k) (public_key o k) ≡ gives tt)
unfolding public_key sign SecretKey.id52 PublicKey.verify
from_str-to_string o k message base32 hex ed size = (
  secret_key_round o k hex size,
  public_key_round o (public_key o k) base32 (ed.public_is_key k.bytes size)
      (ed.public_size k.bytes size),
  signature_round o (sign o message k) hex (ed.signature_size k.bytes message size),
  rw (PublicKey.verify, ed.signature_right k.bytes message size) refl,
)

-- Whatever text is read as a public key is one of 32 bytes that ed25519 takes; reading never panics.
pub from_str-IsKey :
    (o : Outside) (s : Bytes)
    → ((k : PublicKey) × (PublicKey.from_str o s ≡ gives k)
        × (o.base32_dnssec.decode s ≡ good k.bytes)
        × (length k.bytes ≡ 32)
        × (o.ed25519.is_key k.bytes ≡ true))
      ⊎ ((e : ParseId52Error) × (PublicKey.from_str o s ≡ fails e) × (e.input ≡ s))
unfolding PublicKey.from_str PublicKey.from_bytes
from_str-IsKey o s = elim (Outcome-cases (o.base32_dnssec.decode s)) [
  | inr (e, h) ↦ rw (PublicKey.from_str, h) (inr (_, refl, refl))
  | inl (b, h) ↦ elim (Bool-cases (nat_eq (length b) 32)) [
    | inr f ↦ rw (PublicKey.from_str, h, f) (inr (_, refl, refl))
    | inl f ↦ elim (Bool-cases (o.ed25519.is_key b)) [
      | inl g ↦ inl (
        record { bytes = b },
        rw (PublicKey.from_str, h, f, g) refl,
        h,
        (nat_eq_iff (length b) 32).0 f,
        g,
      )
      | inr g ↦ rw (PublicKey.from_str, h, f, g) (inr (_, refl, refl))
    ]
  ]
]

length-to_ascii_uppercase : (s : Bytes) → length (to_ascii_uppercase s) ≡ length s
unfolding to_ascii_uppercase
length-to_ascii_uppercase [] = refl
length-to_ascii_uppercase (c ∷ s) = omega (arith, length-to_ascii_uppercase s)

-- A text that has not the 64 characters of the hexadecimal form, and whose length is not that of 32
-- bytes in base 32, does not give the error of `from_str` but a panic.
pub from_str-panics :
    (o : Outside) (s : Bytes)
    → length s ≢ 64
    → o.base32_nopad.decode_len (length s) ≢ some 32
    → SecretKey.from_str o s ≡ panics
unfolding SecretKey.from_str SecretKey.from_decoded decode_mut
from_str-panics o s short odd =
    let other : nat_eq (length s) 64 ≡ false = ground (arith, short) in
    let size = length-to_ascii_uppercase s in
    elim (Option-cases (o.base32_nopad.decode_len (length s))) [
      | inl e ↦ rw (SecretKey.from_str, other, decode_mut, size, e) refl
      | inr (n, e) ↦
          let wrong : nat_eq n 32 ≡ false = ground (arith, odd, e, nat_eq_iff n 32) in
          rw (SecretKey.from_str, other, decode_mut, size, e, wrong) refl
    ]
