-- ===== src/Id52/Outside.antt =====
-- What fastn-id52/src uses from outside, ed25519-dalek and data-encoding, and the errors of errors.rs.
-- A `String` is its bytes.
use bhumi.Base.{ℕ, ◌*◌, ◌≡◌, length, Bool, true, Option, some}
use bhumi.Proto.Buffer.{Bytes}
use bhumi.Node.Core.{Outcome, good}

-- `VerifyingKey::from_bytes` takes the bytes that are a key; `verify` tells if a signature is right.
pub record Ed25519 : Type 0 where
  pub is_key : Bytes → Bool
  pub verifying_key : Bytes → Bytes
  pub sign : Bytes → Bytes → Bytes
  pub verify : Bytes → Bytes → Bytes → Bool

-- An encoding of data-encoding; what cannot be decoded gives the error as it is printed.
-- `decode_len` is the size of what a text of that length decodes to, if there are such texts.
pub record Encoding : Type 0 where
  pub encode : Bytes → Bytes
  pub decode : Bytes → Outcome Bytes
  pub decode_len : ℕ → Option ℕ

pub record Outside : Type 0 where
  pub ed25519 : Ed25519
  pub base32_dnssec : Encoding
  pub base32_nopad : Encoding
  pub hexlower : Encoding
  pub decimal : ℕ → Bytes

-- What is documented of ed25519: the public key of a secret key of 32 bytes is a key, of 32 bytes; a
-- signature has 64 bytes, and it is right.
pub record IsEd25519 (e : Ed25519) : Type 0 where
  pub public_is_key : (k : Bytes) → length k ≡ 32 → e.is_key (e.verifying_key k) ≡ true
  pub public_size : (k : Bytes) → length k ≡ 32 → length (e.verifying_key k) ≡ 32
  pub signature_size : (k m : Bytes) → length k ≡ 32 → length (e.sign k m) ≡ 64
  pub signature_right :
      (k m : Bytes) → length k ≡ 32 → e.verify (e.verifying_key k) m (e.sign k m) ≡ true

-- What is documented of an encoding: what was encoded is decoded again, and the size fits.
pub record IsEncoding (e : Encoding) : Type 0 where
  pub decode-encode : (b : Bytes) → e.decode (e.encode b) ≡ good b
  pub decode_len-encode : (b : Bytes) → e.decode_len (length (e.encode b)) ≡ some (length b)

-- A byte is two digits of HEXLOWER.
pub record IsHex (e : Encoding) : Type 0 where
  pub is_encoding : IsEncoding e
  pub length-encode : (b : Bytes) → length (e.encode b) ≡ length b * 2

pub record ParseId52Error : Type 0 where
  pub input : Bytes
  pub reason : Bytes

pub record InvalidKeyBytesError : Type 0 where
  pub expected : ℕ
  pub got : ℕ

pub record ParseSecretKeyError : Type 0 where
  pub reason : Bytes

pub record InvalidSignatureBytesError : Type 0 where
  pub expected : ℕ
  pub got : ℕ

abbrev pub SignatureVerificationError : Type 0
SignatureVerificationError = Unit {0}

-- `Result<A, E>`, with a panic as a third outcome.
pub data Checked (E A : Type 0) : Type 0 where
  panics : Checked E A
  fails : E → Checked E A
  gives : A → Checked E A

abbrev pub map_err : {E F A : Type 0} → (E → F) → Checked E A → Checked F A
map_err f panics = panics
map_err f (fails e) = fails (f e)
map_err f (gives a) = gives a
