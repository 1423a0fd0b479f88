-- ===== src/Id52.antt =====
-- Keys and signatures, fastn-id52/src.
pub mod Outside
pub mod Signature
pub mod PublicKey
pub mod SecretKey
pub mod Text
pub mod Tests
