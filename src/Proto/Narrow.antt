-- ===== src/Proto/Narrow.antt =====
-- `Deliver::from_bytes` of bhumi-proto/src/lib.rs where a `usize` has 32 bits, as on the switch.
use bhumi.Base.{
  ℕ, ◌+◌, ◌*◌, ◌%◌, ◌^◌, ◌≤◌, ◌<◌, ◌≡◌, ◌↔◌, arith, ltb, length, err, panic, IoError, invalid_data,
  Bool-cases, ◌⊎◌, inl, inr,
}
use bhumi.Proto.Buffer.{Bytes, AreBytes, slice, array_ok, read_u32_ok, u32_at, u32_at-lt}
use bhumi.Proto.Deliver.{from_bytes, from_bytes_32, from_bytes_lem, from_bytes-ne-panic}

-- A delivery whose length field is so large that the end of its payload is no 32-bit number.
abbrev pub IsOversized : Bytes → Type 0
IsOversized buf = (40 ≤ length buf) × (2 ^ 32 ≤ 40 + u32_at buf 36)

slice_before : (buf : Bytes) (a b : ℕ) → b < a → slice buf a b ≡ panic
unfolding slice
slice_before buf a b h = ground arith

oversized-panics : (buf : Bytes) → AreBytes buf → IsOversized buf → from_bytes_32 buf ≡ panic
unfolding from_bytes_32
oversized-panics buf v (long, big) = ground (
  arith,
  read_u32_ok buf 0,
  array_ok 32 buf 4 36,
  read_u32_ok buf 36,
  u32_at-lt buf 36 v,
  slice_before buf 40 ((40 + u32_at buf 36) % 2 ^ 32),
)

fits-same :
    (buf : Bytes)
    → (40 ≤ length buf → 40 + u32_at buf 36 < 2 ^ 32)
    → from_bytes_32 buf ≡ from_bytes buf
unfolding from_bytes_32 from_bytes
fits-same buf h = ground (arith, read_u32_ok buf 0, array_ok 32 buf 4 36, read_u32_ok buf 36)

-- On bytes that fit a frame it does what the 64-bit code does, but that it panics on some on which
-- the other gives an error.
pub from_bytes_32-from_bytes :
    (buf : Bytes)
    → AreBytes buf
    → length buf ≤ 1024 * 1024
    → (from_bytes_32 buf ≡ from_bytes buf)
      ⊎ ((e : IoError) × (from_bytes_32 buf ≡ panic) × (from_bytes buf ≡ err e))
from_bytes_32-from_bytes buf v small = elim (Bool-cases (ltb (40 + u32_at buf 36) (2 ^ 32))) [
  | inl h ↦ inl (fits-same buf (λ _. ground arith))
  | inr h ↦ elim (Bool-cases (ltb (length buf) 40)) [
    | inl g ↦ inl (fits-same buf (λ long. ground arith))
    | inr g ↦ inr (
      invalid_data "DELIVER payload truncated",
      oversized-panics buf v (ground arith, ground arith),
      ground (arith, from_bytes_lem buf),
    )
  ]
]

pub panics-IsOversized : (buf : Bytes) → from_bytes_32 buf ≡ panic → IsOversized buf
unfolding from_bytes_32
panics-IsOversized buf h = elim (Bool-cases (ltb (length buf) 40)) [
  | inl g ↦ ground arith
  | inr g ↦ elim (Bool-cases (ltb (40 + u32_at buf 36) (2 ^ 32))) [
    | inl k ↦ absurd (from_bytes-ne-panic buf (rw (fits-same buf (λ long. ground arith)) at h))
    | inr k ↦ (ground arith, ground arith)
  ]
]

-- Where a `usize` has 32 bits, a delivery's decoder panics on exactly the oversized ones. On all
-- others it does what it does with 64 bits.
from_bytes_32-panics :
    (buf : Bytes)
    → AreBytes buf
    → (IsOversized buf ↔ (from_bytes_32 buf ≡ panic))
      × (¬ IsOversized buf → from_bytes_32 buf ≡ from_bytes buf)
from_bytes_32-panics buf v = (
  (oversized-panics buf v, panics-IsOversized buf),
  λ h. fits-same buf (λ long. ground (arith, h)),
)
