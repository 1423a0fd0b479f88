-- ===== src/Base/Fallible.antt =====
-- `std::io::Result` with the panics of slicing, indexing and `unwrap` as a third outcome.
use mathlib.Core.Path.{◌≡◌, refl}
use mathlib.Core.Logic.{◌≢◌, ◌⊎◌, inl, inr}
use Prim.Native.String.{String}

-- The kinds of `std::io::Error` that the code makes itself, with its message.
pub data IoError : Type 0 where
  invalid_data : String → IoError
  permission_denied : String → IoError
  unexpected_eof : IoError

pub data Result {κ} (V : Type κ) : Type κ where
  panic : Result V
  err : IoError → Result V
  ok : V → Result V

-- What `?` does: the first failure is the outcome.
infixl 5 ◌>>=◌
abbrev pub ◌>>=◌ {κ μ} : {V : Type κ} {W : Type μ} → Result V → (V → Result W) → Result W
panic >>= k = panic
err x >>= k = err x
ok v >>= k = k v

-- Inversion of a successful bind.
pub >>=-eq-ok {κ μ} :
    {V : Type κ} {W : Type μ} (r : Result V) (k : V → Result W) {w : W}
    → (r >>= k) ≡ ok w
    → (v : V) × (r ≡ ok v) × (k v ≡ ok w)
>>=-eq-ok panic k q = cc
>>=-eq-ok (err x) k q = cc
>>=-eq-ok (ok v) k q = (v, refl, q)

-- A bind panics only where one of its parts does.
pub >>=-ne-panic {ℓ κ} :
    {A : Type ℓ} {B : Type κ} (m : Result A) (f : A → Result B)
    → m ≢ panic
    → ((a : A) → m ≡ ok a → f a ≢ panic)
    → (m >>= f) ≢ panic
>>=-ne-panic (ok a) f h k = k a refl
>>=-ne-panic (err e) f h k = λ p. cc
>>=-ne-panic panic f h k = absurd (h refl)

pub Result-cases {ℓ} :
    {A : Type ℓ} (r : Result A)
    → ((a : A) × (r ≡ ok a)) ⊎ ((e : IoError) × (r ≡ err e)) ⊎ (r ≡ panic)
Result-cases (ok a) = inl (a, refl)
Result-cases (err e) = inr (inl (e, refl))
Result-cases panic = inr (inr refl)
