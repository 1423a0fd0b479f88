-- ===== src/Base/Map.antt =====
-- `HashMap` as an association list. The order of the list stands for the order of iteration, which
-- a program cannot rely on; an insertion under a key that is there replaces the value in place.
use mathlib.Core.Path.{◌≡◌, refl, subst₂}
use mathlib.Core.Logic.{inl, inr}
use mathlib.Core.Bool.{false}
use mathlib.Core.Option.{Option, none, some}
use mathlib.Core.List.{List, [], ◌∷◌}
use native.Mathlib.Omega.{arith}
use bhumi.Base.Tests.{if◌then◌else◌, Bool-cases}
use bhumi.Base.Equality.{Eq, ◌==◌}

some_eq {ℓ} : {A : Type ℓ} (x y : A) → some x ≡ some y → x ≡ y
some_eq x y h = cc

module _ {ℓ κ} {K : Type ℓ} {V : Type κ} ⦃e : Eq K⦄ where
  unfoldable pub lookup : K → List (K × V) → Option V
  lookup k [] = none
  lookup k ((j, v) ∷ m) = if j == k then some v else lookup k m

  unfoldable pub insert : K → V → List (K × V) → List (K × V)
  insert k v [] = (k, v) ∷ []
  insert k v ((j, w) ∷ m) = if j == k then (k, v) ∷ m else (j, w) ∷ insert k v m

  unfoldable pub remove : K → List (K × V) → List (K × V)
  remove k [] = []
  remove k ((j, w) ∷ m) = if j == k then remove k m else (j, w) ∷ remove k m

  -- What is found after an insertion.
  pub lookup-insert :
      (new key : K) (v : V) (m : List (K × V))
      → lookup key (insert new v m) ≡ (if new == key then some v else lookup key m)
  unfolding lookup insert
  lookup-insert new key v [] = refl
  lookup-insert new key v ((other, w) ∷ m) = ground (
    arith,
    lookup-insert new key v m,
    e.same_iff new key,
    e.same_iff other new,
    e.same_iff other key,
  )

  pub lookup-remove :
      (k j : K) (m : List (K × V)) → lookup j (remove k m) ≡ (if k == j then none else lookup j m)
  unfolding lookup remove
  lookup-remove k j [] = ground arith
  lookup-remove k j ((i, w) ∷ m) =
      ground (arith, e.same_iff k j, e.same_iff i k, e.same_iff i j, lookup-remove k j m)

  pub lookup-insert_self : (k : K) (v : V) (m : List (K × V)) → lookup k (insert k v m) ≡ some v
  lookup-insert_self k v m = rw (lookup-insert k k v m, (e.same_iff k k).1 refl)

  pub lookup-remove_self : (k : K) (m : List (K × V)) → lookup k (remove k m) ≡ none
  lookup-remove_self k m = rw (lookup-remove k k m, (e.same_iff k k).1 refl)

  -- No key stands twice.
  abbrev pub IsUnique : List (K × V) → Type κ
  IsUnique [] = Unit
  IsUnique ((k, v) ∷ m) = (lookup k m ≡ none) × IsUnique m

  insert-absent :
      (k j : K) (v : V) (m : List (K × V))
      → lookup j m ≡ none
      → ((k == j) ≡ false)
      → lookup j (insert k v m) ≡ none
  insert-absent k j v m a n = ground (arith, lookup-insert k j v m)

  pub insert-IsUnique : (k : K) (v : V) (m : List (K × V)) → IsUnique m → IsUnique (insert k v m)
  unfolding insert lookup
  insert-IsUnique k v [] u = (refl, tt)
  insert-IsUnique k v ((j, w) ∷ m) u =
      ground (
        arith,
        e.same_iff j k,
        e.same_iff k j,
        insert-IsUnique k v m u.1,
        insert-absent k j v m u.0,
      )

  pub remove-IsUnique : (k : K) (m : List (K × V)) → IsUnique m → IsUnique (remove k m)
  unfolding remove
  remove-IsUnique k [] u = tt
  remove-IsUnique k ((j, w) ∷ m) u = ground (arith, remove-IsUnique k m u.1, lookup-remove k j m)

  -- A property of every entry.
  abbrev pub Every {ι} : (K → V → Type ι) → List (K × V) → Type ι
  Every P [] = Unit
  Every P ((k, v) ∷ m) = P k v × Every P m

  pub insert-Every {ι} :
      (P : K → V → Type ι) (k : K) (v : V) (m : List (K × V))
      → P k v
      → Every P m
      → Every P (insert k v m)
  unfolding insert
  insert-Every P k v [] p a = (p, tt)
  insert-Every P k v ((j, w) ∷ m) p a = elim (Bool-cases (j == k)) [
    | inl h ↦ rw h (p, a.1)
    | inr h ↦ rw h (a.0, insert-Every P k v m p a.1)
  ]

  pub remove-Every {ι} :
      (P : K → V → Type ι) (k : K) (m : List (K × V)) → Every P m → Every P (remove k m)
  unfolding remove
  remove-Every P k [] a = tt
  remove-Every P k ((j, w) ∷ m) a = elim (Bool-cases (j == k)) [
    | inl h ↦ rw h (remove-Every P k m a.1)
    | inr h ↦ rw h (a.0, remove-Every P k m a.1)
  ]

  pub lookup-Every {ι} :
      (P : K → V → Type ι) (k : K) (v : V) (m : List (K × V))
      → Every P m
      → lookup k m ≡ some v
      → P k v
  unfolding lookup
  lookup-Every P k v [] a h = cc
  lookup-Every P k v ((j, w) ∷ m) a h = elim (Bool-cases (j == k)) [
    | inl q ↦ subst₂ P ((e.same_iff j k).0 q) (some_eq w v (rw q at h)) a.0
    | inr q ↦ lookup-Every P k v m a.1 (rw q at h)
  ]
