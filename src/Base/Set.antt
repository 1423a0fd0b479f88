-- ===== src/Base/Set.antt =====
-- `HashSet` as a list of its members.
use mathlib.Core.Path.{◌≡◌, refl}
use mathlib.Core.Bool.{Bool, true, false, ◌&&◌, ◌||◌, not}
use mathlib.Core.List.{List, [], ◌∷◌, ◌++◌}
use native.Mathlib.Omega.{arith}
use bhumi.Base.Tests.{if◌then◌else◌}
use bhumi.Base.Equality.{Eq, ◌==◌}

module _ {ℓ} {A : Type ℓ} ⦃e : Eq A⦄ where
  unfoldable pub contains : A → List A → Bool
  contains a [] = false
  contains a (x ∷ xs) = x == a || contains a xs

  unfoldable pub insert : A → List A → List A
  unfolding contains
  insert a xs = if contains a xs then xs else a ∷ xs

  unfoldable pub remove : A → List A → List A
  remove a [] = []
  remove a (x ∷ xs) = if x == a then remove a xs else x ∷ remove a xs

  -- `for x in xs { set.insert(x) }`.
  unfoldable pub extend : List A → List A → List A
  unfolding insert
  extend [] s = s
  extend (x ∷ xs) s = extend xs (insert x s)

  -- `xs.into_iter().collect()`.
  unfoldable pub collect : List A → List A
  unfolding extend
  collect xs = extend xs []

  pub contains-insert :
      (a b : A) (xs : List A) → contains b (insert a xs) ≡ (a == b || contains b xs)
  unfolding contains insert
  contains-insert a b [] = ground arith
  contains-insert a b (x ∷ xs) =
      ground (arith, e.same_iff a b, e.same_iff x a, e.same_iff x b, contains-insert a b xs)

  pub contains-remove :
      (a b : A) (xs : List A) → contains b (remove a xs) ≡ (not (a == b) && contains b xs)
  unfolding contains remove
  contains-remove a b [] = ground arith
  contains-remove a b (x ∷ xs) =
      ground (arith, e.same_iff a b, e.same_iff x a, e.same_iff x b, contains-remove a b xs)

  pub contains-extend :
      (b : A) (xs s : List A) → contains b (extend xs s) ≡ (contains b xs || contains b s)
  unfolding contains extend
  contains-extend b [] s = refl
  contains-extend b (x ∷ xs) s =
      ground (arith, contains-extend b xs (insert x s), contains-insert x b s)

  pub contains-append :
      (b : A) (xs ys : List A) → contains b (xs ++ ys) ≡ (contains b xs || contains b ys)
  unfolding contains
  contains-append b [] ys = refl
  contains-append b (x ∷ xs) ys = ground (arith, contains-append b xs ys)

  -- A member that was put at the end.
  pub contains-last : (a : A) (xs : List A) → contains a (xs ++ a ∷ []) ≡ true
  unfolding contains
  contains-last a [] = rw ((e.same_iff a a).1 refl)
  contains-last a (x ∷ xs) = ground (arith, contains-last a xs)
