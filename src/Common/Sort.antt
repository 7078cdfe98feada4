-- ===== src/Common/Sort.antt =====
-- `ORDER BY`: a stable insertion sort.
use entra_shift.Common.Tests.{if◌then◌else◌, Bool-cases}
use Prim.Native.Nat.{suc, ◌+◌}
use mathlib.Core.Path.{ap}
use entra_shift.Common.Lists.{any, length}
use mathlib.Core.Path.{◌≡◌, refl}
use mathlib.Core.Logic.{inl, inr}
use mathlib.Core.Bool.{true, false}
use mathlib.Core.Bool.{Bool, ◌||◌}
use mathlib.Core.List.{List, [], ◌∷◌}
use native.Mathlib.Omega.{arith}

module _ {ℓ} {A : Type ℓ} (before : A → A → Bool) where
  -- Puts a row in front of the first that it comes before, or at the end.
  unfoldable pub insert_ordered : A → List A → List A
  insert_ordered x [] = x ∷ []
  insert_ordered x (y ∷ ys) = if before x y then x ∷ y ∷ ys else y ∷ insert_ordered x ys

  unfoldable pub insert_all : List A → List A → List A
  insert_all [] sorted = sorted
  insert_all (x ∷ xs) sorted = insert_all xs (insert_ordered x sorted)

  unfoldable pub order_by : List A → List A
  unfolding insert_ordered insert_all
  order_by xs = insert_all xs []

  any-insert_ordered :
      (p : A → Bool) (x : A) (ys : List A) → any p (insert_ordered x ys) ≡ (p x || any p ys)
  unfolding insert_ordered
  any-insert_ordered p x [] = refl
  any-insert_ordered p x (y ∷ ys) = elim (Bool-cases (before x y)) [
    | inl first ↦ rw first refl
    | inr behind ↦ rw behind (ground (arith, any-insert_ordered p x ys))
  ]

  any-insert_all :
      (p : A → Bool) (xs sorted : List A)
      → any p (insert_all xs sorted) ≡ (any p xs || any p sorted)
  unfolding insert_all
  any-insert_all p [] sorted = refl
  any-insert_all p (x ∷ xs) sorted =
      ground (arith, any-insert_all p xs (insert_ordered x sorted), any-insert_ordered p x sorted)

  pub any-order_by : (p : A → Bool) (xs : List A) → any p (order_by xs) ≡ any p xs
  unfolding order_by
  any-order_by p xs = ground (arith, any-insert_all p xs [])

  length-insert_ordered : (x : A) (ys : List A) → length (insert_ordered x ys) ≡ suc (length ys)
  unfolding insert_ordered
  length-insert_ordered x [] = refl
  length-insert_ordered x (y ∷ ys) = go (length-insert_ordered x ys) (before x y)
    where
      go :
          length (insert_ordered x ys) ≡ suc (length ys)
          → (c : Bool)
          → length (if c then x ∷ y ∷ ys else y ∷ insert_ordered x ys) ≡ suc (suc (length ys))
      go ih true = refl
      go ih false = ap suc ih

  length-insert_all :
      (xs sorted : List A) → length (insert_all xs sorted) ≡ length xs + length sorted
  unfolding insert_all
  length-insert_all [] sorted = omega arith
  length-insert_all (x ∷ xs) sorted =
      omega (arith, length-insert_all xs (insert_ordered x sorted), length-insert_ordered x sorted)

  pub length-order_by : (xs : List A) → length (order_by xs) ≡ length xs
  unfolding order_by
  length-order_by xs = omega (arith, length-insert_all xs [])
