-- ===== src/Common/Lists.antt =====
-- Lists measured by native numbers, predicates on all members, and the table operations that the
-- SQL statements of the program come down to: first match, update and delete by a test.
use Prim.Native.Nat.{ℕ, zero, suc, ◌+◌, ◌≤◌}
use mathlib.Core.Path.{◌≡◌, refl, ap}
use mathlib.Core.Bool.{Bool, true, false, not, ◌&&◌, ◌||◌}
use mathlib.Core.List.{List, [], ◌∷◌, ◌++◌, map}
use mathlib.Core.Option.{Option, none, some}
use mathlib.Core.Logic.{◌↔◌, inl, inr}
use native.Mathlib.Omega.{arith}
use entra_shift.Common.Tests.{Bool-cases}

module _ {ℓ} {A : Type ℓ} where
  abbrev pub length : List A → ℕ
  length [] = 0
  length (x ∷ xs) = suc (length xs)

  abbrev pub take : ℕ → List A → List A
  take zero xs = []
  take (suc n) [] = []
  take (suc n) (x ∷ xs) = x ∷ take n xs

  abbrev pub get_elem? : List A → ℕ → Option A
  get_elem? [] i = none
  get_elem? (x ∷ xs) zero = some x
  get_elem? (x ∷ xs) (suc i) = get_elem? xs i

  pub length-append : (xs ys : List A) → length (xs ++ ys) ≡ length xs + length ys
  length-append [] ys = omega arith
  length-append (x ∷ xs) ys = omega (arith, length-append xs ys)

  pub length-take-le : (n : ℕ) (xs : List A) → length (take n xs) ≤ n
  length-take-le zero xs = omega arith
  length-take-le (suc n) [] = omega arith
  length-take-le (suc n) (x ∷ xs) = omega (arith, length-take-le n xs)

  abbrev pub any : (A → Bool) → List A → Bool
  any p [] = false
  any p (x ∷ xs) = p x || any p xs

  -- `SELECT … WHERE p` read with `first()`.
  abbrev pub find : (A → Bool) → List A → Option A
  find p [] = none
  find p (x ∷ xs) = elim (p x) [ true ↦ some x | false ↦ find p xs ]

  -- `SELECT … WHERE p`, and `Array.prototype.filter`.
  abbrev pub select : (A → Bool) → List A → List A
  select p [] = []
  select p (x ∷ xs) = elim (p x) [ true ↦ x ∷ select p xs | false ↦ select p xs ]

  -- `DELETE … WHERE p`.
  abbrev pub delete : (A → Bool) → List A → List A
  delete p = select (λ x. not (p x))

  -- `UPDATE … SET f WHERE p`, at one row and on a table.
  abbrev pub patch : (A → Bool) → (A → A) → A → A
  patch p f x = elim (p x) [ true ↦ f x | false ↦ x ]

  abbrev pub update : (A → Bool) → (A → A) → List A → List A
  update p f [] = []
  update p f (x ∷ xs) = patch p f x ∷ update p f xs

  pub length-update : (p : A → Bool) (f : A → A) (xs : List A) → length (update p f xs) ≡ length xs
  length-update p f [] = refl
  length-update p f (x ∷ xs) = ap suc (length-update p f xs)

module _ {ℓ κ} {A : Type ℓ} (P : A → Type κ) where
  abbrev pub All : List A → Type κ
  All [] = Unit
  All (x ∷ xs) = P x × All xs

  pub All-append : (xs ys : List A) → All xs → All ys → All (xs ++ ys)
  All-append [] ys h k = k
  All-append (x ∷ xs) ys (p, h) k = (p, All-append xs ys h k)

pub All-imp {ℓ κ μ} :
    {A : Type ℓ} (P : A → Type κ) (Q : A → Type μ) (xs : List A)
    → ((x : A) → P x → Q x)
    → All P xs
    → All Q xs
All-imp P Q [] f h = tt
All-imp P Q (x ∷ xs) f (p, h) = (f x p, All-imp P Q xs f h)

-- What a test that does not look at the changed columns sees of an update.
module _ {ℓ} {A : Type ℓ} (p q : A → Bool) (f : A → A) (same : (x : A) → q (f x) ≡ q x) where
  patch_same : (x : A) → q (patch p f x) ≡ q x
  patch_same x = elim (Bool-cases (p x)) [ inl e ↦ rw (e, patch) (same x) | inr e ↦ rw (e, patch) ]

  pub any-update : (xs : List A) → any q (update p f xs) ≡ any q xs
  any-update [] = refl
  any-update (x ∷ xs) = rw (patch_same x, any-update xs)

  abbrev pub patched : Option A → Option A
  patched none = none
  patched (some x) = some (patch p f x)

  pub find-update : (xs : List A) → find q (update p f xs) ≡ patched (find q xs)
  find-update [] = refl
  find-update (x ∷ xs) = elim (Bool-cases (q x)) [
    | inl here ↦ rw (patch_same x, here, find)
    | inr later ↦ rw (patch_same x, later, find) (find-update xs)
  ]

module _ {ℓ} {A : Type ℓ} where
  pub find_sound : (p : A → Bool) (xs : List A) {x : A} → find p xs ≡ some x → p x ≡ true
  find_sound p [] e = cc
  find_sound p (y ∷ xs) e = elim (Bool-cases (p y)) [
    | inl here ↦ ground (arith)
    | inr later ↦ find_sound p xs (rw (later, find) at e)
  ]

  pub find-none_iff : (p : A → Bool) (xs : List A) → (find p xs ≡ none) ↔ (any p xs ≡ false)
  find-none_iff p [] = ground arith
  find-none_iff p (x ∷ xs) = ground (arith, find-none_iff p xs)

  pub any_of_find :
      (p q : A → Bool) (xs : List A) {x : A} → find q xs ≡ some x → p x ≡ true → any p xs ≡ true
  any_of_find p q [] e h = cc
  any_of_find p q (y ∷ xs) e h = elim (Bool-cases (q y)) [
    | inl here ↦ ground arith
    | inr later ↦ ground (arith, any_of_find p q xs (rw (later, find) at e) h)
  ]

  pub find-delete : (p : A → Bool) (xs : List A) → find p (delete p xs) ≡ none
  find-delete p [] = refl
  find-delete p (x ∷ xs) = elim (Bool-cases (p x)) [
    | inl gone ↦ rw (gone, select) (find-delete p xs)
    | inr stays ↦ rw (stays, select, stays, find) (find-delete p xs)
  ]

  pub any-select : (p q : A → Bool) (xs : List A) → any p (select q xs) ≡ any (λ x. q x && p x) xs
  any-select p q [] = refl
  any-select p q (x ∷ xs) = elim (Bool-cases (q x)) [
    | inl here ↦ rw (here, select, any-select p q xs) refl
    | inr gone ↦ rw (gone, select, any-select p q xs) refl
  ]

pub any-map {ℓ κ} :
    {A : Type ℓ} {B : Type κ} (p : B → Bool) (f : A → B) (xs : List A)
    → any p (map f xs) ≡ any (λ x. p (f x)) xs
any-map p f [] = refl
any-map p f (x ∷ xs) = rw (any-map p f xs) refl
