-- ===== src/Crypto/Bytes.antt =====
-- Drawing random bytes: the bytes that `getRandomValues` will give are a list, and a computation
-- that wants more than there are has no result yet.
use mathlib.Core.Path.{subst}
use entra_shift.Common.{
  ℕ, ◌-◌, ◌%◌, ◌≡◌, refl, List, [], ◌∷◌, Option, none, some, ltb, if◌then◌else◌,
}

abbrev pub Draw : Type 0 → Type 0
Draw A = List ℕ → Option (A × List ℕ)

pub pure : {A : Type 0} → A → Draw A
pure a bytes = some (a, bytes)

pub of_option : {A : Type 0} → Option A → Draw A
of_option none bytes = none
of_option (some a) bytes = some (a, bytes)

abbrev continue : {A B : Type 0} → Option (A × List ℕ) → (A → Draw B) → Option (B × List ℕ)
continue none f = none
continue (some (a, bytes)) f = f a bytes

infixl 5 ◌>>=◌
unfoldable pub ◌>>=◌ : {A B : Type 0} → Draw A → (A → Draw B) → Draw B
unfolding pure of_option
◌>>=◌ m f bytes = continue (m bytes) f

-- The rejection sampling of `pick` and of the shuffle: the first byte below the largest multiple of
-- `n`, modulo `n`.
unfoldable pub byte_below : ℕ → Draw ℕ
byte_below n [] = none
byte_below n (v ∷ bytes) =
    let rest = byte_below n bytes in if ltb v (256 - 256 % n) then some (v % n, bytes) else rest

-- Whatever the bytes are, a result has the property.
pub record Yields {A : Type 0} (m : Draw A) (Q : A → Type 0) : Type 0 where
  pub result : (bytes : List ℕ) {a : A} {rest : List ℕ} → m bytes ≡ some (a, rest) → Q a

pub pure-Yields : {A : Type 0} (Q : A → Type 0) (a : A) → Q a → Yields (pure a) Q
unfolding pure
pure-Yields Q a h = record {
  result = λ bytes {a = b} {rest} e. let same : a ≡ b = cc in subst Q same h;
}

pub of_option-Yields :
    {A : Type 0} (Q : A → Type 0) (o : Option A)
    → ((a : A) → o ≡ some a → Q a)
    → Yields (of_option o) Q
unfolding of_option
of_option-Yields Q none h = record { result = λ bytes e. cc }
of_option-Yields Q (some a) h = record {
  result = λ bytes {a = b} {rest} e. let same : a ≡ b = cc in subst Q same (h a refl);
}

pub bind-Yields :
    {A B : Type 0} (P : A → Type 0) {Q : B → Type 0} {m : Draw A} {f : A → Draw B}
    → Yields m P
    → ((a : A) → P a → Yields (f a) Q)
    → Yields (m >>= f) Q
unfolding ◌>>=◌
bind-Yields {A} {B} P {Q} {m} {f} t k = record {
  result = λ bytes e. go (m bytes) (λ a rest h. t.result bytes h) e;
}
  where
    go :
        (o : Option (A × List ℕ))
        → ((a : A) (rest : List ℕ) → o ≡ some (a, rest) → P a)
        → {b : B} {rest : List ℕ} → continue o f ≡ some (b, rest)
        → Q b
    go none h e = cc
    go (some (a, bytes)) h e = (k a (h a bytes refl)).result bytes e
