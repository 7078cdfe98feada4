-- ===== src/Crypto/Classes.antt =====
-- What the passwords of `generateTempPassword` hold (worker/src/lib/crypto.ts).
pub mod Plain
use entra_shift.Common.{
  ℕ, zero, suc, ◌+◌, ◌-◌, ◌≤◌, ◌≡◌, refl, ◌∙◌, Bool, true, false, ◌++◌, ◌||◌, List, [], ◌∷◌, some,
  Text, arith, length, get_elem?, any, ◌==◌, Option-cases, inl, inr,
}
use entra_shift.Crypto.{
  upper, lower, digit, symbol, all, pick, fill, set_at, swap, shuffle, at_least_8,
  generate_temp_password,
}
use entra_shift.Crypto.Bytes.{byte_below, Yields, pure-Yields, of_option-Yields, bind-Yields}

-- Membership in a class, and the number of units of a text in it.
abbrev pub is_in : Text → ℕ → Bool
is_in set c = any (λ x. x == c) set

abbrev one : Bool → ℕ
one true = 1
one false = 0

abbrev pub count : Text → Text → ℕ
count set [] = 0
count set (c ∷ s) = one (is_in set c) + count set s

-- Replacing a unit, and swapping two, leave the length, and the second the counts.
length-set_at : (i a : ℕ) (s : Text) → length (set_at i a s) ≡ length s
unfolding set_at
length-set_at i a [] = refl
length-set_at zero a (c ∷ s) = refl
length-set_at (suc i) a (c ∷ s) = omega (arith, length-set_at i a s)

count-set_at :
    (set : Text) (i a b : ℕ) (s : Text)
    → get_elem? s i ≡ some b
    → count set (set_at i a s) + one (is_in set b) ≡ count set s + one (is_in set a)
unfolding set_at
count-set_at set i a b [] e = cc
count-set_at set zero a b (c ∷ s) e = let same : c ≡ b = cc in rw same (omega arith)
count-set_at set (suc i) a b (c ∷ s) e = omega (arith, count-set_at set i a b s e)

get_elem?-set_at :
    (i j b c : ℕ) (s : Text)
    → get_elem? s j ≡ some b
    → get_elem? s i ≡ some c
    → get_elem? (set_at i b s) j ≡ some b
unfolding set_at
get_elem?-set_at i j b c [] e f = cc
get_elem?-set_at zero zero b c (d ∷ s) e f = refl
get_elem?-set_at zero (suc j) b c (d ∷ s) e f = e
get_elem?-set_at (suc i) zero b c (d ∷ s) e f = e
get_elem?-set_at (suc i) (suc j) b c (d ∷ s) e f = get_elem?-set_at i j b c s e f

length-swap : (i j : ℕ) (s : Text) → length (swap i j s) ≡ length s
unfolding swap
length-swap i j s = elim (Option-cases (get_elem? s i)) [
  | inl out ↦ rw (out, swap) refl
  | inr (a, at_i) ↦ elim (Option-cases (get_elem? s j)) [
    | inl out ↦ rw (at_i, out, swap) refl
    | inr (b, at_j) ↦ rw (at_i, at_j, swap) (length-set_at j a (set_at i b s) ∙ length-set_at i b s)
  ]
]

count-swap : (set : Text) (i j : ℕ) (s : Text) → count set (swap i j s) ≡ count set s
unfolding swap
count-swap set i j s = elim (Option-cases (get_elem? s i)) [
  | inl out ↦ rw (out, swap) refl
  | inr (a, at_i) ↦ elim (Option-cases (get_elem? s j)) [
    | inl out ↦ rw (at_i, out, swap) refl
    | inr (b, at_j) ↦
        let first = count-set_at set i b a s at_i in
        let second = count-set_at set j a b (set_at i b s) (get_elem?-set_at i j b a s at_j at_i) in
        rw (at_i, at_j, swap) (omega (arith, first, second))
  ]
]

get_elem?-is_in : (set : Text) (i : ℕ) (a : ℕ) → get_elem? set i ≡ some a → is_in set a ≡ true
get_elem?-is_in [] i a e = cc
get_elem?-is_in (c ∷ set) zero a e = let same : c ≡ a = cc in ground arith
get_elem?-is_in (c ∷ set) (suc i) a e = ground (arith, get_elem?-is_in set i a e)

any_below : (n : ℕ) → Yields (byte_below n) (λ _. Unit {0})
any_below n = record { result = λ bytes e. tt }

pick-is_in : (set : Text) → Yields (pick set) (λ c. is_in set c ≡ true)
unfolding pick
pick-is_in set =
    bind-Yields (λ _. Unit) (any_below (length set))
      (λ i _. of_option-Yields _ (get_elem? set i) (λ c e. get_elem?-is_in set i c e))

-- As many units as asked for, all of them of some class.
record IsFilled (n : ℕ) (s : Text) : Type 0 where
  long : length s ≡ n
  within : count all s ≡ n

fill-IsFilled : (n : ℕ) → Yields (fill n) (IsFilled n)
unfolding fill
fill-IsFilled zero = pure-Yields _ [] (record { long = refl; within = refl })
fill-IsFilled (suc n) =
    bind-Yields (λ c. is_in all c ≡ true) (pick-is_in all)
      (λ c known. bind-Yields (IsFilled n) (fill-IsFilled n) (λ s h.
        pure-Yields _ (c ∷ s)
          (record { long = omega (arith, h.long); within = rw known (omega (arith, h.within)) })))

-- The same length and the same number of units in every class.
record IsShuffled (s t : Text) : Type 0 where
  same_length : length t ≡ length s
  same_count : (set : Text) → count set t ≡ count set s

shuffle-IsShuffled : (i : ℕ) (s : Text) → Yields (shuffle i s) (IsShuffled s)
unfolding shuffle
shuffle-IsShuffled zero s =
    pure-Yields _ s (record { same_length = refl; same_count = λ set. refl })
shuffle-IsShuffled (suc i) s =
    bind-Yields (λ _. Unit) (any_below (i + 2))
      (λ j _.
        let rest = shuffle-IsShuffled i (swap (i + 1) j s) in
        record {
          result = λ bytes e.
              let h = rest.result bytes e in
              record {
                same_length = h.same_length ∙ length-swap (i + 1) j s;
                same_count = λ set. h.same_count set ∙ count-swap set (i + 1) j s;
              };
        })

-- The length asked for, or 8 if that is less, and a unit of each class.
pub record IsStrong (n : ℕ) (password : Text) : Type 0 where
  pub long : length password ≡ at_least_8 n
  pub has_upper : 1 ≤ count upper password
  pub has_lower : 1 ≤ count lower password
  pub has_digit : 1 ≤ count digit password
  pub has_symbol : 1 ≤ count symbol password
  pub within : count all password ≡ length password

at_least_8-le : (n : ℕ) → 8 ≤ at_least_8 n
at_least_8-le n = ground arith

is_in-append : (a b : Text) (c : ℕ) → is_in (a ++ b) c ≡ (is_in a c || is_in b c)
is_in-append [] b c = refl
is_in-append (x ∷ a) b c = ground (arith, is_in-append a b c)

-- A unit of one class is one of all.
is_in-all :
    (c : ℕ)
    → (is_in upper c || is_in lower c || is_in digit c || is_in symbol c) ≡ true
    → is_in all c ≡ true
is_in-all c h = ground (
  arith,
  is_in-append (upper ++ lower ++ digit) symbol c,
  is_in-append (upper ++ lower) digit c,
  is_in-append upper lower c,
)

shuffled-IsStrong :
    (n u l d s : ℕ) (rest t : Text)
    → is_in upper u ≡ true
    → is_in lower l ≡ true
    → is_in digit d ≡ true
    → is_in symbol s ≡ true
    → IsFilled (at_least_8 n - 4) rest
    → IsShuffled (u ∷ l ∷ d ∷ s ∷ rest) t
    → IsStrong n t
shuffled-IsStrong n u l d s rest t hu hl hd hs hr h = record {
  long = let least = at_least_8-le n in omega (arith, h.same_length, hr.long);
  has_upper = rw (h.same_count upper, hu) (omega arith);
  has_lower = rw (h.same_count lower, hl) (omega arith);
  has_digit = rw (h.same_count digit, hd) (omega arith);
  has_symbol = rw (h.same_count symbol, hs) (omega arith);
  within =
      let iu = is_in-all u (ground arith) in
      let il = is_in-all l (ground arith) in
      let id = is_in-all d (ground arith) in
      let is = is_in-all s (ground arith) in
      rw (h.same_count all, iu, il, id, is) (omega (arith, h.same_length, hr.long, hr.within));
}

-- Whatever bytes are drawn, a password that is produced has the length that was asked for, or 8 if
-- that is less, holds a capital, a small letter, a digit and a symbol, and nothing of another class.
pub generate_temp_password-IsStrong :
    (n : ℕ) (bytes : List ℕ) (password : Text) (rest : List ℕ)
    → generate_temp_password n bytes ≡ some (password, rest)
    → IsStrong n password
unfolding generate_temp_password
generate_temp_password-IsStrong n bytes password rest e = strong.result bytes e
  where
    strong : Yields (generate_temp_password n) (IsStrong n)
    strong = bind-Yields _ (pick-is_in upper) (λ u hu. bind-Yields _ (pick-is_in lower) (λ l hl.
        bind-Yields _ (pick-is_in digit) (λ d hd. bind-Yields _ (pick-is_in symbol) (λ s hs.
          bind-Yields _ (fill-IsFilled (at_least_8 n - 4)) (λ more hr.
            let last = shuffle-IsShuffled (at_least_8 n - 1) (u ∷ l ∷ d ∷ s ∷ more) in
            record {
              result = λ bytes e.
                  shuffled-IsStrong n u l d s more _ hu hl hd hs hr (last.result bytes e);
            })))))
