-- ===== src/Numbers.antt =====
-- `Number(text)` on the numerals that the settings hold. A number of the source that may be a
-- fraction is kept as a numerator and a denominator, so a comparison multiplies across; its rounding
-- to 53 bits is left out. Signs, exponents, hexadecimal and `Infinity` are read as no number: the
-- settings are seeded and written as plain decimal numerals.
use entra_shift.Csv.{decimal}
use entra_shift.Common.{
  zero, suc, ◌++◌, ◌%◌, ◌/◌, ℕ, ◌+◌, ◌-◌, ◌*◌, ◌≡◌, refl, Bool, true, false, ◌&&◌, [], ◌∷◌, Option,
  none, some, Text, trim, units, leb, ◌==◌, if◌then◌else◌, is_empty,
}

pub record Number : Type 0 where
  pub numer : ℕ
  pub denom : ℕ

abbrev pub whole : ℕ → Number
whole n = record { numer = n; denom = 1 }

abbrev pub times : Number → Number → Number
times a b = record { numer = a.numer * b.numer; denom = a.denom * b.denom }

-- `a <= n` for a whole number `n`.
abbrev pub reached : Number → ℕ → Bool
reached a n = leb a.numer (n * a.denom)

abbrev is_digit : ℕ → Bool
is_digit c = leb b'0' c && leb c b'9'

-- The digits behind the point, `digits` being true once there has been one.
fraction : Number → Bool → Text → Option Number
fraction a digits [] = if digits then some a else none
fraction a digits (c ∷ s) =
    let a' : Number = record { numer = a.numer * 10 + (c - b'0'); denom = a.denom * 10 } in
    let rest = fraction a' true s in if is_digit c then rest else none

integer : ℕ → Bool → Text → Option Number
integer n digits [] = if digits then some (whole n) else none
integer n digits (c ∷ s) =
    let rest = integer (n * 10 + (c - b'0')) true s in
    if is_digit c then rest else if c == b'.' then fraction (whole n) digits s else none

-- `Number(text)`, none for `NaN`.
unfoldable pub parse_number : Text → Option Number
unfolding fraction integer
parse_number text = let t = trim text in if is_empty t then some (whole 0) else integer 0 false t

parse_number_tests :
    (parse_number (units "0.85") ≡ some (record { numer = 85; denom = 100 }))
    × (parse_number (units " 30 ") ≡ some (whole 30))
    × (parse_number (units ".") ≡ none)
    × (parse_number (units "abc") ≡ none)
unfolding parse_number units trim
parse_number_tests = (refl, refl, refl, refl)

-- The digits of `rest / denom` behind the point, up to where nothing is left.
fraction_digits : ℕ → ℕ → ℕ → Text
fraction_digits zero rest denom = []
fraction_digits (suc f) rest denom = elim (rest == 0) [
  | true ↦ []
  | false ↦ (b'0' + rest * 10 / denom) ∷ fraction_digits f (rest * 10 % denom) denom
]

-- `String(n)`. A denominator is a power of ten, so there are fewer digits than that.
unfoldable pub number_text : Number → Text
unfolding fraction_digits
number_text n =
    if n.numer % n.denom == 0
    then decimal (n.numer / n.denom)
    else decimal (n.numer / n.denom) ++ b'.' ∷ fraction_digits n.denom (n.numer % n.denom) n.denom

number_text_tests :
    (number_text (record { numer = 850; denom = 1000 }) ≡ units "0.85")
    × (number_text (whole 30) ≡ units "30")
unfolding number_text units decimal
number_text_tests = (refl, refl)
