-- ===== src/Crypto.antt =====
-- `generateTempPassword` of worker/src/lib/crypto.ts. The rest of that file calls AES-GCM of the
-- runtime.
pub mod Bytes
pub mod Classes
pub mod Enough
pub mod Envelope
pub mod Draws
use entra_shift.Common.{
  ℕ, zero, suc, ◌+◌, ◌-◌, ◌%◌, Bool, true, false, List, [], ◌∷◌, ◌++◌, Option, none, some, Text,
  units, length, get_elem?, ltb, if◌then◌else◌,
}
use Bytes.{Draw, pure, of_option, byte_below, ◌>>=◌}

abbrev pub upper : Text
unfolding units
upper = units "ABCDEFGHJKLMNPQRSTUVWXYZ"

abbrev pub lower : Text
unfolding units
lower = units "abcdefghijkmnopqrstuvwxyz"

abbrev pub digit : Text
unfolding units
digit = units "23456789"

abbrev pub symbol : Text
unfolding units
symbol = units "!@#$%^&*-_=+?"

abbrev pub all : Text
all = upper ++ lower ++ digit ++ symbol

-- `pick`.
unfoldable pub pick : Text → Draw ℕ
pick set = do i ← byte_below (length set); of_option (get_elem? set i)

-- `while (chars.length < length) chars.push(pick(ALL))`, for the number that is missing.
unfoldable pub fill : ℕ → Draw Text
fill zero = pure []
fill (suc n) = do c ← pick all; rest ← fill n; pure (c ∷ rest)

unfoldable pub set_at : ℕ → ℕ → Text → Text
set_at i a [] = []
set_at zero a (c ∷ s) = a ∷ s
set_at (suc i) a (c ∷ s) = c ∷ set_at i a s

-- `[chars[i], chars[j]] = [chars[j], chars[i]]`.
unfoldable pub swap : ℕ → ℕ → Text → Text
swap i j s = elim (get_elem? s i) [
  | none ↦ s
  | some a ↦ elim (get_elem? s j) [ none ↦ s | some b ↦ set_at j a (set_at i b s) ]
]

-- The loop of the shuffle, from the index `i` down to 1.
unfoldable pub shuffle : ℕ → Text → Draw Text
shuffle zero s = pure s
shuffle (suc i) s = do j ← byte_below (i + 2); shuffle i (swap (i + 1) j s)

abbrev pub at_least_8 : ℕ → ℕ
at_least_8 n = if ltb n 8 then 8 else n

unfoldable pub generate_temp_password : ℕ → Draw Text
generate_temp_password n = do
  u ← pick upper
  l ← pick lower
  d ← pick digit
  s ← pick symbol
  rest ← fill (at_least_8 n - 4)
  shuffle (at_least_8 n - 1) (u ∷ l ∷ d ∷ s ∷ rest)
