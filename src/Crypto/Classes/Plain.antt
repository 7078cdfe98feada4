-- ===== src/Crypto/Classes/Plain.antt =====
-- The characters of a temporary password (worker/src/lib/crypto.ts) are kept by UTF-8.
use entra_shift.Common.{
  ℕ, ◌<◌, ◌≤◌, ◌≡◌, arith, true, [], ◌∷◌, Text, All, length, ◌==◌, Bool-cases, inl, inr,
}
use entra_shift.Crypto.{all, upper}
use entra_shift.Crypto.Classes.{is_in, count, IsStrong}
use entra_shift.Crypto.Envelope.RoundTrip.{IsPlain}

is_in-small : (set : Text) (c : ℕ) → All (λ x. x < 128) set → is_in set c ≡ true → c < 128
is_in-small [] c h e = cc
is_in-small (x ∷ set) c (p, h) e = elim (Bool-cases (x == c)) [
  | inl here ↦ ground arith
  | inr later ↦ is_in-small set c h (ground arith)
]

count-le : (set s : Text) → count set s ≤ length s
count-le set [] = omega arith
count-le set (c ∷ s) = elim (Bool-cases (is_in set c)) [
  | inl e ↦ rw e (omega (arith, count-le set s))
  | inr e ↦ rw e (omega (arith, count-le set s))
]

counted-IsPlain : (set s : Text) → All (λ x. x < 128) set → count set s ≡ length s → IsPlain s
counted-IsPlain set [] h e = tt
counted-IsPlain set (c ∷ s) h e = elim (Bool-cases (is_in set c)) [
  | inl known ↦
      let small = is_in-small set c h known in
      let rest : count set s ≡ length s = (let f = rw known at e in omega (arith, f)) in
      (omega (arith, small), counted-IsPlain set s h rest)
  | inr other ↦ let f = rw other at e in absurd (omega (arith, f, count-le set s))
]

pub strong-IsPlain : (n : ℕ) (password : Text) → IsStrong n password → IsPlain password
unfolding upper
strong-IsPlain n password h = counted-IsPlain all password (ground arith) h.within
