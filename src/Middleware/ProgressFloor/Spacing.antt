-- ===== src/Middleware/ProgressFloor/Spacing.antt =====
-- What `progressFloor` of worker/src/middleware/budget.ts tells a caller that is too early.
use entra_shift.Common.{
  ℕ, ◌+◌, ◌-◌, ◌*◌, ◌≤◌, ◌<◌, ◌≡◌, refl, ◌∙◌, ap, true, false, arith, ltb, inl, inr, Bool-cases,
}
use native.Mathlib.Nat.{
  add-mul, mul_assoc, mul_comm, lt-div-mul-add, div-mul-le_self, mul-le-mul_right,
}
use entra_shift.Numbers.{Number}
use entra_shift.Contracts.{Instant}
use entra_shift.Middleware.ProgressFloor.{too_soon, retry_after}

abbrev unit : Number → ℕ
unit least = 1000 * least.denom

-- What is missing at `now`, in thousandths of a second over the denominator.
abbrev missing : Number → Instant → Instant → ℕ
missing least last now = last * least.denom + least.numer * 1000 - now * least.denom

later :
    (least : Number) (now n : ℕ)
    → (now + 1000 * n) * least.denom ≡ now * least.denom + n * unit least
later least now n =
    add-mul now (1000 * n) least.denom
    ∙ ap (λ x. now * least.denom + x)
        (ap (λ x. x * least.denom) (mul_comm 1000 n) ∙ mul_assoc n 1000 least.denom)

too_soon_later :
    (least : Number) (last now n : ℕ)
    → (too_soon least last (now + 1000 * n)
        ≡ ltb (now * least.denom + n * unit least) (last * least.denom + least.numer * 1000))
too_soon_later least last now n = rw (later least now n) refl

-- A call that is too early stays so for exactly the seconds in `Retry-After`: the same call `n` whole
-- seconds later is too early if `n` is smaller, and is not if it is as large or larger.
pub retry_after-least :
    (least : Number) (last now : Instant) (n : ℕ)
    → 1 ≤ least.denom
    → too_soon least last now ≡ true
    → too_soon least last (now + 1000 * n) ≡ ltb n (retry_after least last now)
retry_after-least least last now n d early = elim (Bool-cases (ltb n s)) [
  | inl few ↦ rw few (too_few (ground arith))
  | inr many ↦ rw many (enough (ground arith))
]
  where
    s : ℕ
    s = retry_after least last now

    big : 0 < unit least
    big = omega (arith, d)

    above : missing least last now + (unit least - 1) < s * unit least + unit least
    above = lt-div-mul-add big

    below : s * unit least ≤ missing least last now + (unit least - 1)
    below = div-mul-le_self _ _

    enough : s ≤ n → too_soon least last (now + 1000 * n) ≡ false
    enough h =
        let more = mul-le-mul_right (unit least) h in
        rw (too_soon_later least last now n) (ground (arith, above, big))

    too_few : n < s → too_soon least last (now + 1000 * n) ≡ true
    too_few h =
        let up : n + 1 ≤ s = omega arith in
        let more = mul-le-mul_right (unit least) up in
        let split : (n + 1) * unit least ≡ n * unit least + unit least = omega arith in
        rw (too_soon_later least last now n) (ground (arith, below, big))
