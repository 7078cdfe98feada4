-- ===== src/Budget/Caps.antt =====
-- When the governor of worker/src/lib/budget.ts pauses the engine and blocks writes.
use entra_shift.Common.{ℕ, ◌+◌, ◌*◌, ◌≤◌, ◌≡◌, true, List, arith, leb}
use entra_shift.Numbers.{Number, times, reached}
use entra_shift.Contracts.{Instant}
use entra_shift.Db.{Database}
use entra_shift.Db.Budget.{Usage, get_today}
use entra_shift.Budget.{limits, is_paused, is_hard_exhausted, record_all}
use entra_shift.Budget.Counters.{record_all-counts, record_all-config, sum_usage}
use native.Mathlib.Nat.{mul_assoc, mul-le-mul_left, mul-le-mul_right}

leb_iff_true : (a b : ℕ) → (leb a b ≡ true → a ≤ b) × (a ≤ b → leb a b ≡ true)
leb_iff_true a b = (ground arith, ground arith)

-- A fraction of at most one asks for no more than the whole.
reached-times :
    (a s : Number) (n : ℕ) → s.numer ≤ s.denom → reached a n ≡ true → reached (times a s) n ≡ true
reached-times a s n part h =
    let whole = (leb_iff_true a.numer (n * a.denom)).0 h in
    let up = mul-le-mul_right s.numer whole in
    let over = mul-le-mul_left (n * a.denom) part in (leb_iff_true _ _).1 (ring_up up over)
  where
    ring_up :
        a.numer * s.numer ≤ n * a.denom * s.numer
        → n * a.denom * s.numer ≤ n * a.denom * s.denom
        → a.numer * s.numer ≤ n * (a.denom * s.denom)
    ring_up h k = let k2 = rw (mul_assoc n a.denom s.denom) at k in omega arith

reached-more : (a : Number) (n m : ℕ) → reached a n ≡ true → reached a (n + m) ≡ true
reached-more a n m h =
    let up = (leb_iff_true a.numer (n * a.denom)).0 h in
    let more : n ≤ n + m = omega arith in
    let k = mul-le-mul_right a.denom more in (leb_iff_true _ _).1 (omega arith)

-- Where the soft fraction is at most one, a day that is exhausted pauses the engine, whatever the
-- flag says.
pub exhausted_pauses :
    (now : Instant) (db : Database)
    → (limits db.config).soft_fraction.numer ≤ (limits db.config).soft_fraction.denom
    → is_hard_exhausted now db ≡ true
    → is_paused now db ≡ true
unfolding is_hard_exhausted is_paused
exhausted_pauses now db part h =
    let row = get_today now db.budget_counters in
    let l = limits db.config in
    ground (
      arith,
      reached-times l.workers l.soft_fraction row.workers_requests part,
      reached-times l.d1_writes l.soft_fraction row.d1_writes part,
      reached-times l.queue_ops l.soft_fraction row.queue_ops part,
    )

-- No use ends the exhaustion of a day.
pub exhausted_stays :
    (us : List Usage) (now : Instant) (db : Database)
    → is_hard_exhausted now db ≡ true
    → is_hard_exhausted now (record_all us now db) ≡ true
unfolding is_hard_exhausted
exhausted_stays us now db h =
    let row = get_today now db.budget_counters in
    let l = limits db.config in
    let sum = sum_usage us in
    let (w, d, q) = record_all-counts us now db in
    rw (record_all-config us now db, w, d, q)
      (ground (
        arith,
        reached-more l.workers row.workers_requests sum.workers,
        reached-more l.d1_writes row.d1_writes sum.d1_writes,
        reached-more l.queue_ops row.queue_ops sum.queue_ops,
      ))
