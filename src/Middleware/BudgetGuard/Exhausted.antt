-- ===== src/Middleware/BudgetGuard/Exhausted.antt =====
-- What the guard of worker/src/middleware/budget.ts does on a day that is exhausted.
use entra_shift.Common.{
  ◌≡◌, refl, true, false, List, Text, units, if◌then◌else◌, Bool-cases, inl, inr,
}
use entra_shift.Errors.{raised, budget_exhausted}
use entra_shift.Db.Budget.{Usage}
use entra_shift.Budget.{is_hard_exhausted, record_all}
use entra_shift.Budget.Caps.{exhausted_stays}
use entra_shift.App.{World, ok, err, ◌>>=◌}
use entra_shift.Middleware.BudgetGuard.{is_write, budget_guard}

-- Once a counter has reached its cap, and whatever is recorded after that on the same day, the guard
-- refuses every request that changes state and lets every other pass.
pub budget_guard-exhausted :
    (method : Text) (us : List Usage) (w : World)
    → is_hard_exhausted w.now w.db ≡ true
    → (budget_guard method (record w { db = record_all us w.now w.db })).0 ≡ (
        if is_write (w.runtime.to_upper method)
        then err (
            raised budget_exhausted
              (units "Daily Cloudflare free-tier cap reached; writes are paused"))
        else ok tt)
unfolding budget_guard ◌>>=◌
budget_guard-exhausted method us w spent =
    elim (Bool-cases (is_write (w.runtime.to_upper method))) [
      | inl writes ↦ rw (writes, exhausted_stays us w.now w.db spent) refl
      | inr reads ↦ rw (reads) refl
    ]

-- As long as no counter has reached its cap, the guard lets every request pass.
pub budget_guard-open :
    (method : Text) (w : World)
    → is_hard_exhausted w.now w.db ≡ false
    → budget_guard method w ≡ (ok tt, w)
unfolding budget_guard ◌>>=◌
budget_guard-open method w left = elim (Bool-cases (is_write (w.runtime.to_upper method))) [
  | inl writes ↦ rw (writes, left) refl
  | inr reads ↦ rw (reads) refl
]
