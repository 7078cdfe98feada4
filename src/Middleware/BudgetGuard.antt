-- ===== src/Middleware/BudgetGuard.antt =====
-- `countWorkerRequest` and `budgetGuard` of worker/src/middleware/budget.ts.
pub mod Exhausted
use entra_shift.Common.{Bool, true, false, ◌||◌, ◌&&◌, not, ◌∷◌, Text, text_eq, units}
use entra_shift.Errors.{raised, budget_exhausted}
use entra_shift.Budget.{is_hard_exhausted}
use entra_shift.App.{World, App, Result, pure, gets, throw_if, modify, ◌>>=◌, ◌>>◌}
use entra_shift.App.Actions.{bill_usage}

-- A method other than GET, HEAD and OPTIONS changes state.
abbrev pub is_write : Text → Bool
is_write upper =
    not (
      text_eq upper (units "GET")
      || text_eq upper (units "HEAD")
      || text_eq upper (units "OPTIONS"))

unfoldable pub budget_guard : Text → App (Unit {0})
budget_guard method = do
  exhausted ← gets (λ w. is_write (w.runtime.to_upper method) && is_hard_exhausted w.now w.db)
  throw_if exhausted
      (raised budget_exhausted (units "Daily Cloudflare free-tier cap reached; writes are paused"))

-- `countWorkerRequest`: what the rest throws is a response by then, so the request is counted too.
unfoldable pub count_worker_request : {A : Type 0} → App A → App A
count_worker_request m w =
    let (r, w') = m w in
    (
      r,
      record w' {
        background = record { workers = 1; d1_writes = 0; queue_ops = 0 } ∷ w'.background;
      },
    )
