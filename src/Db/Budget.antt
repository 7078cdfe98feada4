-- ===== src/Db/Budget.antt =====
-- worker/src/db/budget.ts over the table `budget_counters`. A day is the number of days since 1970,
-- which the text `YYYY-MM-DD` names.
use entra_shift.Common.{
  ℕ, ◌+◌, ◌/◌, Bool, false, List, ◌∷◌, none, some, ◌==◌, find, update, or_else,
}
use entra_shift.Contracts.{Instant}

pub record BudgetRow : Type 0 where
  pub day : ℕ
  pub workers_requests : ℕ
  pub d1_writes : ℕ
  pub queue_ops : ℕ
  pub degraded : Bool

-- A missing delta is 0, as `?? 0` makes it.
pub record Usage : Type 0 where
  pub workers : ℕ
  pub d1_writes : ℕ
  pub queue_ops : ℕ

-- `todayUtc`.
abbrev pub today_utc : Instant → ℕ
today_utc now = now / 86400000

abbrev pub on_day : ℕ → BudgetRow → Bool
on_day day r = r.day == day

abbrev pub zero_row : ℕ → BudgetRow
zero_row day = record {
  day = day;
  workers_requests = 0;
  d1_writes = 0;
  queue_ops = 0;
  degraded = false;
}

-- `getToday`.
unfoldable pub get_today : Instant → List BudgetRow → BudgetRow
get_today now rows = or_else (find (on_day (today_utc now)) rows) (zero_row (today_utc now))

abbrev pub add_usage : Usage → BudgetRow → BudgetRow
add_usage u r = record r {
  workers_requests = r.workers_requests + u.workers;
  d1_writes = r.d1_writes + u.d1_writes;
  queue_ops = r.queue_ops + u.queue_ops;
}

-- `increment`: the row of the day, which `RETURNING *` gives, and the table.
unfoldable pub increment : Usage → Instant → List BudgetRow → BudgetRow × List BudgetRow
increment u now rows = elim (find (on_day (today_utc now)) rows) [
  | some r ↦ (add_usage u r, update (on_day (today_utc now)) (add_usage u) rows)
  | none ↦ let fresh = add_usage u (zero_row (today_utc now)) in (fresh, fresh ∷ rows)
]

-- `setDegraded`.
unfoldable pub set_degraded : Bool → Instant → List BudgetRow → List BudgetRow
set_degraded degraded now = update (on_day (today_utc now)) (λ r. record r { degraded = degraded })
