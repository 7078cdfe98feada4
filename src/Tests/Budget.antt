-- ===== src/Tests/Budget.antt =====
-- Examples for the theorems on budgets and limits.
use entra_shift.Common.{◌+◌, ◌≡◌, refl, [], ◌∷◌, Text, text_eq, true, false, arith}
use entra_shift.Db.{Database}
use entra_shift.Db.Budget.{BudgetRow, Usage}
use entra_shift.Budget.{record_all, limits, is_degraded_at_soft}
use entra_shift.Budget.Counters.{record_all-get_today, today}
use entra_shift.App.{World}
use entra_shift.Middleware.RateLimit.{bucket_of, open_bucket}
use entra_shift.Middleware.RateLimit.Window.{passed, passed_in_window}
use entra_shift.Tests.Samples.{sample_world, sample_db}

abbrev one_write : Usage
one_write = record { workers = 0; d1_writes = 1; queue_ops = 0 }

abbrev one_message : Usage
one_message = record { workers = 0; d1_writes = 0; queue_ops = 1 }

abbrev counted : BudgetRow
counted = today 100000 (record_all (one_message ∷ one_write ∷ []) 100000 sample_db)

record_all-get_today_example :
    (counted.workers_requests ≡ (today 100000 sample_db).workers_requests + 0)
    × (counted.d1_writes ≡ (today 100000 sample_db).d1_writes + 1)
    × (counted.queue_ops ≡ (today 100000 sample_db).queue_ops + 1)
    × (counted.degraded ≡ is_degraded_at_soft counted (limits sample_db.config))
record_all-get_today_example = record_all-get_today one_message (one_write ∷ []) 100000 sample_db

abbrev yesterday : BudgetRow
yesterday = record { day = 3; workers_requests = 1; d1_writes = 1; queue_ops = 1; degraded = true }

abbrev db_of_yesterday : Database
db_of_yesterday = record sample_db { budget_counters = yesterday ∷ [] }

abbrev spent_db : Database
spent_db = record sample_db {
  budget_counters =
      record { day = 0; workers_requests = 100000; d1_writes = 0; queue_ops = 0; degraded = false }
      ∷ [];
}

abbrev spent_world : World
spent_world = record sample_world { db = spent_db }

abbrev key : Text
key = b'k' ∷ []

passed_in_window_example : passed key ((5, key) ∷ (6, b'o' ∷ []) ∷ (7, key) ∷ []) [] ≡ 2
unfolding bucket_of open_bucket text_eq
passed_in_window_example =
    passed_in_window key 5 ((6, b'o' ∷ []) ∷ (7, key) ∷ []) [] refl (omega arith, (omega arith, tt))
