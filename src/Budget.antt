-- ===== src/Budget.antt =====
-- worker/src/lib/budget.ts: the governor of the daily budget, over the counters of Db/Budget.antt
-- and the limits of the table `config`.
pub mod Counters
pub mod Caps
use entra_shift.Common.{ℕ, Bool, true, ◌||◌, not, List, [], ◌∷◌, Text, units, if◌then◌else◌}
use entra_shift.Numbers.{Number, whole, times, reached}
use entra_shift.Contracts.{Instant, EngineConfig, FreeTierBudget}
use entra_shift.Db.{Database}
use entra_shift.Db.Budget.{BudgetRow, Usage, get_today, increment, set_degraded}
use entra_shift.Db.ConfigTable.{ConfigMap, num}
use entra_shift.App.{World}

pub record Limits : Type 0 where
  pub workers : Number
  pub d1_writes : Number
  pub queue_ops : Number
  pub soft_fraction : Number

unfoldable pub limits : ConfigMap → Limits
limits cfg = record {
  workers = num cfg (units "workersDailyLimit") (whole 100000);
  d1_writes = num cfg (units "d1WritesDailyLimit") (whole 100000);
  queue_ops = num cfg (units "queueOpsDailyLimit") (whole 10000);
  soft_fraction = num cfg (units "budgetSoftFraction") (record { numer = 85; denom = 100 });
}

abbrev pub is_degraded_at_soft : BudgetRow → Limits → Bool
is_degraded_at_soft row l =
    reached (times l.workers l.soft_fraction) row.workers_requests
    || reached (times l.d1_writes l.soft_fraction) row.d1_writes
    || reached (times l.queue_ops l.soft_fraction) row.queue_ops

abbrev same : Bool → Bool → Bool
same a b = if a then b else not b

-- `recordUsage`: the state of the flag, and the database.
unfoldable pub record_usage : Usage → Instant → Database → Bool × Database
record_usage u now db =
    let (row, rows) = increment u now db.budget_counters in
    let degraded_now = is_degraded_at_soft row (limits db.config) in
    (
      degraded_now,
      record db {
        budget_counters =
            if same degraded_now row.degraded then rows else set_degraded degraded_now now rows;
      },
    )

-- The uses that `waitUntil` was given, the newest first, recorded one after the other.
unfoldable pub record_all : List Usage → Instant → Database → Database
record_all [] now db = db
record_all (u ∷ us) now db = (record_usage u now (record_all us now db)).1

unfoldable pub settle : World → World
settle w = record w { db = record_all w.background w.now w.db; background = [] }

-- `isPaused`.
unfoldable pub is_paused : Instant → Database → Bool
is_paused now db =
    let row = get_today now db.budget_counters in
    row.degraded || is_degraded_at_soft row (limits db.config)

abbrev pub is_exhausted_row : BudgetRow → Limits → Bool
is_exhausted_row row l =
    reached l.workers row.workers_requests
    || reached l.d1_writes row.d1_writes
    || reached l.queue_ops row.queue_ops

-- `isHardExhausted`.
unfoldable pub is_hard_exhausted : Instant → Database → Bool
is_hard_exhausted now db = is_exhausted_row (get_today now db.budget_counters) (limits db.config)

-- `getBudget`.
unfoldable pub get_budget : Instant → Database → FreeTierBudget
get_budget now db =
    let row = get_today now db.budget_counters in
    let l = limits db.config in
    record {
      day = row.day;
      workers = record { used = row.workers_requests; limit = l.workers };
      d1_writes = record { used = row.d1_writes; limit = l.d1_writes };
      queue_ops = record { used = row.queue_ops; limit = l.queue_ops };
      degraded = row.degraded;
    }

-- `getEngineConfig`.
unfoldable pub get_engine_config : Instant → Database → EngineConfig
get_engine_config now db = record {
  min_poll_interval_sec = num db.config (units "minPollIntervalSec") (whole 30);
  per_mailbox_concurrency = num db.config (units "perMailboxConcurrency") (whole 2);
  per_tenant_concurrency = num db.config (units "perTenantConcurrency") (whole 4);
  exchange_export_batch_size = num db.config (units "exchangeExportBatchSize") (whole 20);
  onedrive_upload_session_threshold_bytes =
      num db.config (units "onedriveUploadSessionThresholdBytes") (whole 4194304);
  item_max_retries = num db.config (units "itemMaxRetries") (whole 5);
  paused = is_paused now db;
}
