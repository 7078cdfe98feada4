-- ===== src/Routes/Reports.antt =====
-- worker/src/routes/reports.ts: what a user's migration came to.
use entra_shift.Common.{
  ℕ, ◌+◌, ◌-◌, ◌/◌, List, [], ◌∷◌, map, Option, none, some, Text, units, or_else,
}
use entra_shift.Csv.{Cell, serialize_csv}
use entra_shift.Contracts.{Instant, Job, WorkloadReport, PerUserReport}
use entra_shift.Errors.{raised, not_found}
use entra_shift.Db.{Database}
use entra_shift.Db.Jobs
use entra_shift.Db.JobView
use entra_shift.Db.Users
use entra_shift.Db.JobItems
use entra_shift.Routes.Jobs.{status_text, workload_text}
use entra_shift.App.{App, pure, gets, or_throw, ◌>>=◌}

-- `secondsBetween`, rounded to the nearest second; a job completes no earlier than it starts.
abbrev pub seconds_between : Instant → Instant → ℕ
seconds_between a b = (b - a + 500) / 1000

abbrev duration : Option Instant → Option Instant → Option ℕ
duration (some a) (some b) = some (seconds_between a b)
duration _ _ = none

abbrev passes_of : Option Jobs.JobRow → ℕ
passes_of none = 0
passes_of (some j) = j.delta_passes

-- The body of the loop over the user's jobs; a negative count is 0, as `Math.max` makes it.
unfoldable pub workload_report : Database → Job → WorkloadReport
workload_report db job =
    let (skipped, failed) = JobItems.counts_by_job job.id db.job_items in
    record {
      workload = job.workload;
      status = job.status;
      items_succeeded = job.progress_current - skipped - failed;
      items_skipped = skipped;
      items_failed = failed;
      bytes = job.bytes_done;
      duration_sec = duration job.started_at job.completed_at;
      delta_passes = passes_of (Jobs.get_internal job.id db.jobs);
    }

-- `buildReport`.
unfoldable pub build_report : Text → Database → Option PerUserReport
build_report id db = elim (Users.get_by_id id db.users) [
  | none ↦ none
  | some user ↦ some (record {
    migration_user_id = id;
    source_email = user.source_email;
    target_upn = or_else user.target_upn [];
    workloads = map (workload_report db) (JobView.list_by_migration_user id db.jobs db.users);
  })
]

-- GET /api/reports/:migrationUserId.
unfoldable pub get_report : Text → App PerUserReport
get_report id = do
  report ← gets (λ w. build_report id w.db)
  or_throw report (raised not_found (units "Migration user not found"))

abbrev number_cell : Option ℕ → Cell
number_cell none = Cell.null
number_cell (some n) = Cell.number n

abbrev report_row : PerUserReport → WorkloadReport → List Cell
report_row r w =
    Cell.text r.source_email
    ∷ Cell.text r.target_upn
    ∷ Cell.text (workload_text w.workload)
    ∷ Cell.text (status_text w.status)
    ∷ Cell.number w.items_succeeded
    ∷ Cell.number w.items_skipped
    ∷ Cell.number w.items_failed
    ∷ Cell.number w.bytes
    ∷ number_cell w.duration_sec
    ∷ Cell.number w.delta_passes
    ∷ []

abbrev header : List Text
header =
    units "SourceEmail"
    ∷ units "TargetUpn"
    ∷ units "Workload"
    ∷ units "Status"
    ∷ units "ItemsSucceeded"
    ∷ units "ItemsSkipped"
    ∷ units "ItemsFailed"
    ∷ units "Bytes"
    ∷ units "DurationSec"
    ∷ units "DeltaPasses"
    ∷ []

-- GET /api/reports/:migrationUserId/export: the text of the file.
unfoldable pub export_report : Text → App Text
unfolding get_report
export_report id = do
  report ← get_report id
  pure (serialize_csv header (map (report_row report) report.workloads))
