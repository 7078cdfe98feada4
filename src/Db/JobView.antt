-- ===== src/Db/JobView.antt =====
-- worker/src/db/jobs.ts: `map`, and the queries that join a job with its user.
use entra_shift.Common.{
  Bool, true, false, List, [], ◌∷◌, Option, none, some, Text, text_eq, or_else, ltb, find, select,
  order_by,
}
use entra_shift.Contracts.{exchange, onedrive, MigrationUser, Job}
use entra_shift.Db.Jobs.{JobRow, has_id}
use entra_shift.Db.Users

abbrev pub to_job : JobRow → MigrationUser → Job
to_job r m = record {
  id = r.id;
  migration_user_id = r.migration_user_id;
  source_email = m.source_email;
  target_upn = or_else m.target_upn [];
  workload = r.workload;
  status = r.status;
  phase_text = r.phase_text;
  progress_current = r.progress_current;
  progress_total = r.progress_total;
  bytes_done = r.bytes_done;
  bytes_total = r.bytes_total;
  delta_token = r.delta_token;
  checkpoint = r.checkpoint;
  attempts = r.attempts;
  error_class = r.error_class;
  error_detail = r.error_detail;
  created_at = r.created_at;
  updated_at = r.updated_at;
  started_at = r.started_at;
  completed_at = r.completed_at;
}

-- `JOIN migration_users m ON m.id = j.migration_user_id`, at one job.
abbrev pub join_user : List MigrationUser → JobRow → Option Job
join_user users r = elim (Users.get_by_id r.migration_user_id users) [
  | none ↦ none
  | some m ↦ some (to_job r m)
]

unfoldable pub get_by_id : Text → List JobRow → List MigrationUser → Option Job
get_by_id id jobs users = elim (find (has_id id) jobs) [ none ↦ none | some r ↦ join_user users r ]

unfoldable pub join_all : List MigrationUser → List JobRow → List Job
join_all users [] = []
join_all users (r ∷ rs) = elim (join_user users r) [
  | none ↦ join_all users rs
  | some j ↦ j ∷ join_all users rs
]

-- `listAll`, `ORDER BY j.created_at DESC`.
unfoldable pub list_all : List JobRow → List MigrationUser → List Job
list_all jobs users = order_by (λ a b. ltb b.created_at a.created_at) (join_all users jobs)

abbrev before : Job → Job → Bool
before a b = elim a.workload [
  | exchange ↦ elim b.workload [ exchange ↦ false | onedrive ↦ true ]
  | onedrive ↦ false
]

-- `listByMigrationUser`, `ORDER BY j.workload`.
unfoldable pub list_by_migration_user : Text → List JobRow → List MigrationUser → List Job
list_by_migration_user user jobs users =
    order_by before (join_all users (select (λ j. text_eq j.migration_user_id user) jobs))
