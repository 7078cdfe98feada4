-- ===== src/Db/Jobs.antt =====
-- worker/src/db/jobs.ts over the table `jobs` of worker/migrations/0001_init.sql: each statement
-- as a function on the list of rows.
pub mod Keys
pub mod Create
pub mod Sequence
use entra_shift.Common.{
  ℕ, ◌+◌, Bool, true, false, ◌&&◌, ◌||◌, List, [], ◌∷◌, Option, none, some, Text, text_eq,
  if◌then◌else◌, coalesce, or_else, any, find, update,
}
use entra_shift.Contracts.{
  Instant, Workload, exchange, onedrive, JobStatus, queued, provisioning, running, delta_pending,
  is_terminal, ProgressUpdate,
}

pub record JobRow : Type 0 where
  pub id : Text
  pub migration_user_id : Text
  pub workload : Workload
  pub status : JobStatus
  pub phase_text : Option Text
  pub progress_current : ℕ
  pub progress_total : Option ℕ
  pub bytes_done : ℕ
  pub bytes_total : Option ℕ
  pub delta_token : Option Text
  pub checkpoint : Option Text
  pub attempts : ℕ
  pub dispatch_seq : ℕ
  pub delta_passes : ℕ
  pub last_progress_at : Option Instant
  pub error_class : Option Text
  pub error_detail : Option Text
  pub created_at : Instant
  pub updated_at : Instant
  pub started_at : Option Instant
  pub completed_at : Option Instant

pub record CreateJobInput : Type 0 where
  pub id : Text
  pub migration_user_id : Text
  pub workload : Workload
  pub dispatch_seq : ℕ
  pub created_at : Instant

abbrev pub same_workload : Workload → Workload → Bool
same_workload exchange exchange = true
same_workload onedrive onedrive = true
same_workload _ _ = false

-- `WHERE id = ?`, and the columns of `UNIQUE (migration_user_id, workload)`.
abbrev pub has_id : Text → JobRow → Bool
has_id id j = text_eq j.id id

abbrev pub has_key : Text → Workload → JobRow → Bool
has_key user work j = text_eq j.migration_user_id user && same_workload j.workload work

-- `getInternal`: the row itself, of which the callers read the internal columns.
abbrev pub get_internal : Text → List JobRow → Option JobRow
get_internal id jobs = find (has_id id) jobs

-- The row that the INSERT writes, with the defaults of the schema.
abbrev pub new_row : CreateJobInput → JobRow
new_row j = record {
  id = j.id;
  migration_user_id = j.migration_user_id;
  workload = j.workload;
  status = queued;
  phase_text = none;
  progress_current = 0;
  progress_total = none;
  bytes_done = 0;
  bytes_total = none;
  delta_token = none;
  checkpoint = none;
  attempts = 0;
  dispatch_seq = j.dispatch_seq;
  delta_passes = 0;
  last_progress_at = none;
  error_class = none;
  error_detail = none;
  created_at = j.created_at;
  updated_at = j.created_at;
  started_at = none;
  completed_at = none;
}

-- `DO UPDATE SET` of the same statement; `phase_text` and `created_at` stay.
abbrev pub reissue_row : Instant → JobRow → JobRow
reissue_row at j = record j {
  status = queued;
  dispatch_seq = j.dispatch_seq + 1;
  progress_current = 0;
  progress_total = none;
  bytes_done = 0;
  bytes_total = none;
  delta_token = none;
  checkpoint = none;
  attempts = 0;
  delta_passes = 0;
  last_progress_at = none;
  started_at = none;
  completed_at = none;
  error_class = none;
  error_detail = none;
  updated_at = at;
}

-- The columns that `RETURNING id, dispatch_seq` gives.
pub record Created : Type 0 where
  pub id : Text
  pub dispatch_seq : ℕ

-- `create`: none if the statement breaks the primary key, or if `user_known` is false and the new
-- row would break the foreign key.
unfoldable pub create : Bool → CreateJobInput → List JobRow → Option (Created × List JobRow)
create user_known j jobs =
    if any (has_id j.id) jobs
    then none
    else elim (find (has_key j.migration_user_id j.workload) jobs) [
      | some old ↦ some (
        record { id = old.id; dispatch_seq = old.dispatch_seq + 1 },
        update (has_key j.migration_user_id j.workload) (reissue_row j.created_at) jobs,
      )
      | none ↦
          if user_known
          then some (record { id = j.id; dispatch_seq = j.dispatch_seq }, new_row j ∷ jobs)
          else none
    ]

-- `CASE WHEN ?1 IN ('provisioning','running')`.
abbrev pub starts : JobStatus → Bool
starts provisioning = true
starts running = true
starts _ = false

abbrev pub status_row : JobStatus → Option Text → Option Text → Instant → JobRow → JobRow
status_row status error_class error_detail now j = record j {
  status = status;
  error_class = error_class;
  error_detail = error_detail;
  started_at = coalesce j.started_at (if starts status then some now else j.started_at);
  completed_at = if is_terminal status then some now else j.completed_at;
  updated_at = now;
}

unfoldable pub update_status :
    Text → JobStatus → Option Text → Option Text → Instant → List JobRow → List JobRow
update_status id status error_class error_detail now =
    update (has_id id) (status_row status error_class error_detail now)

abbrev pub progress_row : JobStatus → ProgressUpdate → Instant → JobRow → JobRow
progress_row status p now j = record j {
  status = status;
  phase_text = coalesce p.phase_text j.phase_text;
  progress_current = or_else p.progress_current j.progress_current;
  progress_total = or_else p.progress_total j.progress_total;
  bytes_done = or_else p.bytes_done j.bytes_done;
  bytes_total = or_else p.bytes_total j.bytes_total;
  delta_token = or_else p.delta_token j.delta_token;
  started_at = coalesce j.started_at (some now);
  last_progress_at = some now;
  updated_at = now;
}

-- `updateProgress`, with the status that the caller has found present.
unfoldable pub update_progress :
    Text → JobStatus → ProgressUpdate → Instant → List JobRow → List JobRow
update_progress id status p now = update (has_id id) (progress_row status p now)

abbrev pub checkpoint_row : Text → ℕ → ℕ → Instant → JobRow → JobRow
checkpoint_row checkpoint progress_current bytes_done now j = record j {
  checkpoint = some checkpoint;
  progress_current = progress_current;
  bytes_done = bytes_done;
  updated_at = now;
}

unfoldable pub update_checkpoint : Text → Text → ℕ → ℕ → Instant → List JobRow → List JobRow
update_checkpoint id checkpoint progress_current bytes_done now =
    update (has_id id) (checkpoint_row checkpoint progress_current bytes_done now)

abbrev pub retry_row : Instant → JobRow → JobRow
retry_row now j = record j {
  status = queued;
  attempts = j.attempts + 1;
  dispatch_seq = j.dispatch_seq + 1;
  error_class = none;
  error_detail = none;
  updated_at = now;
}

abbrev pub delta_row : Instant → JobRow → JobRow
delta_row now j = record j {
  status = delta_pending;
  dispatch_seq = j.dispatch_seq + 1;
  delta_passes = j.delta_passes + 1;
  updated_at = now;
}

-- `RETURNING dispatch_seq`, 0 if no row was updated.
abbrev pub seq_of : Option JobRow → ℕ
seq_of none = 0
seq_of (some j) = j.dispatch_seq

abbrev pub returned_seq : Text → List JobRow → ℕ
returned_seq id jobs = seq_of (get_internal id jobs)

unfoldable pub prepare_retry : Text → Instant → List JobRow → ℕ × List JobRow
prepare_retry id now jobs =
    let jobs' = update (has_id id) (retry_row now) jobs in (returned_seq id jobs', jobs')

unfoldable pub prepare_delta : Text → Instant → List JobRow → ℕ × List JobRow
prepare_delta id now jobs =
    let jobs' = update (has_id id) (delta_row now) jobs in (returned_seq id jobs', jobs')
