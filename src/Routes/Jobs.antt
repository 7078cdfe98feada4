-- ===== src/Routes/Jobs.antt =====
-- worker/src/routes/jobs.ts: the handlers that create, cancel and dispatch jobs. `actor` is the
-- session's `actorUpn`.
pub mod Dispatch
pub mod Retry
use entra_shift.Common.{
  ℕ, Bool, true, false, not, List, [], ◌∷◌, ◌++◌, Option, none, some, Text, units, if◌then◌else◌,
  or_else, coalesce, is_empty, is_some, ◌==◌, ◌||◌,
}
use entra_shift.Contracts.{
  Workload, exchange, onedrive, JobStatus, queued, provisioning, running, backing_off,
  delta_pending, delta_running, completed, cancelled, paused, auth_expired, permission_revoked,
  quota_exceeded, failed, unlisted, MappingStatus, unmapped, mapped, auto_create, provisioned,
  invalid, MigrationUser, Job, full, delta, Pass, JobDispatchMessage, job_start, job_cancel,
  job_retry,
}
use entra_shift.Errors.{raised, validation, not_found, conflict, unexpected}
use entra_shift.Db.{Database}
use entra_shift.Db.Jobs
use entra_shift.Db.JobView
use entra_shift.Db.Users
use entra_shift.Csv.{join}
use entra_shift.App.{
  World, App, Result, ok, err, pure, throw, gets, act, or_throw, throw_if, ◌>>=◌, ◌>>◌,
}
use entra_shift.App.Actions.{now_iso, uuid, write, bill_usage, bill_writes, send, audit}

-- Membership in `RETRYABLE`.
abbrev pub is_retryable : JobStatus → Bool
is_retryable auth_expired = true
is_retryable permission_revoked = true
is_retryable quota_exceeded = true
is_retryable JobStatus.failed = true
is_retryable _ = false

unfoldable pub status_text : JobStatus → Text
unfolding units
status_text queued = units "queued"
status_text provisioning = units "provisioning"
status_text running = units "running"
status_text backing_off = units "backing_off"
status_text delta_pending = units "delta_pending"
status_text delta_running = units "delta_running"
status_text completed = units "completed"
status_text cancelled = units "cancelled"
status_text paused = units "paused"
status_text auth_expired = units "auth_expired"
status_text permission_revoked = units "permission_revoked"
status_text quota_exceeded = units "quota_exceeded"
status_text JobStatus.failed = units "failed"
status_text (unlisted s) = s

unfoldable pub workload_text : Workload → Text
unfolding units
workload_text exchange = units "exchange"
workload_text onedrive = units "onedrive"

abbrev pub job_of : Text → App (Option Job)
job_of id = gets (λ w. JobView.get_by_id id w.db.jobs w.db.users)

abbrev pub user_of : Text → App (Option MigrationUser)
user_of id = gets (λ w. Users.get_by_id id w.db.users)

-- `enqueueDispatch`.
abbrev pub enqueue_dispatch : JobDispatchMessage → App (Unit {0})
enqueue_dispatch m = do send m; bill_usage (record { workers = 0; d1_writes = 0; queue_ops = 1 })

-- `jobsDb.create`, which throws where the statement breaks a constraint.
unfoldable pub create_job : Jobs.CreateJobInput → App Jobs.Created
create_job j = do
  made ←
      gets (λ w. Jobs.create (is_some (Users.get_by_id j.migration_user_id w.db.users)) j w.db.jobs)
  (created, jobs) ← or_throw made (unexpected (units "constraint failed"))
  write (λ db. record db { jobs = jobs })
  pure created

-- `targetUpn ?? targetEmail`, where an empty text counts as missing.
abbrev pub target_of : MigrationUser → Option Text
target_of u = elim (coalesce u.target_upn u.target_email) [ some (c ∷ s) ↦ some (c ∷ s) | _ ↦ none ]

abbrev pub workloads_of : MigrationUser → List Workload
workloads_of u =
    (if u.migrate_exchange then exchange ∷ [] else [])
    ++ (if u.migrate_one_drive then onedrive ∷ [] else [])

abbrev pub is_invalid : MappingStatus → Bool
is_invalid invalid = true
is_invalid _ = false

-- The body of the loop over a user's workloads.
unfoldable pub start_workload : Text → MigrationUser → Text → Workload → App (Option Job)
unfolding create_job
start_workload user_id user target work = do
  id ← uuid
  now ← now_iso
  created ← create_job (record {
    id = id;
    migration_user_id = user_id;
    workload = work;
    dispatch_seq = 1;
    created_at = now;
  })
  bill_writes 1
  enqueue_dispatch (record {
    job_id = created.id;
    migration_user_id = user_id;
    workload = work;
    source_email = user.source_email;
    target_upn = target;
    include_archive = user.include_archive;
    pass = full;
    dispatch_seq = created.dispatch_seq;
  })
  job_of created.id

abbrev cons_some : {A : Type 0} → Option A → List A → List A
cons_some none rest = rest
cons_some (some a) rest = a ∷ rest

unfoldable pub start_workloads : Text → MigrationUser → Text → List Workload → App (List Job)
start_workloads user_id user target [] = pure []
start_workloads user_id user target (work ∷ works) = do
  job ← start_workload user_id user target work
  rest ← start_workloads user_id user target works
  pure (cons_some job rest)

abbrev workload_names : List Workload → List Text
workload_names [] = []
workload_names (work ∷ works) = workload_text work ∷ workload_names works

-- The part of the loop body behind the four tests.
unfoldable pub start_mapped : Text → Text → MigrationUser → Text → App (List Job)
start_mapped actor user_id user target = do
  let works = workloads_of user
  created ← start_workloads user_id user target works
  audit actor job_start (some user.source_email)
      (some (units "workloads: " ++ join (units ", ") (workload_names works)))
  bill_writes 1
  pure created

-- The body of the loop over the ids. A user that is skipped leaves a line in the log only.
unfoldable pub start_user : Text → Text → App (List Job)
start_user actor user_id = do
  found ← user_of user_id
  elim found [
    | none ↦ pure []
    | some user ↦ elim (target_of user) [
      | none ↦ pure []
      | some target ↦
          if is_invalid user.mapping_status || is_empty (workloads_of user)
          then pure []
          else start_mapped actor user_id user target
    ]
  ]

unfoldable pub start_users : Text → List Text → App (List Job)
start_users actor [] = pure []
start_users actor (id ∷ ids) = do
  here ← start_user actor id
  later ← start_users actor ids
  pure (here ++ later)

-- POST /api/jobs, where a missing list of ids is empty.
unfoldable pub post_jobs : Text → List Text → App (List Job)
post_jobs actor ids = do
  throw_if (is_empty ids) (raised validation (units "migrationUserIds[] is required"))
  start_users actor ids

-- GET /api/jobs, and GET /api/jobs/:id.
unfoldable pub list_jobs : App (List Job)
list_jobs = gets (λ w. JobView.list_all w.db.jobs w.db.users)

unfoldable pub get_job : Text → App Job
get_job id = do or_throw (← job_of id) (raised not_found (units "Job not found"))

-- POST /api/jobs/:id/cancel.
unfoldable pub cancel : Text → Text → App (Unit {0})
unfolding get_job
cancel actor id = do
  job ← get_job id
  now ← now_iso
  write (λ db. record db { jobs = Jobs.update_status id cancelled none none now db.jobs })
  bill_writes 1
  audit actor job_cancel (some job.source_email) (some (workload_text job.workload))
  bill_writes 1

abbrev includes_archive : Option MigrationUser → Bool
includes_archive none = false
includes_archive (some u) = u.include_archive

-- The message that a retry and a delta pass send.
abbrev redispatch : Text → Job → Option MigrationUser → Pass → ℕ → JobDispatchMessage
redispatch id job user pass seq = record {
  job_id = id;
  migration_user_id = job.migration_user_id;
  workload = job.workload;
  source_email = job.source_email;
  target_upn = job.target_upn;
  include_archive = includes_archive user;
  pass = pass;
  dispatch_seq = seq;
}

-- `prepareRetry` and `prepareDelta` on the database.
abbrev pub prepare : (World → ℕ × List Jobs.JobRow) → App ℕ
prepare p = act (λ w. let (seq, jobs) = p w in (seq, record w { db = record w.db { jobs = jobs } }))

-- POST /api/jobs/:id/retry.
unfoldable pub retry : Text → Text → App (Unit {0})
unfolding get_job
retry actor id = do
  job ← get_job id
  throw_if (not (is_retryable job.status)) (
      raised conflict
        (units "Job in status '" ++ status_text job.status ++ units "' is not retryable"))
  user ← user_of job.migration_user_id
  seq ← prepare (λ w. Jobs.prepare_retry id w.now w.db.jobs)
  bill_writes 1
  enqueue_dispatch (redispatch id job user full seq)
  audit actor job_retry (some job.source_email) (some (workload_text job.workload))
  bill_writes 1

-- POST /api/jobs/:id/delta.
unfoldable pub queue_delta : Text → Text → App (Unit {0})
unfolding get_job
queue_delta actor id = do
  job ← get_job id
  user ← user_of job.migration_user_id
  seq ← prepare (λ w. Jobs.prepare_delta id w.now w.db.jobs)
  bill_writes 1
  enqueue_dispatch (redispatch id job user delta seq)
  audit actor job_start (some job.source_email)
      (some (workload_text job.workload ++ units " delta pass"))
  bill_writes 1
