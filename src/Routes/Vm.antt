-- ===== src/Routes/Vm.antt =====
-- worker/src/routes/vm.ts: the handlers through which the engine reports. The access guard and
-- the budget guard stand in front of all of them (Middleware), the progress floor in front of
-- `post_progress`.
pub mod Dispatch
pub mod Spacing
use entra_shift.Common.{
  ℕ, Bool, true, false, not, List, [], ◌∷◌, Option, none, some, Text, units, or_else, is_some,
  length, ◌+◌,
}
use entra_shift.Contracts.{
  JobStatus, Job, StatusUpdate, ProgressUpdate, CheckpointUpdate, ItemLogBatch, ItemLog,
}
use entra_shift.Errors.{raised, validation, not_found}
use entra_shift.Db.{Database}
use entra_shift.Db.Jobs
use entra_shift.Db.JobItems
use entra_shift.Middleware.ProgressFloor
use entra_shift.App.{World, App, Result, ok, err, pure, throw, gets, act, or_throw, ◌>>=◌, ◌>>◌}
use entra_shift.App.Actions.{now_iso, write, bill_writes}
use entra_shift.Routes.Jobs as JobRoutes

-- GET /api/vm/jobs/:id.
unfoldable pub vm_get_job : Text → App Job
vm_get_job id = JobRoutes.get_job id

abbrev pub require_job : Text → App Jobs.JobRow
require_job id = do
  or_throw (← gets (λ w. Jobs.get_internal id w.db.jobs)) (raised not_found (units "Job not found"))

abbrev status_required : Option JobStatus → App JobStatus
status_required s = or_throw s (raised validation (units "status is required"))

-- POST /api/vm/jobs/:id/status.
unfoldable pub post_status : Text → StatusUpdate → App (Unit {0})
post_status id body = do
  require_job id
  status ← status_required body.status
  now ← now_iso
  write (λ db. record db {
    jobs = Jobs.update_status id status body.error_class body.error_detail now db.jobs;
  })
  bill_writes 1

-- The guard in front of `post_progress`. The header `Retry-After` is left to `ProgressFloor.wait`.
abbrev pub checked : ProgressFloor.Verdict → App (Unit {0})
checked ProgressFloor.pass = pure tt
checked (ProgressFloor.refuse e) = throw e
checked (ProgressFloor.wait seconds e) = throw e

unfoldable pub floor_guard : Text → App (Unit {0})
floor_guard id = do
  verdict ← gets (λ w. ProgressFloor.progress_floor w.vars.min_poll_interval_sec id w.now w.db.jobs)
  checked verdict

-- POST /api/vm/jobs/:id/progress.
unfoldable pub post_progress : Text → ProgressUpdate → App (Unit {0})
post_progress id body = do
  floor_guard id
  status ← status_required body.status
  now ← now_iso
  write (λ db. record db { jobs = Jobs.update_progress id status body now db.jobs })
  bill_writes 1

-- POST /api/vm/jobs/:id/checkpoint.
unfoldable pub post_checkpoint : Text → CheckpointUpdate → App (Unit {0})
post_checkpoint id body = do
  require_job id
  checkpoint ← or_throw body.checkpoint (raised validation (units "checkpoint object is required"))
  now ← now_iso
  write (λ db. record db {
    jobs =
        Jobs.update_checkpoint id checkpoint (or_else body.progress_current 0)
          (or_else body.bytes_done 0) now db.jobs;
  })
  bill_writes 1

-- The insertion draws one id for each item.
abbrev insert_items : Text → List ItemLog → App ℕ
insert_items id items = act (λ w.
    let ids = λ (n : ℕ). w.runtime.uuid (w.draws + n) in
    (
      length items,
      record w {
        db = record w.db { job_items = JobItems.insert_batch ids id w.now items w.db.job_items };
        draws = w.draws + length items;
      },
    ))

-- POST /api/vm/jobs/:id/items.
unfoldable pub post_items : Text → ItemLogBatch → App ℕ
post_items id body = do
  require_job id
  items ← or_throw body.items (raised validation (units "items[] is required"))
  inserted ← insert_items id items
  bill_writes inserted
  pure inserted
