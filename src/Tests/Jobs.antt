-- ===== src/Tests/Jobs.antt =====
-- Examples for the theorems on jobs.
use entra_shift.Common.{
  length, ◌+◌, ◌*◌, ◌≡◌, ◌≤◌, refl, List, [], ◌∷◌, none, some, Text, text_eq, trim,
}
use entra_shift.Contracts.{Instant, running, completed, exchange, onedrive, ProgressUpdate}
use entra_shift.Db.Jobs.{CreateJobInput, reissue_row, JobRow, get_internal}
use entra_shift.Db.JobView
use entra_shift.App.{World, ◌>>=◌}
use entra_shift.Routes.Jobs.{retry}
use entra_shift.Routes.Requests.{Request, handle}
use entra_shift.Budget.Counters.{sum_usage}
use entra_shift.Routes.Requests.Billing.{handle-sum_usage}
use entra_shift.Routes.Vm.{post_progress, floor_guard}
use entra_shift.Middleware.ProgressFloor.{progress_floor}
use entra_shift.Numbers.{parse_number}
use entra_shift.Routes.Vm.Spacing.{post_progress-spaced}
use entra_shift.Tests.Samples.{sample_world, sample_job, sample_db}

abbrev user_m : Text
user_m = b'm' ∷ []

abbrev actor : Text
actor = b'o' ∷ []

abbrev requests : List (Instant × Request)
requests =
    (1, Request.post_jobs actor (user_m ∷ []))
    ∷ (2, Request.cancel actor (b'j' ∷ []))
    ∷ (3, Request.post_jobs actor (user_m ∷ []))
    ∷ (4, Request.queue_delta actor (b'j' ∷ []))
    ∷ []

abbrev retried_world : World
retried_world = (retry actor (b'j' ∷ []) sample_world).1

abbrev completed_world : World
completed_world = record sample_world {
  db = record sample_db { jobs = record sample_job { status = completed } ∷ [] };
}

abbrev half_way : ProgressUpdate
half_way = record {
  status = some running;
  phase_text = none;
  progress_current = some 50;
  progress_total = none;
  bytes_done = none;
  bytes_total = none;
  delta_token = none;
}

-- 99 seconds after the last write of a job whose interval is 30 seconds.
post_progress-spaced_example :
    (1000 * 1 + 30 * 1000 ≤ 100000 * 1)
    × ((next : JobRow) × (get_internal
            (b'j' ∷ [])
            (post_progress (b'j' ∷ []) half_way sample_world).1.db.jobs
          ≡ some next)
        × (next.last_progress_at ≡ some 100000))
unfolding post_progress text_eq floor_guard progress_floor parse_number trim ◌>>=◌
post_progress-spaced_example =
    post_progress-spaced (b'j' ∷ []) half_way sample_world _ sample_job 1000 refl refl refl

abbrev early_world : World
early_world = record sample_world { now = 2000 }

abbrev keyed_jobs : List JobRow
keyed_jobs = sample_job ∷ record sample_job { id = b'k' ∷ []; workload = onedrive } ∷ []

abbrev again : CreateJobInput
again = record {
  id = b'n' ∷ [];
  migration_user_id = user_m;
  workload = exchange;
  dispatch_seq = 1;
  created_at = 9;
}

abbrev reissued : List JobRow
reissued = reissue_row 9 sample_job ∷ []

-- A new batch for one user: two workloads, so two messages.
handle-sum_usage_example :
    let w' = (handle (Request.post_jobs actor (user_m ∷ [])) sample_world).1 in
    length w'.queue ≡ length sample_world.queue + (sum_usage w'.background).queue_ops
handle-sum_usage_example =
    handle-sum_usage (Request.post_jobs actor (user_m ∷ [])) sample_world refl
