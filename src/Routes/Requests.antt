-- ===== src/Routes/Requests.antt =====
-- The requests that change jobs, each behind the handler that the paths of worker/src/index.ts
-- give it, and a run of requests one after the other.
pub mod Dispatch
pub mod Billing
use entra_shift.Common.{List, [], ◌∷◌, Text}
use entra_shift.Contracts.{Instant, StatusUpdate, ProgressUpdate, CheckpointUpdate, ItemLogBatch}
use entra_shift.App.{World, Result, ok, err, App, pure, ◌>>=◌}
use entra_shift.Routes.Jobs
use entra_shift.Routes.Vm

pub data Request : Type 0 where
  post_jobs : Text → List Text → Request
  cancel : Text → Text → Request
  retry : Text → Text → Request
  queue_delta : Text → Text → Request
  post_status : Text → StatusUpdate → Request
  post_progress : Text → ProgressUpdate → Request
  post_checkpoint : Text → CheckpointUpdate → Request
  post_items : Text → ItemLogBatch → Request

abbrev pub discard : {A : Type 0} → App A → App (Unit {0})
discard m = m >>= λ _. pure tt

unfoldable pub handle : Request → App (Unit {0})
handle (post_jobs actor ids) = discard (Jobs.post_jobs actor ids)
handle (cancel actor id) = Jobs.cancel actor id
handle (retry actor id) = Jobs.retry actor id
handle (queue_delta actor id) = Jobs.queue_delta actor id
handle (post_status id body) = Vm.post_status id body
handle (post_progress id body) = Vm.post_progress id body
handle (post_checkpoint id body) = Vm.post_checkpoint id body
handle (post_items id body) = discard (Vm.post_items id body)

-- Each request at its own instant. What a request that throws has written stays.
unfoldable pub serve : List (Instant × Request) → World → World
serve [] w = w
serve ((now, r) ∷ rs) w = serve rs (handle r (record w { now = now })).1
