-- ===== src/Routes/Requests/Dispatch.antt =====
-- The dispatch numbers over a run of requests.
use entra_shift.App.Triple.{Keeps, pure-Triple, then_Triple}
use entra_shift.Routes.Jobs.Dispatch.{
  IsSound, post_jobs-Keeps, cancel-Keeps, retry-Keeps, queue_delta-Keeps,
}
use entra_shift.Routes.Vm.Dispatch.{
  post_status-Keeps, post_progress-Keeps, post_checkpoint-Keeps, post_items-Keeps,
}
use entra_shift.Routes.Requests.{
  Request, post_jobs, cancel, retry, queue_delta, post_status, post_progress, post_checkpoint,
  post_items, handle,
}

pub handle-Keeps : (r : Request) → Keeps IsSound (handle r)
unfolding handle
handle-Keeps (post_jobs actor ids) =
    then_Triple (post_jobs-Keeps actor ids) (λ _. pure-Triple tt (λ w h. h))
handle-Keeps (cancel actor id) = cancel-Keeps actor id
handle-Keeps (retry actor id) = retry-Keeps actor id
handle-Keeps (queue_delta actor id) = queue_delta-Keeps actor id
handle-Keeps (post_status id body) = post_status-Keeps id body
handle-Keeps (post_progress id body) = post_progress-Keeps id body
handle-Keeps (post_checkpoint id body) = post_checkpoint-Keeps id body
handle-Keeps (post_items id body) =
    then_Triple (post_items-Keeps id body) (λ _. pure-Triple tt (λ w h. h))
