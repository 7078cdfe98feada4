-- ===== src/Routes/Vm/Dispatch.antt =====
-- The handlers of worker/src/routes/vm.ts leave the dispatch numbers alone.
use entra_shift.Common.{Text}
use entra_shift.Contracts.{StatusUpdate, ProgressUpdate, CheckpointUpdate, ItemLogBatch}
use entra_shift.Db.Jobs.Keys.{moved, progressed, checkpointed}
use entra_shift.Middleware.ProgressFloor.{Verdict, pass, refuse, wait}
use entra_shift.App.Triple.{
  Keeps, pure-Triple, gets_keep, act_keep, modify_keep, or_throw_keep, throw_keep, then_Triple,
}
use entra_shift.Routes.Jobs.Dispatch.{IsSound, Change-IsDispatched}
use entra_shift.Routes.Vm.{
  require_job, checked, post_status, floor_guard, post_progress, post_checkpoint, post_items,
}

require_job-Keeps : (id : Text) → Keeps IsSound (require_job id)
require_job-Keeps id = then_Triple (gets_keep _) (λ o. or_throw_keep o _ (λ w h. h))

pub post_status-Keeps : (id : Text) (body : StatusUpdate) → Keeps IsSound (post_status id body)
unfolding post_status
post_status-Keeps id body = then_Triple (require_job-Keeps id) (λ job.
    then_Triple (or_throw_keep _ _ (λ w h. h)) (λ status. then_Triple (gets_keep _) (λ now.
      then_Triple
        (modify_keep _
          (λ w h. Change-IsDispatched (moved id status body.error_class body.error_detail now) h))
        (λ _. modify_keep _ (λ w h. h)))))

checked-Keeps : (v : Verdict) → Keeps IsSound (checked v)
checked-Keeps pass = pure-Triple tt (λ w h. h)
checked-Keeps (refuse e) = throw_keep e (λ w h. h)
checked-Keeps (wait seconds e) = throw_keep e (λ w h. h)

pub post_progress-Keeps :
    (id : Text) (body : ProgressUpdate) → Keeps IsSound (post_progress id body)
unfolding post_progress floor_guard
post_progress-Keeps id body = then_Triple (then_Triple (gets_keep _) (λ v. checked-Keeps v)) (λ _.
    then_Triple (or_throw_keep _ _ (λ w h. h)) (λ status. then_Triple (gets_keep _) (λ now.
      then_Triple (modify_keep _ (λ w h. Change-IsDispatched (progressed id status body now) h))
        (λ _. modify_keep _ (λ w h. h)))))

pub post_checkpoint-Keeps :
    (id : Text) (body : CheckpointUpdate) → Keeps IsSound (post_checkpoint id body)
unfolding post_checkpoint
post_checkpoint-Keeps id body = then_Triple (require_job-Keeps id) (λ job.
    then_Triple (or_throw_keep _ _ (λ w h. h)) (λ checkpoint. then_Triple (gets_keep _) (λ now.
      then_Triple
        (modify_keep _ (λ w h. Change-IsDispatched (checkpointed id checkpoint _ _ now) h))
        (λ _. modify_keep _ (λ w h. h)))))

pub post_items-Keeps : (id : Text) (body : ItemLogBatch) → Keeps IsSound (post_items id body)
unfolding post_items
post_items-Keeps id body = then_Triple (require_job-Keeps id) (λ job.
    then_Triple (or_throw_keep _ _ (λ w h. h)) (λ items.
      then_Triple (act_keep _ (λ w h. h))
        (λ n. then_Triple (modify_keep _ (λ w h. h)) (λ _. pure-Triple n (λ w h. h)))))
