-- ===== src/Routes/Requests/Billing.antt =====
-- The use of the queue that the handlers hand to the budget.
use entra_shift.Common.{ℕ, ◌+◌, ◌≡◌, arith, List, [], ◌∷◌, Option, Text, length}
use entra_shift.Contracts.{
  JobDispatchMessage, AuditAction, MigrationUser, Workload, StatusUpdate, ProgressUpdate,
  CheckpointUpdate, ItemLogBatch,
}
use entra_shift.Budget.Counters.{sum_usage}
use entra_shift.Db.Jobs.{CreateJobInput}
use entra_shift.App.{World, ◌>>=◌}
use entra_shift.App.Actions.{audit, bill_writes}
use entra_shift.App.Triple.{
  Keeps, After-same, pure-Triple, gets_keep, act_keep, modify_keep, modify-Triple, or_throw_keep,
  throw_if_keep, throw_keep, if_Triple, option_Triple, bind-Triple, then_Triple,
}
use entra_shift.Middleware.ProgressFloor.{Verdict, pass, refuse, wait}
use entra_shift.Routes.Jobs.{
  enqueue_dispatch, target_of, is_invalid, workloads_of, get_job, create_job, start_workload,
  start_workloads, start_mapped, start_user, start_users,
}
use entra_shift.Routes.Jobs as JobRoutes
use entra_shift.Routes.Vm as VmRoutes
use entra_shift.Routes.Requests.{
  Request, post_jobs, cancel, retry, queue_delta, post_status, post_progress, post_checkpoint,
  post_items, handle,
}

-- All messages but `n` are among the uses that are handed over.
abbrev Billed : ℕ → World → Type 0
Billed n w = n + (sum_usage w.background).queue_ops ≡ length w.queue

module _ (n : ℕ) where
  audit-Billed :
      (actor : Text) (action : AuditAction) (target detail : Option Text)
      → Keeps (Billed n) (audit actor action target detail)
  unfolding audit
  audit-Billed actor action target detail =
      then_Triple (act_keep _ (λ w h. h))
        (λ _. then_Triple (gets_keep _) (λ now. modify_keep _ (λ w h. h)))

  bill_writes-Billed : (k : ℕ) → Keeps (Billed n) (bill_writes k)
  bill_writes-Billed k = modify_keep _ (λ w h. omega (arith, h))

  audit_and_bill-Billed :
      (actor : Text) (action : AuditAction) (target detail : Option Text)
      → Keeps (Billed n) (audit actor action target detail >>= λ _. bill_writes 1)
  audit_and_bill-Billed actor action target detail =
      then_Triple (audit-Billed actor action target detail) (λ _. bill_writes-Billed 1)

  enqueue-Billed : (m : JobDispatchMessage) → Keeps (Billed n) (enqueue_dispatch m)
  enqueue-Billed m =
      bind-Triple (λ _. Billed (n + 1)) (modify-Triple _ (λ w h. omega (arith, h)))
        (λ _. modify-Triple _ (λ w h. omega (arith, h)))

  get_job-Billed : (id : Text) → Keeps (Billed n) (get_job id)
  unfolding get_job
  get_job-Billed id = then_Triple (gets_keep _) (λ o. or_throw_keep o _ (λ w h. h))

  cancel-Billed : (actor id : Text) → Keeps (Billed n) (JobRoutes.cancel actor id)
  unfolding JobRoutes.cancel
  cancel-Billed actor id = then_Triple (get_job-Billed id) (λ job. then_Triple (gets_keep _) (λ now.
      then_Triple (modify_keep _ (λ w h. h))
        (λ _. then_Triple (bill_writes-Billed 1) (λ _. audit_and_bill-Billed actor _ _ _))))

  retry-Billed : (actor id : Text) → Keeps (Billed n) (JobRoutes.retry actor id)
  unfolding JobRoutes.retry
  retry-Billed actor id = then_Triple (get_job-Billed id) (λ job.
      then_Triple (throw_if_keep _ _ (λ w h. h)) (λ _. then_Triple (gets_keep _) (λ user.
        then_Triple (act_keep _ (λ w h. h)) (λ seq.
          then_Triple (bill_writes-Billed 1)
            (λ _. then_Triple (enqueue-Billed _) (λ _. audit_and_bill-Billed actor _ _ _))))))

  queue_delta-Billed : (actor id : Text) → Keeps (Billed n) (JobRoutes.queue_delta actor id)
  unfolding JobRoutes.queue_delta
  queue_delta-Billed actor id = then_Triple (get_job-Billed id) (λ job.
      then_Triple (gets_keep _) (λ user. then_Triple (act_keep _ (λ w h. h)) (λ seq.
        then_Triple (bill_writes-Billed 1)
          (λ _. then_Triple (enqueue-Billed _) (λ _. audit_and_bill-Billed actor _ _ _)))))

  create_job-Billed : (j : CreateJobInput) → Keeps (Billed n) (create_job j)
  unfolding create_job
  create_job-Billed j = then_Triple (gets_keep _) (λ made.
      then_Triple (or_throw_keep made _ (λ w h. h))
        (λ (c, jobs). then_Triple (modify_keep _ (λ w h. h)) (λ _. pure-Triple c (λ w h. h))))

  start_workload-Billed :
      (user_id : Text) (user : MigrationUser) (target : Text) (work : Workload)
      → Keeps (Billed n) (start_workload user_id user target work)
  unfolding start_workload
  start_workload-Billed user_id user target work = then_Triple (act_keep _ (λ w h. h)) (λ id.
      then_Triple (gets_keep _) (λ now. then_Triple (create_job-Billed _) (λ c.
        then_Triple (bill_writes-Billed 1)
          (λ _. then_Triple (enqueue-Billed _) (λ _. gets_keep _)))))

  start_workloads-Billed :
      (user_id : Text) (user : MigrationUser) (target : Text) (works : List Workload)
      → Keeps (Billed n) (start_workloads user_id user target works)
  unfolding start_workloads
  start_workloads-Billed user_id user target [] = pure-Triple [] (λ w h. h)
  start_workloads-Billed user_id user target (work ∷ works) =
      then_Triple (start_workload-Billed user_id user target work) (λ job.
        then_Triple (start_workloads-Billed user_id user target works)
          (λ rest. pure-Triple _ (λ w h. h)))

  start_mapped-Billed :
      (actor user_id : Text) (user : MigrationUser) (target : Text)
      → Keeps (Billed n) (start_mapped actor user_id user target)
  unfolding start_mapped
  start_mapped-Billed actor user_id user target =
      then_Triple (start_workloads-Billed user_id user target _) (λ jobs.
        then_Triple (audit-Billed actor _ _ _)
          (λ _. then_Triple (bill_writes-Billed 1) (λ _. pure-Triple jobs (λ w h. h))))

  start_user-Billed : (actor user_id : Text) → Keeps (Billed n) (start_user actor user_id)
  unfolding start_user
  start_user-Billed actor user_id = then_Triple (gets_keep _) (λ found.
      option_Triple found (λ _. pure-Triple [] (λ w h. h))
        (λ user _.
          option_Triple (target_of user) (λ _. pure-Triple [] (λ w h. h))
            (λ target _.
              if_Triple _ (λ _. pure-Triple [] (λ w h. h))
                (λ _. start_mapped-Billed actor user_id user target))))

  start_users-Billed : (actor : Text) (ids : List Text) → Keeps (Billed n) (start_users actor ids)
  unfolding start_users
  start_users-Billed actor [] = pure-Triple [] (λ w h. h)
  start_users-Billed actor (id ∷ ids) =
      then_Triple (start_user-Billed actor id)
        (λ here. then_Triple (start_users-Billed actor ids) (λ later. pure-Triple _ (λ w h. h)))

  post_jobs-Billed :
      (actor : Text) (ids : List Text) → Keeps (Billed n) (JobRoutes.post_jobs actor ids)
  unfolding JobRoutes.post_jobs
  post_jobs-Billed actor ids =
      then_Triple (throw_if_keep _ _ (λ w h. h)) (λ _. start_users-Billed actor ids)

  require_job-Billed : (id : Text) → Keeps (Billed n) (VmRoutes.require_job id)
  require_job-Billed id = then_Triple (gets_keep _) (λ o. or_throw_keep o _ (λ w h. h))

  post_status-Billed :
      (id : Text) (body : StatusUpdate) → Keeps (Billed n) (VmRoutes.post_status id body)
  unfolding VmRoutes.post_status
  post_status-Billed id body = then_Triple (require_job-Billed id) (λ job.
      then_Triple (or_throw_keep _ _ (λ w h. h)) (λ status.
        then_Triple (gets_keep _)
          (λ now. then_Triple (modify_keep _ (λ w h. h)) (λ _. bill_writes-Billed 1))))

  checked-Billed : (v : Verdict) → Keeps (Billed n) (VmRoutes.checked v)
  checked-Billed pass = pure-Triple tt (λ w h. h)
  checked-Billed (refuse e) = throw_keep e (λ w h. h)
  checked-Billed (wait seconds e) = throw_keep e (λ w h. h)

  post_progress-Billed :
      (id : Text) (body : ProgressUpdate) → Keeps (Billed n) (VmRoutes.post_progress id body)
  unfolding VmRoutes.post_progress VmRoutes.floor_guard
  post_progress-Billed id body =
      then_Triple (then_Triple (gets_keep _) (λ v. checked-Billed v)) (λ _.
        then_Triple (or_throw_keep _ _ (λ w h. h)) (λ status.
          then_Triple (gets_keep _)
            (λ now. then_Triple (modify_keep _ (λ w h. h)) (λ _. bill_writes-Billed 1))))

  post_checkpoint-Billed :
      (id : Text) (body : CheckpointUpdate) → Keeps (Billed n) (VmRoutes.post_checkpoint id body)
  unfolding VmRoutes.post_checkpoint
  post_checkpoint-Billed id body = then_Triple (require_job-Billed id) (λ job.
      then_Triple (or_throw_keep _ _ (λ w h. h)) (λ checkpoint.
        then_Triple (gets_keep _)
          (λ now. then_Triple (modify_keep _ (λ w h. h)) (λ _. bill_writes-Billed 1))))

  post_items-Billed :
      (id : Text) (body : ItemLogBatch) → Keeps (Billed n) (VmRoutes.post_items id body)
  unfolding VmRoutes.post_items
  post_items-Billed id body = then_Triple (require_job-Billed id) (λ job.
      then_Triple (or_throw_keep _ _ (λ w h. h)) (λ items.
        then_Triple (act_keep _ (λ w h. h))
          (λ k. then_Triple (bill_writes-Billed k) (λ _. pure-Triple k (λ w h. h)))))

  handle-Billed : (r : Request) → Keeps (Billed n) (handle r)
  unfolding handle
  handle-Billed (post_jobs actor ids) =
      then_Triple (post_jobs-Billed actor ids) (λ _. pure-Triple tt (λ w h. h))
  handle-Billed (cancel actor id) = cancel-Billed actor id
  handle-Billed (retry actor id) = retry-Billed actor id
  handle-Billed (queue_delta actor id) = queue_delta-Billed actor id
  handle-Billed (post_status id body) = post_status-Billed id body
  handle-Billed (post_progress id body) = post_progress-Billed id body
  handle-Billed (post_checkpoint id body) = post_checkpoint-Billed id body
  handle-Billed (post_items id body) =
      then_Triple (post_items-Billed id body) (λ _. pure-Triple tt (λ w h. h))

-- Whatever a request does, and whether it succeeds or fails, the budget is told of exactly one queue
-- operation for each message that it has sent. No use is waiting when the request begins.
pub handle-sum_usage :
    (r : Request) (w : World)
    → w.background ≡ []
    → let w' = (handle r w).1 in
      length w'.queue ≡ length w.queue + (sum_usage w'.background).queue_ops
handle-sum_usage r w none_waiting =
    let step = handle r w in
    let before : Billed (length w.queue) w = rw none_waiting (omega arith) in
    let after =
      After-same (Billed (length w.queue)) step.0 step.1
        ((handle-Billed (length w.queue) r).at w before) in
    omega (arith, after)
