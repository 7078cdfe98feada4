-- ===== src/Routes/Jobs/Dispatch.antt =====
-- The messages in the queue against the dispatch numbers of the jobs, over the handlers of
-- worker/src/routes/jobs.ts.
use entra_shift.Common.{
  ℕ, ◌≡◌, ◌≤◌, ◌<◌, ◌∙◌, refl, true, List, [], ◌∷◌, Option, none, some, arith, Text, any, All,
  All-imp, find-none_iff, is_some,
}
use entra_shift.Contracts.{JobDispatchMessage, AuditAction, MigrationUser, Job, Workload, cancelled}
use entra_shift.Db.Jobs.{JobRow, CreateJobInput, create, has_id, returned_seq}
use entra_shift.Db.JobView
use entra_shift.Db.Users
use entra_shift.Db.Jobs.Keys.{
  IsKeyed, Change, created, moved, retried, delta_queued, Change-IsKeyed,
}
use entra_shift.Db.Jobs.Sequence.{
  Change-seq_le, IsNext, prepare_retry-IsNext, prepare_delta-IsNext, create-IsNext,
}
use entra_shift.App.{World, App, ◌>>=◌}
use entra_shift.App.Actions.{audit, bill_writes}
use entra_shift.App.Triple.{
  Triple, Keeps, pure-Triple, gets-Triple, gets_keep, act_keep, modify_keep, act-Triple,
  modify-Triple, or_throw-Triple, throw_if-Triple, throw_if_keep, if_Triple, option_Triple,
  bind-Triple, then_Triple,
}
use entra_shift.Routes.Jobs.{
  prepare, enqueue_dispatch, target_of, get_job, create_job, start_workload, start_workloads,
  start_mapped, start_user, start_users, post_jobs, cancel, retry, queue_delta,
}

-- A message's number is at least 1 and no newer than its job's.
abbrev pub IsNumbered : List JobRow → JobDispatchMessage → Type 0
IsNumbered jobs m = (1 ≤ m.dispatch_seq) × (m.dispatch_seq ≤ returned_seq m.job_id jobs)

-- Every message of the job `id` has a number below `seq`.
abbrev pub IsAbove : Text → ℕ → List JobDispatchMessage → Type 0
IsAbove id seq ms = All (λ o. o.job_id ≡ id → o.dispatch_seq < seq) ms

-- Of two messages for one job the later one has the greater number.
abbrev pub IsFalling : List JobDispatchMessage → Type 0
IsFalling [] = Unit
IsFalling (m ∷ ms) = IsAbove m.job_id m.dispatch_seq ms × IsFalling ms

pub record IsDispatched (jobs : List JobRow) (queue : List JobDispatchMessage) : Type 0 where
  pub keyed : IsKeyed jobs
  pub numbered : All (IsNumbered jobs) queue
  pub falling : IsFalling queue

pub Change-IsDispatched :
    {jobs jobs' : List JobRow} {queue : List JobDispatchMessage}
    → Change jobs jobs'
    → IsDispatched jobs queue
    → IsDispatched jobs' queue
Change-IsDispatched {jobs} {jobs'} {queue} c d = record {
  keyed = Change-IsKeyed c d.keyed;
  numbered =
      All-imp (IsNumbered jobs) (IsNumbered jobs') queue
        (λ m h. (h.0, omega (arith, h.1, Change-seq_le c m.job_id))) d.numbered;
  falling = d.falling;
}

numbered-IsAbove :
    (id : Text) (seq : ℕ) (jobs : List JobRow) (queue : List JobDispatchMessage)
    → returned_seq id jobs < seq
    → All (IsNumbered jobs) queue
    → IsAbove id seq queue
numbered-IsAbove id seq jobs queue h =
    All-imp (IsNumbered jobs) _ queue
      (λ m n e. let le : m.dispatch_seq ≤ returned_seq id jobs = rw e at n.1 in omega arith)

-- The job's number has just been raised to `seq`, and no message carries it yet.
record IsReady (id : Text) (seq : ℕ) (jobs : List JobRow) (queue : List JobDispatchMessage)
    : Type 0 where
  sound : IsDispatched jobs queue
  above : IsAbove id seq queue
  positive : 1 ≤ seq
  current : seq ≡ returned_seq id jobs

next-IsReady :
    {jobs jobs' : List JobRow} {queue : List JobDispatchMessage} {id : Text} {seq : ℕ}
    → Change jobs jobs'
    → IsNext id seq jobs jobs'
    → IsDispatched jobs queue
    → IsReady id seq jobs' queue
next-IsReady {jobs} {jobs'} {queue} {id} {seq} c next d = record {
  sound = Change-IsDispatched c d;
  above = numbered-IsAbove id seq jobs queue next.0 d.numbered;
  positive = omega (arith, next.0);
  current = next.1;
}

send-IsDispatched :
    {jobs : List JobRow} {queue : List JobDispatchMessage} (m : JobDispatchMessage)
    → IsReady m.job_id m.dispatch_seq jobs queue
    → IsDispatched jobs (m ∷ queue)
send-IsDispatched m r = record {
  keyed = r.sound.keyed;
  numbered = ((r.positive, omega (arith, r.current)), r.sound.numbered);
  falling = (r.above, r.sound.falling);
}

-- A condition on the table of jobs and the queue.
abbrev On : (List JobRow → List JobDispatchMessage → Type 0) → World → Type 0
On R w = R w.db.jobs w.queue

abbrev pub IsSound : World → Type 0
IsSound = On IsDispatched

abbrev HasJob : Text → World → Type 0
HasJob id = On (λ jobs queue. IsDispatched jobs queue × (any (has_id id) jobs ≡ true))

abbrev Ready : Text → ℕ → World → Type 0
Ready id seq = On (IsReady id seq)

audit-On :
    {E : World → Type 0} (R : List JobRow → List JobDispatchMessage → Type 0) (actor : Text)
    (action : AuditAction) (target detail : Option Text)
    → Triple E (On R) (audit actor action target detail) (λ _. On R)
unfolding audit
audit-On R actor action target detail =
    then_Triple (act_keep _ (λ w h. h))
      (λ id. then_Triple (gets_keep _) (λ now. modify_keep _ (λ w h. h)))

-- A job that the join finds has a row.
get_by_id-any :
    (id : Text) (jobs : List JobRow) (users : List MigrationUser) (job : Job)
    → JobView.get_by_id id jobs users ≡ some job
    → any (has_id id) jobs ≡ true
unfolding JobView.get_by_id
get_by_id-any id jobs users job e = ground (arith, find-none_iff (has_id id) jobs)

get_job-HasJob : (id : Text) → Triple IsSound IsSound (get_job id) (λ _. HasJob id)
unfolding get_job
get_job-HasJob id =
    bind-Triple (λ o w. IsSound w × (JobView.get_by_id id w.db.jobs w.db.users ≡ o))
      (gets-Triple _ (λ w h. (h, refl)))
      (λ o.
        or_throw-Triple o _ (λ w h. h.0)
          (λ job w e h. (h.0, get_by_id-any id w.db.jobs w.db.users job (h.1 ∙ e))))

audit_and_bill-Sound :
    (actor : Text) (action : AuditAction) (target detail : Option Text)
    → Keeps IsSound (audit actor action target detail >>= λ _. bill_writes 1)
audit_and_bill-Sound actor action target detail =
    then_Triple (audit-On IsDispatched actor action target detail) (λ _. modify_keep _ (λ w h. h))

pub cancel-Keeps : (actor id : Text) → Keeps IsSound (cancel actor id)
unfolding cancel
cancel-Keeps actor id =
    bind-Triple (λ _. HasJob id) (get_job-HasJob id)
      (λ job. then_Triple (gets_keep _) (λ now.
        bind-Triple (λ _. IsSound)
          (modify-Triple _ (λ w h. Change-IsDispatched (moved id cancelled none none now) h.0))
          (λ _. then_Triple (modify_keep _ (λ w h. h)) (λ _. audit_and_bill-Sound actor _ _ _))))

-- What stands behind `prepare` in a retry and in a delta pass.
prepared-Keeps :
    (id : Text) (p : World → ℕ × List JobRow) (rest : ℕ → App (Unit {0}))
    → ((w : World) → Change w.db.jobs (p w).1)
    → ((w : World) → any (has_id id) w.db.jobs ≡ true → IsNext id (p w).0 w.db.jobs (p w).1)
    → ((seq : ℕ) → Triple IsSound (Ready id seq) (rest seq) (λ _. IsSound))
    → Triple IsSound (HasJob id) (prepare p >>= rest) (λ _. IsSound)
prepared-Keeps id p rest change next r =
    bind-Triple (Ready id) (act-Triple _ (λ w h. next-IsReady (change w) (next w h.1) h.0)) r

enqueue-Sound :
    (m : JobDispatchMessage)
    → Triple IsSound (Ready m.job_id m.dispatch_seq) (enqueue_dispatch m) (λ _. IsSound)
enqueue-Sound m =
    bind-Triple (λ _. IsSound) (modify-Triple _ (λ w r. send-IsDispatched m r))
      (λ _. modify_keep _ (λ w h. h))

pub retry-Keeps : (actor id : Text) → Keeps IsSound (retry actor id)
unfolding retry
retry-Keeps actor id =
    bind-Triple (λ _. HasJob id) (get_job-HasJob id)
      (λ job.
        bind-Triple (λ _. HasJob id) (throw_if-Triple _ _ (λ w h. h.0) (λ w e h. h))
          (λ _. then_Triple (gets_keep _) (λ user.
            prepared-Keeps id _ _ (λ w. retried id w.now)
              (λ w. prepare_retry-IsNext id w.now w.db.jobs)
              (λ seq. then_Triple (modify_keep _ (λ w h. h)) (λ _.
                bind-Triple (λ _. IsSound) (enqueue-Sound _)
                  (λ _. audit_and_bill-Sound actor _ _ _))))))

pub queue_delta-Keeps : (actor id : Text) → Keeps IsSound (queue_delta actor id)
unfolding queue_delta
queue_delta-Keeps actor id =
    bind-Triple (λ _. HasJob id) (get_job-HasJob id)
      (λ job. then_Triple (gets_keep _) (λ user.
        prepared-Keeps id _ _ (λ w. delta_queued id w.now)
          (λ w. prepare_delta-IsNext id w.now w.db.jobs)
          (λ seq. then_Triple (modify_keep _ (λ w h. h)) (λ _.
            bind-Triple (λ _. IsSound) (enqueue-Sound _) (λ _. audit_and_bill-Sound actor _ _ _)))))

create_job-Ready :
    (j : CreateJobInput)
    → 1 ≤ j.dispatch_seq
    → Triple IsSound IsSound (create_job j) (λ c. Ready c.id c.dispatch_seq)
unfolding create_job
create_job-Ready j low =
    bind-Triple
      (λ o w.
        IsSound w
        × (create (is_some (Users.get_by_id j.migration_user_id w.db.users)) j w.db.jobs ≡ o))
      (gets-Triple _ (λ w h. (h, refl)))
      (λ o.
        bind-Triple
          (λ (c, jobs') w.
            IsSound w
            × (create (is_some (Users.get_by_id j.migration_user_id w.db.users)) j w.db.jobs
                ≡ some (c, jobs')))
          (or_throw-Triple o _ (λ w h. h.0) (λ a w e h. (h.0, h.1 ∙ e)))
          (λ (c, jobs').
            bind-Triple (λ _. Ready c.id c.dispatch_seq)
              (modify-Triple _ (λ w h.
                next-IsReady (created _ j c h.1)
                  (create-IsNext _ j w.db.jobs jobs' c low h.0.keyed h.1) h.0))
              (λ _. pure-Triple c (λ w h. h))))

start_workload-Keeps :
    (user_id : Text) (user : MigrationUser) (target : Text) (work : Workload)
    → Keeps IsSound (start_workload user_id user target work)
unfolding start_workload
start_workload-Keeps user_id user target work = then_Triple (act_keep _ (λ w h. h)) (λ id.
    then_Triple (gets_keep _) (λ now.
      bind-Triple (λ c. Ready c.id c.dispatch_seq) (create_job-Ready _ (omega arith))
        (λ c.
          then_Triple (modify_keep _ (λ w h. h))
            (λ _. bind-Triple (λ _. IsSound) (enqueue-Sound _) (λ _. gets_keep _)))))

start_workloads-Keeps :
    (user_id : Text) (user : MigrationUser) (target : Text) (works : List Workload)
    → Keeps IsSound (start_workloads user_id user target works)
unfolding start_workloads
start_workloads-Keeps user_id user target [] = pure-Triple [] (λ w h. h)
start_workloads-Keeps user_id user target (work ∷ works) =
    then_Triple (start_workload-Keeps user_id user target work) (λ job.
      then_Triple (start_workloads-Keeps user_id user target works)
        (λ rest. pure-Triple _ (λ w h. h)))

start_mapped-Keeps :
    (actor user_id : Text) (user : MigrationUser) (target : Text)
    → Keeps IsSound (start_mapped actor user_id user target)
unfolding start_mapped
start_mapped-Keeps actor user_id user target =
    then_Triple (start_workloads-Keeps user_id user target _) (λ jobs.
      then_Triple (audit-On IsDispatched actor _ _ _)
        (λ _. then_Triple (modify_keep _ (λ w h. h)) (λ _. pure-Triple jobs (λ w h. h))))

start_user-Keeps : (actor user_id : Text) → Keeps IsSound (start_user actor user_id)
unfolding start_user
start_user-Keeps actor user_id = then_Triple (gets_keep _) (λ found.
    option_Triple found (λ _. pure-Triple [] (λ w h. h))
      (λ user _.
        option_Triple (target_of user) (λ _. pure-Triple [] (λ w h. h))
          (λ target _.
            if_Triple _ (λ _. pure-Triple [] (λ w h. h))
              (λ _. start_mapped-Keeps actor user_id user target))))

start_users-Keeps : (actor : Text) (ids : List Text) → Keeps IsSound (start_users actor ids)
unfolding start_users
start_users-Keeps actor [] = pure-Triple [] (λ w h. h)
start_users-Keeps actor (id ∷ ids) =
    then_Triple (start_user-Keeps actor id)
      (λ here. then_Triple (start_users-Keeps actor ids) (λ later. pure-Triple _ (λ w h. h)))

pub post_jobs-Keeps : (actor : Text) (ids : List Text) → Keeps IsSound (post_jobs actor ids)
unfolding post_jobs
post_jobs-Keeps actor ids =
    then_Triple (throw_if_keep _ _ (λ w h. h)) (λ _. start_users-Keeps actor ids)
