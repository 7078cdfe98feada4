-- ===== src/Routes/Jobs/Retry.antt =====
-- What POST /api/jobs/:id/retry does (worker/src/routes/jobs.ts).
use entra_shift.Common.{
  ℕ, ◌+◌, ◌≡◌, refl, ◌∙◌, sym, ap, true, List, ◌∷◌, Option, some, Text, arith, find-update,
  find_sound, patched, patch,
}
use entra_shift.Contracts.{JobDispatchMessage, AuditAction, Job, full}
use entra_shift.Errors.{Thrown}
use entra_shift.Db.Jobs.{JobRow, get_internal, has_id, retry_row, prepare_retry}
use entra_shift.Db.Jobs.Keys.{has_id-same, retry_row-KeepsKeys}
use entra_shift.Db.JobView
use entra_shift.App.{World, err}
use entra_shift.App.Actions.{audit}
use entra_shift.App.Triple.{
  Triple, After-err, gets-Triple, gets_keep, act_keep, act-Triple, modify_keep, modify-Triple,
  or_throw-Triple, throw_if-Triple, bind-Triple, then_Triple,
}
use entra_shift.Routes.Jobs.{is_retryable, redispatch, get_job, retry}

-- The row is queued again under the next number, and one message with that number is sent.
pub record IsRetried (id : Text) (w : World) (row : JobRow) (jobs : List JobRow)
    (queue : List JobDispatchMessage) : Type 0 where
  pub allowed : is_retryable row.status ≡ true
  pub requeued : get_internal id jobs ≡ some (retry_row w.now row)
  pub message : JobDispatchMessage
  pub sent : queue ≡ message ∷ w.queue
  pub same_job : message.job_id ≡ id
  pub numbered : message.dispatch_seq ≡ row.dispatch_seq + 1

module _ (id : Text) (old : World) (row : JobRow)
    (found : get_internal id old.db.jobs ≡ some row) where
  abbrev Same : World → Type 0
  Same w = w ≡ old

  abbrev Prepared : ℕ → World → Type 0
  Prepared seq w =
      (get_internal id w.db.jobs ≡ some (retry_row old.now row))
      × (w.queue ≡ old.queue)
      × (seq ≡ row.dispatch_seq + 1)
      × (is_retryable row.status ≡ true)

  abbrev Retried : World → Type 0
  Retried w = IsRetried id old row w.db.jobs w.queue

  audit-Retried :
      (actor : Text) (action : AuditAction) (target detail : Option Text)
      → Triple Same Retried (audit actor action target detail) (λ _. Retried)
  unfolding audit
  audit-Retried actor action target detail =
      then_Triple (act_keep _ (λ w h. h))
        (λ _. then_Triple (gets_keep _) (λ now. modify_keep _ (λ w h. h)))

  view_status :
      (job : Job)
      → JobView.get_by_id id old.db.jobs old.db.users ≡ some job
      → job.status ≡ row.status
  unfolding JobView.get_by_id
  view_status job e = ground arith

  get_job-Triple : Triple Same Same (get_job id) (λ job w. Same w × (job.status ≡ row.status))
  unfolding get_job
  get_job-Triple =
      bind-Triple (λ o w. Same w × (JobView.get_by_id id old.db.jobs old.db.users ≡ o))
        (gets-Triple _ (λ w h. (h, ap (λ x. JobView.get_by_id id x.db.jobs x.db.users) (sym h))))
        (λ o. or_throw-Triple o _ (λ w h. h.0) (λ job w e h. (h.0, view_status job (h.1 ∙ e))))

  prepared :
      (w : World)
      → Same w
      → let (seq, jobs) = prepare_retry id w.now w.db.jobs in
        (get_internal id jobs ≡ some (retry_row old.now row)) × (seq ≡ row.dispatch_seq + 1)
  unfolding prepare_retry
  prepared w same =
      let row_now =
        find-update (has_id id) (has_id id) (retry_row old.now)
          (has_id-same (has_id id) (retry_row old.now) (retry_row-KeepsKeys old.now) id) old.db.jobs
        ∙ rw (found, patched, patch, find_sound (has_id id) old.db.jobs found) in
      rw same (row_now, rw row_now refl)

  retry-Triple : (actor : Text) → Triple Same Same (retry actor id) (λ _. Retried)
  unfolding retry
  retry-Triple actor =
      bind-Triple (λ job w. Same w × (job.status ≡ row.status)) get_job-Triple
        (λ job.
          bind-Triple (λ _ w. Same w × (is_retryable row.status ≡ true))
            (throw_if-Triple _ _ (λ w h. h.0) (λ w e h. (h.0, ground (arith, h.1))))
            (λ _. then_Triple (gets_keep _) (λ user.
              bind-Triple Prepared
                (act-Triple _
                  (λ w h. let (r, n) = prepared w h.0 in (r, ap (λ x. x.queue) h.0, n, h.1)))
                (λ seq. then_Triple (modify_keep _ (λ w h. h)) (λ _.
                  bind-Triple (λ _. Retried)
                    (bind-Triple (λ _. Retried)
                      (modify-Triple _ (λ w (r, q, n, a). record {
                        allowed = a;
                        requeued = r;
                        message = redispatch id job user full seq;
                        sent = ap (λ x. redispatch id job user full seq ∷ x) q;
                        same_job = refl;
                        numbered = n;
                      }))
                      (λ _. modify_keep _ (λ w h. h)))
                    (λ _.
                      then_Triple (audit-Retried actor _ _ _) (λ _. modify_keep _ (λ w h. h))))))))

-- A retry that is refused changes nothing.
pub retry-refused :
    (actor id : Text) (w : World) (row : JobRow) (x : Thrown)
    → get_internal id w.db.jobs ≡ some row
    → (retry actor id w).0 ≡ err x
    → (retry actor id w).1 ≡ w
retry-refused actor id w row x found e =
    let r = retry actor id w in
    After-err (Same id w row found) (λ _. Retried id w row found) r.0 r.1
      ((retry-Triple id w row found actor).at w refl) e
