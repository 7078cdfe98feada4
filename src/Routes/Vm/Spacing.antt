-- ===== src/Routes/Vm/Spacing.antt =====
-- How often POST /api/vm/jobs/:id/progress writes (worker/src/routes/vm.ts).
use entra_shift.Common.{
  ◌+◌, ◌*◌, ◌≤◌, ◌≡◌, refl, ◌∙◌, sym, ap, false, Option, none, some, Text, ◌∷◌, arith, find-update,
  find_sound, patched, patch,
}
use entra_shift.Contracts.{Instant, JobStatus, ProgressUpdate}
use entra_shift.Errors.{Thrown}
use entra_shift.Db.Jobs.{JobRow, get_internal, has_id, progress_row, update_progress}
use entra_shift.Db.Jobs.Keys.{has_id-same, progress_row-KeepsKeys}
use entra_shift.Middleware.ProgressFloor.{
  min_interval, too_soon, Verdict, pass, refuse, wait, progress_floor,
}
use entra_shift.App.{World, Result, ok, err, ◌>>=◌}
use entra_shift.Routes.Vm.{floor_guard, post_progress}

abbrev floor_of : Text → World → Verdict
floor_of id w = progress_floor w.vars.min_poll_interval_sec id w.now w.db.jobs

-- A job whose last write is too recent is not let through.
floor-late :
    (id : Text) (w : World) (job : JobRow) (last : Instant)
    → get_internal id w.db.jobs ≡ some job
    → job.last_progress_at ≡ some last
    → floor_of id w ≡ pass
    → too_soon (min_interval w.vars.min_poll_interval_sec) last w.now ≡ false
unfolding progress_floor
floor-late id w job last found before passes = ground arith

abbrev written : Text → World → JobStatus → ProgressUpdate → World
written id w status body = record w {
  db = record w.db { jobs = update_progress id status body w.now w.db.jobs };
  background = record { workers = 0; d1_writes = 1; queue_ops = 0 } ∷ w.background;
}

-- The handler writes where the guard lets it through and the body has a status; else it throws and
-- leaves the world.
abbrev Outcome :
    Text → ProgressUpdate → World → Verdict → Option JobStatus → Result (Unit {0}) × World → Type 0
Outcome id body w pass (some status) r = r ≡ (ok tt, written id w status body)
Outcome id body w _ _ (r, w') = (w' ≡ w) × ((e : Thrown) × (r ≡ err e))

post_progress-Outcome :
    (id : Text) (body : ProgressUpdate) (w : World)
    → Outcome id body w (floor_of id w) body.status (post_progress id body w)
unfolding post_progress floor_guard ◌>>=◌
post_progress-Outcome id body w = go (floor_of id w) refl body.status refl
  where
    go :
        (v : Verdict)
        → floor_of id w ≡ v
        → (status : Option JobStatus) → body.status ≡ status
        → Outcome id body w v status (post_progress id body w)
    go pass e (some status) f = rw (e, f) refl
    go pass e none f = rw (e, f) (refl, (_, refl))
    go (refuse x) e status f = rw (e) (refl, (_, refl))
    go (wait s x) e status f = rw (e) (refl, (_, refl))

accepted :
    (id : Text) (body : ProgressUpdate) (w : World) (v : Verdict) (status : Option JobStatus)
    (r : Result (Unit {0}) × World)
    → Outcome id body w v status r
    → r.0 ≡ ok tt
    → (v ≡ pass) × ((s : JobStatus) × (r.1 ≡ written id w s body))
accepted id body w pass (some s) r h e = (refl, (s, ap (λ x. x.1) h))
accepted id body w pass none (r, w') (_, (x, thrown)) e = cc
accepted id body w (refuse x) status (r, w') (_, (y, thrown)) e = cc
accepted id body w (wait n x) status (r, w') (_, (y, thrown)) e = cc

-- Two progress writes for a job that are accepted one after the other are at least the configured
-- number of seconds apart, and the second is recorded as the job's latest: the earlier time `last`
-- is what the guard of the next write reads.
pub post_progress-spaced :
    (id : Text) (body : ProgressUpdate) (w w' : World) (job : JobRow) (last : Instant)
    → post_progress id body w ≡ (ok tt, w')
    → get_internal id w.db.jobs ≡ some job
    → job.last_progress_at ≡ some last
    → let least = min_interval w.vars.min_poll_interval_sec in
      (last * least.denom + least.numer * 1000 ≤ w.now * least.denom)
      × ((next : JobRow) × (get_internal id w'.db.jobs ≡ some next)
          × (next.last_progress_at ≡ some w.now))
unfolding update_progress
post_progress-spaced id body w w' job last e found before =
    let (passes, (s, after)) =
      accepted id body w (floor_of id w) body.status (post_progress id body w)
        (post_progress-Outcome id body w) (ap (λ r. r.0) e) in
    let late = floor-late id w job last found before passes in
    let same_world : w' ≡ written id w s body = sym (ap (λ r. r.1) e) ∙ after in
    let row =
      find-update (has_id id) (has_id id) (progress_row s body w.now)
        (has_id-same (has_id id) (progress_row s body w.now) (progress_row-KeepsKeys s body w.now)
          id)
        w.db.jobs
      ∙ rw (found, patched, patch, find_sound (has_id id) w.db.jobs found) in
    (
      ground arith,
      (progress_row s body w.now job, ap (λ x. get_internal id x.db.jobs) same_world ∙ row, refl),
    )

-- A progress write that is refused, for whichever reason, changes nothing.
pub post_progress-refused :
    (id : Text) (body : ProgressUpdate) (w : World) (x : Thrown)
    → (post_progress id body w).0 ≡ err x
    → (post_progress id body w).1 ≡ w
post_progress-refused id body w x e =
    kept (floor_of id w) body.status (post_progress id body w) (post_progress-Outcome id body w) e
  where
    kept :
        (v : Verdict) (status : Option JobStatus) (r : Result (Unit {0}) × World)
        → Outcome id body w v status r
        → r.0 ≡ err x
        → r.1 ≡ w
    kept pass (some s) r h e = cc
    kept pass none (r, w') (same, _) e = same
    kept (refuse y) status (r, w') (same, _) e = same
    kept (wait n y) status (r, w') (same, _) e = same
