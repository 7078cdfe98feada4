-- ===== src/Db/Jobs/Keys.antt =====
-- The unique columns of the table `jobs`, under every statement of worker/src/db/jobs.ts.
use entra_shift.Common.{
  ℕ, ◌≡◌, ◌↔◌, ◌∙◌, refl, Bool, true, false, List, [], ◌∷◌, Option, some, arith, Text, text_eq_iff,
  any, find, update, patch, any-update, find-none_iff, Bool-cases, inl, inr, Option-cases,
}
use entra_shift.Contracts.{Instant, Workload, exchange, onedrive, JobStatus, ProgressUpdate}
use entra_shift.Db.Jobs.{
  JobRow, CreateJobInput, Created, same_workload, has_id, has_key, reissue_row, create, status_row,
  update_status, progress_row, update_progress, checkpoint_row, update_checkpoint, retry_row,
  delta_row, prepare_retry, prepare_delta,
}

pub same_workload_iff : (a b : Workload) → (same_workload a b ≡ true) ↔ (a ≡ b)
same_workload_iff exchange exchange = ground arith
same_workload_iff exchange onedrive = ground arith
same_workload_iff onedrive exchange = ground arith
same_workload_iff onedrive onedrive = ground arith

pub has_key_iff :
    (user : Text) (work : Workload) (j : JobRow)
    → (has_key user work j ≡ true) ↔ ((j.migration_user_id ≡ user) × (j.workload ≡ work))
has_key_iff user work j =
    ground (arith, text_eq_iff j.migration_user_id user, same_workload_iff j.workload work)

-- No two rows share an id, nor a user and workload: PRIMARY KEY and UNIQUE of the schema.
abbrev pub IsKeyed : List JobRow → Type 0
IsKeyed [] = Unit
IsKeyed (j ∷ jobs) =
    (any (has_id j.id) jobs ≡ false)
    × (any (has_key j.migration_user_id j.workload) jobs ≡ false)
    × IsKeyed jobs

-- A change of a row that leaves the unique columns alone.
pub record KeepsKeys (f : JobRow → JobRow) : Type 0 where
  pub id : (j : JobRow) → (f j).id ≡ j.id
  pub user : (j : JobRow) → (f j).migration_user_id ≡ j.migration_user_id
  pub work : (j : JobRow) → (f j).workload ≡ j.workload

module _ (p : JobRow → Bool) (f : JobRow → JobRow) (k : KeepsKeys f) where
  pub has_id-same : (id : Text) (j : JobRow) → has_id id (f j) ≡ has_id id j
  has_id-same id j = rw (k.id j)

  pub has_key-same :
      (user : Text) (work : Workload) (j : JobRow) → has_key user work (f j) ≡ has_key user work j
  has_key-same user work j = rw (k.user j, k.work j)

  patch-keys :
      (j : JobRow)
      → ((patch p f j).id ≡ j.id)
        × ((patch p f j).migration_user_id ≡ j.migration_user_id)
        × ((patch p f j).workload ≡ j.workload)
  patch-keys j = elim (Bool-cases (p j)) [
    | inl e ↦ rw (e, patch) (k.id j, k.user j, k.work j)
    | inr e ↦ rw (e, patch) (refl, refl, refl)
  ]

  pub update-IsKeyed : (jobs : List JobRow) → IsKeyed jobs → IsKeyed (update p f jobs)
  update-IsKeyed [] h = tt
  update-IsKeyed (j ∷ jobs) (ids, keys, h) =
      let (id, user, work) = patch-keys j in
      rw (id, user, work)
        (
          any-update p (has_id j.id) f (has_id-same j.id) jobs ∙ ids,
          any-update p (has_key j.migration_user_id j.workload) f
                (has_key-same j.migration_user_id j.workload) jobs
              ∙ keys,
          update-IsKeyed jobs h,
        )

pub status_row-KeepsKeys :
    (s : JobStatus) (c d : Option Text) (now : Instant) → KeepsKeys (status_row s c d now)
status_row-KeepsKeys s c d now = record { id = λ j. refl; user = λ j. refl; work = λ j. refl }

pub progress_row-KeepsKeys :
    (s : JobStatus) (p : ProgressUpdate) (now : Instant) → KeepsKeys (progress_row s p now)
progress_row-KeepsKeys s p now = record { id = λ j. refl; user = λ j. refl; work = λ j. refl }

pub checkpoint_row-KeepsKeys :
    (c : Text) (n b : ℕ) (now : Instant) → KeepsKeys (checkpoint_row c n b now)
checkpoint_row-KeepsKeys c n b now = record { id = λ j. refl; user = λ j. refl; work = λ j. refl }

pub reissue_row-KeepsKeys : (now : Instant) → KeepsKeys (reissue_row now)
reissue_row-KeepsKeys now = record { id = λ j. refl; user = λ j. refl; work = λ j. refl }

pub retry_row-KeepsKeys : (now : Instant) → KeepsKeys (retry_row now)
retry_row-KeepsKeys now = record { id = λ j. refl; user = λ j. refl; work = λ j. refl }

pub delta_row-KeepsKeys : (now : Instant) → KeepsKeys (delta_row now)
delta_row-KeepsKeys now = record { id = λ j. refl; user = λ j. refl; work = λ j. refl }

-- What one statement of the module makes of the table.
pub data Change (jobs : List JobRow) : List JobRow → Type 0 where
  created :
      (known : Bool) (j : CreateJobInput) (c : Created) {jobs' : List JobRow}
      → create known j jobs ≡ some (c, jobs')
      → Change jobs jobs'
  moved :
      (id : Text) (s : JobStatus) (c d : Option Text) (now : Instant)
      → Change jobs (update_status id s c d now jobs)
  progressed :
      (id : Text) (s : JobStatus) (p : ProgressUpdate) (now : Instant)
      → Change jobs (update_progress id s p now jobs)
  checkpointed :
      (id c : Text) (n b : ℕ) (now : Instant) → Change jobs (update_checkpoint id c n b now jobs)
  retried : (id : Text) (now : Instant) → Change jobs (prepare_retry id now jobs).1
  delta_queued : (id : Text) (now : Instant) → Change jobs (prepare_delta id now jobs).1

create-IsKeyed :
    (known : Bool) (j : CreateJobInput) (c : Created) (jobs jobs' : List JobRow)
    → create known j jobs ≡ some (c, jobs')
    → IsKeyed jobs
    → IsKeyed jobs'
unfolding create
create-IsKeyed known j c jobs jobs' e h =
    elim (Option-cases (find (has_key j.migration_user_id j.workload) jobs)) [
      | inl fresh ↦ ground (arith, find-none_iff (has_key j.migration_user_id j.workload) jobs)
      | inr (old, there) ↦
          let keyed =
            update-IsKeyed (has_key j.migration_user_id j.workload) (reissue_row j.created_at)
              (reissue_row-KeepsKeys j.created_at) jobs h in
          ground arith
    ]

-- Every statement keeps the ids unique, and the pairs of user and workload.
pub Change-IsKeyed : {jobs jobs' : List JobRow} → Change jobs jobs' → IsKeyed jobs → IsKeyed jobs'
unfolding update_status update_progress update_checkpoint prepare_retry prepare_delta
Change-IsKeyed {jobs} (created known j c {jobs'} e) h = create-IsKeyed known j c jobs jobs' e h
Change-IsKeyed {jobs} (moved id s c d now) h =
    update-IsKeyed _ _ (status_row-KeepsKeys s c d now) jobs h
Change-IsKeyed {jobs} (progressed id s p now) h =
    update-IsKeyed _ _ (progress_row-KeepsKeys s p now) jobs h
Change-IsKeyed {jobs} (checkpointed id c n b now) h =
    update-IsKeyed _ _ (checkpoint_row-KeepsKeys c n b now) jobs h
Change-IsKeyed {jobs} (retried id now) h = update-IsKeyed _ _ (retry_row-KeepsKeys now) jobs h
Change-IsKeyed {jobs} (delta_queued id now) h = update-IsKeyed _ _ (delta_row-KeepsKeys now) jobs h
