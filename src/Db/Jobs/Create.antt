-- ===== src/Db/Jobs/Create.antt =====
-- What `create` leaves in the table, against the view of it as a map from a user and a workload
-- to a job.
use entra_shift.Common.{
  ◌+◌, ◌≡◌, refl, Bool, true, List, ◌∷◌, Option, none, some, arith, Text, find, update,
}
use entra_shift.Contracts.{Workload}
use entra_shift.Db.Jobs.{JobRow, CreateJobInput, Created, has_key, new_row, reissue_row, create}
use entra_shift.Db.Jobs.Keys.{has_key_iff}

-- The job of a user and a workload.
abbrev pub job_for : Text → Workload → List JobRow → Option JobRow
job_for user work jobs = find (has_key user work) jobs

-- What the map holds at the created pair: the fresh row, or the old one reissued.
abbrev pub expected : CreateJobInput → Option JobRow → JobRow
expected j none = new_row j
expected j (some old) = reissue_row j.created_at old

pub new_row-key : (j : CreateJobInput) → has_key j.migration_user_id j.workload (new_row j) ≡ true
new_row-key j = (has_key_iff j.migration_user_id j.workload (new_row j)).1 (refl, refl)

abbrev pub key : CreateJobInput → JobRow → Bool
key j = has_key j.migration_user_id j.workload

module _ (known : Bool) (j : CreateJobInput) (jobs : List JobRow) where
  pub create_fresh :
      (c : Created) (jobs' : List JobRow)
      → find (key j) jobs ≡ none
      → create known j jobs ≡ some (c, jobs')
      → (jobs' ≡ new_row j ∷ jobs) × (c.id ≡ j.id) × (c.dispatch_seq ≡ j.dispatch_seq)
  unfolding create
  create_fresh c jobs' fresh e = ground arith

  pub create_again :
      (c : Created) (jobs' : List JobRow) (old : JobRow)
      → find (key j) jobs ≡ some old
      → create known j jobs ≡ some (c, jobs')
      → (jobs' ≡ update (key j) (reissue_row j.created_at) jobs)
        × (c.id ≡ old.id)
        × (c.dispatch_seq ≡ old.dispatch_seq + 1)
  unfolding create
  create_again c jobs' old there e = ground arith
