-- ===== src/Db/Jobs/Sequence.antt =====
-- The dispatch numbers of the jobs under the statements of worker/src/db/jobs.ts.
use entra_shift.Common.{
  ℕ, ◌+◌, ◌≡◌, ◌≤◌, ◌<◌, ◌∙◌, sym, refl, Bool, true, false, List, [], ◌∷◌, Option, none, some,
  arith, Text, text_eq, text_eq_iff, text_eq_refl, any, find, update, patch, patched, find-update,
  find-none_iff, find_sound, any_of_find, Bool-cases, Option-cases, inl, inr,
}
use entra_shift.Contracts.{Instant}
use entra_shift.Db.Jobs.{
  JobRow, CreateJobInput, Created, has_id, new_row, reissue_row, create, update_status,
  update_progress, update_checkpoint, retry_row, delta_row, seq_of, returned_seq, prepare_retry,
  prepare_delta,
}
use entra_shift.Db.Jobs.Keys.{
  IsKeyed, KeepsKeys, has_id-same, status_row-KeepsKeys, progress_row-KeepsKeys,
  checkpoint_row-KeepsKeys, reissue_row-KeepsKeys, retry_row-KeepsKeys, delta_row-KeepsKeys, Change,
  created, moved, progressed, checkpointed, retried, delta_queued,
}
use entra_shift.Db.Jobs.Create.{key, create_fresh, create_again}

-- A change of rows that lowers no dispatch number.
abbrev Raises : (JobRow → JobRow) → Type 0
Raises f = (j : JobRow) → j.dispatch_seq ≤ (f j).dispatch_seq

seq_of-patched :
    (p : JobRow → Bool) (f : JobRow → JobRow) (k : KeepsKeys f) (id : Text) (o : Option JobRow)
    → Raises f
    → seq_of o ≤ seq_of (patched p (has_id id) f (has_id-same p f k id) o)
seq_of-patched p f k id none r = omega arith
seq_of-patched p f k id (some j) r = ground (arith, r j)

update-seq_le :
    (p : JobRow → Bool) (f : JobRow → JobRow) (k : KeepsKeys f) (id : Text) (jobs : List JobRow)
    → Raises f
    → returned_seq id jobs ≤ returned_seq id (update p f jobs)
update-seq_le p f k id jobs r =
    rw (find-update p (has_id id) f (has_id-same p f k id) jobs)
      (seq_of-patched p f k id (find (has_id id) jobs) r)

-- A fresh row has an id that no row had.
create_new_id :
    (known : Bool) (j : CreateJobInput) (jobs jobs' : List JobRow) (c : Created)
    → create known j jobs ≡ some (c, jobs')
    → any (has_id j.id) jobs ≡ false
unfolding create
create_new_id known j jobs jobs' c e = ground arith

cons-seq_le :
    (row : JobRow) (id : Text) (jobs : List JobRow)
    → any (has_id row.id) jobs ≡ false
    → returned_seq id jobs ≤ returned_seq id (row ∷ jobs)
cons-seq_le row id jobs new = elim (Bool-cases (text_eq row.id id)) [
  | inl same ↦
      let gone : find (has_id id) jobs ≡ none =
        rw (← (text_eq_iff row.id id).0 same) ((find-none_iff (has_id row.id) jobs).1 new) in
      rw gone (omega arith)
  | inr other ↦ rw (other, find) (omega arith)
]

create-seq_le :
    (known : Bool) (j : CreateJobInput) (jobs jobs' : List JobRow) (c : Created) (id : Text)
    → create known j jobs ≡ some (c, jobs')
    → returned_seq id jobs ≤ returned_seq id jobs'
create-seq_le known j jobs jobs' c id e = elim (Option-cases (find (key j) jobs)) [
  | inl fresh ↦
      rw ((create_fresh known j jobs c jobs' fresh e).0)
        (cons-seq_le (new_row j) id jobs (create_new_id known j jobs jobs' c e))
  | inr (old, there) ↦ rw ((create_again known j jobs c jobs' old there e).0) (
      update-seq_le (key j) (reissue_row j.created_at) (reissue_row-KeepsKeys j.created_at) id jobs
        (λ r. omega arith))
]

-- No statement lowers the dispatch number under an id; a missing row counts as 0.
pub Change-seq_le :
    {jobs jobs' : List JobRow}
    → Change jobs jobs'
    → (id : Text) → returned_seq id jobs ≤ returned_seq id jobs'
unfolding update_status update_progress update_checkpoint prepare_retry prepare_delta
Change-seq_le {jobs} (created known j c {jobs'} e) id = create-seq_le known j jobs jobs' c id e
Change-seq_le {jobs} (moved key s c d now) id =
    update-seq_le _ _ (status_row-KeepsKeys s c d now) id jobs (λ r. omega arith)
Change-seq_le {jobs} (progressed key s p now) id =
    update-seq_le _ _ (progress_row-KeepsKeys s p now) id jobs (λ r. omega arith)
Change-seq_le {jobs} (checkpointed key c n b now) id =
    update-seq_le _ _ (checkpoint_row-KeepsKeys c n b now) id jobs (λ r. omega arith)
Change-seq_le {jobs} (retried key now) id =
    update-seq_le _ _ (retry_row-KeepsKeys now) id jobs (λ r. omega arith)
Change-seq_le {jobs} (delta_queued key now) id =
    update-seq_le _ _ (delta_row-KeepsKeys now) id jobs (λ r. omega arith)

-- A number that a statement returns is above the one that the row had, and is the row's.
abbrev pub IsNext : Text → ℕ → List JobRow → List JobRow → Type 0
IsNext id seq jobs jobs' = (returned_seq id jobs < seq) × (seq ≡ returned_seq id jobs')

bump-IsNext :
    (f : JobRow → JobRow) (k : KeepsKeys f) (id : Text) (jobs : List JobRow)
    → ((j : JobRow) → (f j).dispatch_seq ≡ j.dispatch_seq + 1)
    → any (has_id id) jobs ≡ true
    → IsNext id (returned_seq id (update (has_id id) f jobs)) jobs (update (has_id id) f jobs)
bump-IsNext f k id jobs up there = elim (Option-cases (find (has_id id) jobs)) [
  | inl none_found ↦ ground (arith, find-none_iff (has_id id) jobs)
  | inr (row, found) ↦
      let hit = find_sound (has_id id) jobs found in
      let after : find (has_id id) (update (has_id id) f jobs) ≡ some (f row) =
        find-update (has_id id) (has_id id) f (has_id-same (has_id id) f k id) jobs
        ∙ rw (found, patched, patch, hit) in
      rw (found, after) (ground (arith, up row))
]

pub prepare_retry-IsNext :
    (id : Text) (now : Instant) (jobs : List JobRow)
    → any (has_id id) jobs ≡ true
    → let (seq, jobs') = prepare_retry id now jobs in IsNext id seq jobs jobs'
unfolding prepare_retry
prepare_retry-IsNext id now jobs =
    bump-IsNext (retry_row now) (retry_row-KeepsKeys now) id jobs (λ j. refl)

pub prepare_delta-IsNext :
    (id : Text) (now : Instant) (jobs : List JobRow)
    → any (has_id id) jobs ≡ true
    → let (seq, jobs') = prepare_delta id now jobs in IsNext id seq jobs jobs'
unfolding prepare_delta
prepare_delta-IsNext id now jobs =
    bump-IsNext (delta_row now) (delta_row-KeepsKeys now) id jobs (λ j. refl)

-- Where ids are unique, a row that some test finds is the row of its id.
find-own_id :
    (q : JobRow → Bool) (jobs : List JobRow) {old : JobRow}
    → IsKeyed jobs
    → find q jobs ≡ some old
    → find (has_id old.id) jobs ≡ some old
find-own_id q [] h e = cc
find-own_id q (j ∷ jobs) {old} (new, _, h) e = elim (Bool-cases (q j)) [
  | inl here ↦ let same : j ≡ old = ground arith in rw (← same, find, text_eq_refl j.id) refl
  | inr later ↦
      let behind : find q jobs ≡ some old = rw (later, find) at e in
      let apart : text_eq j.id old.id ≡ false = ground (
        arith,
        text_eq_iff j.id old.id,
        text_eq_iff old.id j.id,
        any_of_find (has_id j.id) q jobs behind,
      ) in
      rw (apart, find) (find-own_id q jobs h behind)
]

pub create-IsNext :
    (known : Bool) (j : CreateJobInput) (jobs jobs' : List JobRow) (c : Created)
    → 1 ≤ j.dispatch_seq
    → IsKeyed jobs
    → create known j jobs ≡ some (c, jobs')
    → IsNext c.id c.dispatch_seq jobs jobs'
create-IsNext known j jobs jobs' c low h e = elim (Option-cases (find (key j) jobs)) [
  | inl fresh ↦
      let (table, id, seq) = create_fresh known j jobs c jobs' fresh e in
      let gone = (find-none_iff (has_id j.id) jobs).1 (create_new_id known j jobs jobs' c e) in
      let before : returned_seq c.id jobs ≡ 0 = rw (id, gone) in
      let after : returned_seq c.id jobs' ≡ j.dispatch_seq =
        rw (table, id) (rw (text_eq_refl j.id, find)) in
      (omega arith, seq ∙ sym after)
  | inr (old, there) ↦
      let (table, id, seq) = create_again known j jobs c jobs' old there e in
      let f = reissue_row j.created_at in
      let k = reissue_row-KeepsKeys j.created_at in
      let own = find-own_id (key j) jobs h there in
      let after : find (has_id old.id) (update (key j) f jobs) ≡ some (f old) =
        find-update (key j) (has_id old.id) f (has_id-same (key j) f k old.id) jobs
        ∙ rw (own, patched, patch, find_sound (key j) jobs there) in
      let seq_before : returned_seq c.id jobs ≡ old.dispatch_seq = rw (id, own) in
      let seq_after : returned_seq c.id jobs' ≡ old.dispatch_seq + 1 = rw (table, id) (rw after) in
      (omega arith, seq ∙ sym seq_after)
]
