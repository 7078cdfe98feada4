-- ===== src/Db/JobItems.antt =====
-- worker/src/db/jobItems.ts over the table `job_items`.
use entra_shift.Common.{
  ℕ, ◌+◌, Bool, true, false, List, [], ◌∷◌, Text, text_eq, ltb, length, select, order_by,
}
use entra_shift.Contracts.{Instant, ItemStatus, JobItem, ItemLog}

abbrev pub of_job : Text → JobItem → Bool
of_job job_id i = text_eq i.job_id job_id

-- `insertBatch`, with the fresh ids for the rows in order: `ids n` is the one drawn after `n` others.
unfoldable pub insert_batch :
    (ℕ → Text) → Text → Instant → List ItemLog → List JobItem → List JobItem
insert_batch ids job_id now [] items = items
insert_batch ids job_id now (it ∷ its) items =
    record {
      id = ids 0;
      job_id = job_id;
      item_id = it.item_id;
      folder_path = it.folder_path;
      status = it.status;
      error_class = it.error_class;
      error_detail = it.error_detail;
      created_at = now;
    }
    ∷ insert_batch (λ n. ids (n + 1)) job_id now its items

-- `listByJob`, `ORDER BY created_at`.
abbrev pub list_by_job : Text → List JobItem → List JobItem
list_by_job job_id items =
    order_by (λ a b. ltb a.created_at b.created_at) (select (of_job job_id) items)

abbrev pub is_skipped : JobItem → Bool
is_skipped i = elim i.status [ ItemStatus.skipped ↦ true | ItemStatus.failed ↦ false ]

abbrev pub is_failed : JobItem → Bool
is_failed i = elim i.status [ ItemStatus.skipped ↦ false | ItemStatus.failed ↦ true ]

-- `countsByJob`: the sizes of the groups, skipped and failed, 0 where a group is missing.
unfoldable pub counts_by_job : Text → List JobItem → ℕ × ℕ
counts_by_job job_id items =
    let rows = select (of_job job_id) items in
    (length (select is_skipped rows), length (select is_failed rows))
