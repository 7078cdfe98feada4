-- ===== src/Budget/Counters.antt =====
-- What the governor of worker/src/lib/budget.ts counts.
use entra_shift.Common.{
  ℕ, ◌+◌, ◌≡◌, refl, ◌∙◌, Bool, false, List, [], ◌∷◌, Option, some, arith, find, update, patch,
  patched, find-update, find_sound, Option-cases, Bool-cases, inl, inr, ◌==◌, eq_self,
  if◌then◌else◌,
}
use entra_shift.Contracts.{Instant}
use entra_shift.Db.{Database}
use entra_shift.Db.Budget.{
  BudgetRow, Usage, get_today, increment, set_degraded, today_utc, on_day, add_usage,
}
use entra_shift.Budget.{limits, is_degraded_at_soft, same, record_usage, record_all}

abbrev pub today : Instant → Database → BudgetRow
today now db = get_today now db.budget_counters

-- The row of another day, or of none.
abbrev row_of : ℕ → List BudgetRow → Option BudgetRow
row_of day rows = find (on_day day) rows

-- An update of the rows of a day that keeps the day.
update-row_of :
    (day : ℕ) (f : BudgetRow → BudgetRow) (rows : List BudgetRow) (r : BudgetRow)
    → ((x : BudgetRow) → (f x).day ≡ x.day)
    → row_of day rows ≡ some r
    → row_of day (update (on_day day) f rows) ≡ some (f r)
update-row_of day f rows r k found =
    find-update (on_day day) (on_day day) f (λ x. rw (k x)) rows
    ∙ rw (found, patched, patch, find_sound (on_day day) rows found)

increment-today :
    (u : Usage) (now : Instant) (rows : List BudgetRow)
    → let (row, rows') = increment u now rows in
      (row ≡ add_usage u (get_today now rows)) × (row_of (today_utc now) rows' ≡ some row)
unfolding increment get_today
increment-today u now rows = elim (Option-cases (row_of (today_utc now) rows)) [
  | inl missing ↦
      (rw (missing, increment) refl, rw (missing, increment, eq_self (today_utc now), find) refl)
  | inr (r, found) ↦ (
    rw (found, increment) refl,
    rw (found, increment) (update-row_of (today_utc now) (add_usage u) rows r (λ x. refl) found),
  )
]

abbrev flagged : Bool → Instant → BudgetRow → List BudgetRow → List BudgetRow
flagged flag now row rows = if same flag row.degraded then rows else set_degraded flag now rows

flagged-row_of :
    (flag : Bool) (now : Instant) (row : BudgetRow) (rows : List BudgetRow)
    → row_of (today_utc now) rows ≡ some row
    → row_of (today_utc now) (flagged flag now row rows) ≡ some (record row { degraded = flag })
unfolding set_degraded
flagged-row_of flag now row rows found = elim (Bool-cases (same flag row.degraded)) [
  | inl agree ↦ let e : flag ≡ row.degraded = ground arith in rw (agree, e) found
  | inr differ ↦
      rw differ (
        update-row_of (today_utc now) (λ r. record r { degraded = flag }) rows row (λ x. refl)
          found)
]

-- The counters of the day grow by exactly what is recorded, and the flag afterwards says whether
-- one of the new counts has reached its soft threshold, whatever it said before.
pub record_usage-get_today :
    (u : Usage) (now : Instant) (db : Database)
    → let after = add_usage u (today now db) in
      let flag = is_degraded_at_soft after (limits db.config) in
      let (answer, db') = record_usage u now db in
      (answer ≡ flag) × (today now db' ≡ record after { degraded = flag })
unfolding record_usage get_today
record_usage-get_today u now db =
    let (row, rows) = increment u now db.budget_counters in
    let (counted, there) = increment-today u now db.budget_counters in
    let flag = is_degraded_at_soft row (limits db.config) in
    (rw counted refl, rw (flagged-row_of flag now row rows there) (rw counted refl))

abbrev pub sum_usage : List Usage → Usage
sum_usage [] = record { workers = 0; d1_writes = 0; queue_ops = 0 }
sum_usage (u ∷ us) =
    let rest = sum_usage us in
    record {
      workers = u.workers + rest.workers;
      d1_writes = u.d1_writes + rest.d1_writes;
      queue_ops = u.queue_ops + rest.queue_ops;
    }

-- Recording leaves the limits alone.
pub record_all-config :
    (us : List Usage) (now : Instant) (db : Database) → (record_all us now db).config ≡ db.config
unfolding record_all record_usage
record_all-config [] now db = refl
record_all-config (u ∷ us) now db = record_all-config us now db

pub record_all-counts :
    (us : List Usage) (now : Instant) (db : Database)
    → let r = today now (record_all us now db) in
      let before = today now db in
      let sum = sum_usage us in
      (r.workers_requests ≡ before.workers_requests + sum.workers)
      × (r.d1_writes ≡ before.d1_writes + sum.d1_writes)
      × (r.queue_ops ≡ before.queue_ops + sum.queue_ops)
unfolding record_all
record_all-counts [] now db = (omega arith, omega arith, omega arith)
record_all-counts (u ∷ us) now db =
    let (w, d, q) = record_all-counts us now db in
    let e = (record_usage-get_today u now (record_all us now db)).1 in
    (rw e (omega arith), rw e (omega arith), rw e (omega arith))

-- The uses that a request hands to `waitUntil` raise the counters of the day by their sums, none
-- lost and none twice; and once one is recorded, the flag says whether a count has reached its
-- soft threshold.
pub record_all-get_today :
    (u : Usage) (us : List Usage) (now : Instant) (db : Database)
    → let r = today now (record_all (u ∷ us) now db) in
      let before = today now db in
      let sum = sum_usage (u ∷ us) in
      (r.workers_requests ≡ before.workers_requests + sum.workers)
      × (r.d1_writes ≡ before.d1_writes + sum.d1_writes)
      × (r.queue_ops ≡ before.queue_ops + sum.queue_ops)
      × (r.degraded ≡ is_degraded_at_soft r (limits db.config))
unfolding record_all
record_all-get_today u us now db =
    let (w, d, q) = record_all-counts (u ∷ us) now db in
    let e = (record_usage-get_today u now (record_all us now db)).1 in (w, d, q, flag e)
  where
    flag :
        today now (record_all (u ∷ us) now db)
          ≡ record (add_usage u (today now (record_all us now db))) {
            degraded =
                is_degraded_at_soft
                  (add_usage u (today now (record_all us now db)))
                  (limits (record_all us now db).config);
          }
        → (today now (record_all (u ∷ us) now db)).degraded
          ≡ is_degraded_at_soft (today now (record_all (u ∷ us) now db)) (limits db.config)
    flag e = rw (e, record_all-config us now db) refl

update-other_day :
    (day other : ℕ) (f : BudgetRow → BudgetRow) (rows : List BudgetRow)
    → ((x : BudgetRow) → (f x).day ≡ x.day)
    → (day == other) ≡ false
    → row_of day (update (on_day other) f rows) ≡ row_of day rows
update-other_day day other f rows k apart =
    find-update (on_day other) (on_day day) f (λ x. rw (k x)) rows
    ∙ elim (Option-cases (row_of day rows)) [
      | inl missing ↦ rw (missing, patched)
      | inr (r, found) ↦
          let hit = find_sound (on_day day) rows found in
          let miss : (r.day == other) ≡ false = ground arith in rw (found, patched, patch, miss)
    ]

-- The counters of other days are not touched.
pub record_usage-other_day :
    (u : Usage) (now : Instant) (db : Database) (day : ℕ)
    → (day == today_utc now) ≡ false
    → row_of day (record_usage u now db).1.budget_counters ≡ row_of day db.budget_counters
unfolding record_usage increment set_degraded
record_usage-other_day u now db day other =
    let (row, rows) = increment u now db.budget_counters in
    flagged-other (is_degraded_at_soft row (limits db.config)) row rows ∙ increment-other
  where
    flagged-other :
        (flag : Bool) (row : BudgetRow) (rows : List BudgetRow)
        → row_of day (flagged flag now row rows) ≡ row_of day rows
    flagged-other flag row rows = elim (Bool-cases (same flag row.degraded)) [
      | inl agree ↦ rw agree
      | inr differ ↦ rw differ (
          update-other_day day (today_utc now) (λ r. record r { degraded = flag }) rows (λ x. refl)
            other)
    ]

    increment-other :
        row_of day (increment u now db.budget_counters).1 ≡ row_of day db.budget_counters
    increment-other = elim (Option-cases (row_of (today_utc now) db.budget_counters)) [
      | inl missing ↦
          let apart : (today_utc now == day) ≡ false = ground arith in
          rw (missing, increment, apart, find)
      | inr (r, found) ↦
          rw (found, increment)
            (update-other_day day (today_utc now) (add_usage u) db.budget_counters (λ x. refl)
              other)
    ]
