-- ===== src/Middleware/ProgressFloor.antt =====
-- `progressFloor` of worker/src/middleware/budget.ts: at most one progress write for a job in each
-- `MIN_POLL_INTERVAL_SEC` seconds.
pub mod Spacing
use entra_shift.Common.{
  ℕ, ◌+◌, ◌-◌, ◌*◌, ◌/◌, Bool, true, false, Option, none, some, Text, units, ◌==◌, ltb,
  if◌then◌else◌, is_empty, ◌++◌, List,
}
use entra_shift.Numbers.{Number, whole, parse_number, number_text}
use entra_shift.Contracts.{Instant}
use entra_shift.Errors.{Thrown, raised, validation, not_found, rate_limited}
use entra_shift.Db.Jobs

-- `Number(…) || 30`.
unfoldable pub min_interval : Text → Number
min_interval text = elim (parse_number text) [
  | none ↦ whole 30
  | some n ↦ if n.numer == 0 then whole 30 else n
]

-- `elapsedSec < min`, multiplied out: the instants are in milliseconds.
abbrev pub too_soon : Number → Instant → Instant → Bool
too_soon least last now = ltb (now * least.denom) (last * least.denom + least.numer * 1000)

-- `Math.ceil(min - elapsedSec)`.
abbrev pub retry_after : Number → Instant → Instant → ℕ
retry_after least last now =
    let unit = 1000 * least.denom in
    (last * least.denom + least.numer * 1000 - now * least.denom + (unit - 1)) / unit

-- What the guard says: the call passes, or it is refused, with a `Retry-After` header or without.
pub data Verdict : Type 0 where
  pass : Verdict
  refuse : Thrown → Verdict
  wait : ℕ → Thrown → Verdict

abbrev pub floor_error : Number → Thrown
floor_error least =
    raised rate_limited
      (units "Progress updates limited to 1 per " ++ number_text least ++ units "s for this job")

-- The guard, on the text of the setting.
unfoldable pub progress_floor : Text → Text → Instant → List Jobs.JobRow → Verdict
unfolding min_interval
progress_floor setting id now jobs =
    if is_empty id
    then refuse (raised validation (units "Missing job id"))
    else elim (Jobs.get_internal id jobs) [
      | none ↦ refuse (raised not_found (units "Job not found"))
      | some job ↦ elim job.last_progress_at [
        | none ↦ pass
        | some last ↦
            let least = min_interval setting in
            if too_soon least last now
            then wait (retry_after least last now) (floor_error least)
            else pass
      ]
    ]
