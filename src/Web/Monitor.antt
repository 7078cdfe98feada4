-- ===== src/Web/Monitor.antt =====
-- web/src/screens/MigrationMonitor.tsx: which actions the screen offers on a job, next to what the
-- Worker does about them.
use entra_shift.Common.{Bool, true, false, not, Text, ◌≡◌}
use entra_shift.Contracts.{
  JobStatus, delta_pending, completed, cancelled, auth_expired, permission_revoked, quota_exceeded,
  failed,
}
use entra_shift.Errors.{Thrown}
use entra_shift.App.{World, err}
use entra_shift.Routes.Jobs.{retry}

-- `RETRYABLE`.
abbrev pub can_retry : JobStatus → Bool
can_retry auth_expired = true
can_retry permission_revoked = true
can_retry quota_exceeded = true
can_retry failed = true
can_retry cancelled = true
can_retry _ = false

-- `DELTA_ELIGIBLE`.
abbrev pub can_delta : JobStatus → Bool
can_delta completed = true
can_delta delta_pending = true
can_delta _ = false

-- `TERMINAL`.
abbrev pub terminal : JobStatus → Bool
terminal completed = true
terminal cancelled = true
terminal auth_expired = true
terminal permission_revoked = true
terminal quota_exceeded = true
terminal failed = true
terminal _ = false

abbrev pub can_cancel : JobStatus → Bool
can_cancel status = not (terminal status)

-- The Worker turned the request down, and nothing of its state changed.
abbrev pub IsRefused : Text → Text → World → Type 0
IsRefused actor id w = ((x : Thrown) × ((retry actor id w).0 ≡ err x)) × ((retry actor id w).1 ≡ w)
