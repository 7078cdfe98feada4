-- ===== src/Routes/Tenants/Tested.antt =====
-- What a test of a connection leaves in the tenant's row (worker/src/routes/tenants.ts).
use entra_shift.Common.{◌≡◌, ◌↔◌, true, List, some, Text, All, find}
use entra_shift.Contracts.{Instant}
use entra_shift.Db.Tenants.{TenantRow, TenantStatus, connected, has_id}
use entra_shift.App.{World, App}
use entra_shift.App.Triple.{Triple}
use entra_shift.Graph.{Graph}
use entra_shift.Graph.Client.{ConnectionTestResult}
use entra_shift.Graph.Client.Consent.{IsJudged}

-- Everything that the role needs is granted.
abbrev pub IsGranted : ConnectionTestResult → Type 0
IsGranted result = (result.token_acquired ≡ true) × All (λ s. s.granted ≡ true) result.scopes

-- The row had a test at `now`, was judged by its role's permissions, and is connected exactly if all
-- of them are granted.
pub record IsTested (id : Text) (now : Instant) (old new : List TenantRow)
    (result : ConnectionTestResult) : Type 0 where
  pub row : TenantRow
  pub status : TenantStatus
  pub there : find (has_id id) old ≡ some row
  pub written :
      find (has_id id) new ≡ some (record row { status = status; last_tested_at = some now })
  pub judged : IsJudged row.role result
  pub connected_iff : (status ≡ connected) ↔ IsGranted result

abbrev Any : World → Type 0
Any w = Unit

module _ (id : Text) (old : World) where
  abbrev Before : World → Type 0
  Before w = (w.db.tenants ≡ old.db.tenants) × (w.now ≡ old.now)

  abbrev Done : ConnectionTestResult → World → Type 0
  Done result w = IsTested id old.now old.db.tenants w.db.tenants result
