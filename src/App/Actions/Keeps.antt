-- ===== src/App/Actions/Keeps.antt =====
-- Conditions on a world that do not look at its random draws, its audit log and its uses.
use entra_shift.Common.{ℕ, List, Option, Text}
use entra_shift.Contracts.{AuditAction, AuditEntry}
use entra_shift.Db.Budget.{Usage}
use entra_shift.App.{World, ◌>>◌}
use entra_shift.App.Triple.{Triple, then_Triple, gets_keep, act_keep, modify_keep}
use entra_shift.App.Actions.{uuid, audit, bill_writes}

pub record IsSteady (P : World → Type 0) : Type 0 where
  pub drawn : (w : World) (n : ℕ) → P w → P (record w { draws = n })
  pub billed : (w : World) (us : List Usage) → P w → P (record w { background = us })
  pub logged :
      (w : World) (log : List AuditEntry)
      → P w
      → P (record w { db = record w.db { audit_log = log } })

-- None of these throws, so nothing is asked of a throw.
module _ {E P : World → Type 0} (s : IsSteady P) where
  pub uuid_keep : Triple E P uuid (λ _. P)
  uuid_keep = act_keep _ (λ w h. s.drawn w _ h)

  pub bill_keep : (n : ℕ) → Triple E P (bill_writes n) (λ _. P)
  bill_keep n = modify_keep _ (λ w h. s.billed w _ h)

  pub audit_keep :
      (actor : Text) (action : AuditAction) (target detail : Option Text)
      → Triple E P (audit actor action target detail) (λ _. P)
  unfolding audit
  audit_keep actor action target detail =
      then_Triple uuid_keep
        (λ id. then_Triple (gets_keep _) (λ now. modify_keep _ (λ w h. s.logged w _ h)))

  pub audit_write_keep :
      (actor : Text) (action : AuditAction) (target detail : Option Text)
      → Triple E P (audit actor action target detail >> bill_writes 1) (λ _. P)
  audit_write_keep actor action target detail =
      then_Triple (audit_keep actor action target detail) (λ _. bill_keep 1)
