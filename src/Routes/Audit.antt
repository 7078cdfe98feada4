-- ===== src/Routes/Audit.antt =====
-- worker/src/routes/audit.ts: the log, a page at a time, and its export.
pub mod Complete
use entra_shift.Common.{
  ℕ, zero, suc, List, [], ◌∷◌, ◌++◌, map, Option, none, some, Text, units, length,
}
use entra_shift.Csv.{Cell, serialize_csv, decimal}
use entra_shift.Contracts.{Instant, AuditEntry, audit_export}
use entra_shift.Db.AuditLog.{AuditQuery, query, action_text}
use entra_shift.App.{App, pure, gets, ◌>>=◌, ◌>>◌}
use entra_shift.App.Actions.{bill_writes, audit}

-- A filter of the query string that is empty counts as missing.
pub record AuditFilter : Type 0 where
  pub actor : Option Text
  pub action : Option Text
  pub from : Option Instant
  pub to : Option Instant

abbrev pub with_page : AuditFilter → Option Instant → Option ℕ → AuditQuery
with_page f cursor limit = record {
  actor = f.actor;
  action = f.action;
  from = f.from;
  to = f.to;
  cursor = cursor;
  limit = limit;
}

-- GET /api/audit.
unfoldable pub list_audit : AuditFilter → Option Instant → App (List AuditEntry × Option Instant)
list_audit f cursor = gets (λ w. query (with_page f cursor none) w.db.audit_log)

-- The loop of the export: pages of 500 from a cursor on, at most `fuel` of them.
unfoldable pub export_pages : ℕ → AuditFilter → Option Instant → List AuditEntry → List AuditEntry
export_pages zero f cursor log = []
export_pages (suc fuel) f cursor log =
    let (entries, next) = query (with_page f cursor (some 500)) log in
    elim next [ none ↦ entries | some t ↦ entries ++ export_pages fuel f (some t) log ]

abbrev cell : Option Text → Cell
cell none = Cell.null
cell (some t) = Cell.text t

-- `iso`, a parameter, writes an instant.
abbrev export_row : (Instant → Text) → AuditEntry → List Cell
export_row iso e =
    Cell.text (iso e.created_at)
    ∷ Cell.text e.actor_upn
    ∷ Cell.text (action_text e.action)
    ∷ cell e.target
    ∷ cell e.detail
    ∷ []

abbrev header : List Text
header =
    units "CreatedAt" ∷ units "ActorUpn" ∷ units "Action" ∷ units "Target" ∷ units "Detail" ∷ []

-- GET /api/audit/export: the text of the file. The loop reads the log once a page; nothing writes to
-- it in between.
unfoldable pub export_audit : (Instant → Text) → Text → AuditFilter → App Text
export_audit iso actor f = do
  all ← gets (λ w. export_pages 200 f none w.db.audit_log)
  audit actor audit_export none
      (some (units "exported " ++ decimal (length all) ++ units " entries"))
  bill_writes 1
  pure (serialize_csv header (map (export_row iso) all))
