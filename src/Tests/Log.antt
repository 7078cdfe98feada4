-- ===== src/Tests/Log.antt =====
-- The audit log at a concrete input: worker/src/db/audit.ts, worker/src/routes/audit.ts.
use entra_shift.Common.{[], ◌∷◌, none, some, ◌≡◌, order_by, select, arith, text_eq}
use entra_shift.Contracts.{AuditEntry, sign_in, sign_out}
use entra_shift.Db.AuditLog.{newer, matches}
use entra_shift.Db.AuditLog.Sorted.{AreDescending}
use entra_shift.Routes.Audit.{AuditFilter, with_page, export_pages}
use entra_shift.Routes.Audit.Complete.{export_pages-order_by}

abbrev came : AuditEntry
came = record {
  id = b'1' ∷ [];
  actor_upn = b'a' ∷ [];
  action = sign_in;
  target = none;
  detail = none;
  created_at = 10;
}

abbrev went : AuditEntry
went = record came { id = b'2' ∷ []; action = sign_out; created_at = 20 }

abbrev by_a : AuditFilter
by_a = record { actor = some (b'a' ∷ []); action = none; from = none; to = none }

export_pages-order_by_example :
    (export_pages 200 by_a none (came ∷ went ∷ [])
      ≡ order_by newer (select (matches (with_page by_a none none)) (came ∷ went ∷ [])))
    × AreDescending (export_pages 200 by_a none (came ∷ went ∷ []))
unfolding text_eq
export_pages-order_by_example =
    export_pages-order_by by_a (came ∷ went ∷ []) ((λ e. absurd (omega (arith, e)), tt), (tt, tt))
      (omega arith)
