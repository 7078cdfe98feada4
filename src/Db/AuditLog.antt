-- ===== src/Db/AuditLog.antt =====
-- worker/src/db/audit.ts over the table `audit_log`.
pub mod Sorted
pub mod Filtered
pub mod Pages
use entra_shift.Common.{
  ℕ, ◌+◌, ◌-◌, Bool, true, ◌&&◌, List, ◌∷◌, Option, none, some, Text, text_eq, units, if◌then◌else◌,
  ltb, leb, min, max, or_else, length, take, select, delete, order_by, get_elem?,
}
use entra_shift.Contracts.{
  Instant, AuditAction, AuditEntry, sign_in, sign_out, tenant_connect, tenant_disconnect,
  tenant_test, secret_rotate, user_select, csv_import, mapping_change, provision,
  password_csv_download, job_start, job_cancel, job_retry, config_change, audit_export,
}

-- `insert`.
abbrev pub insert : AuditEntry → List AuditEntry → List AuditEntry
insert e log = e ∷ log

unfoldable pub action_text : AuditAction → Text
unfolding units
action_text sign_in = units "sign_in"
action_text sign_out = units "sign_out"
action_text tenant_connect = units "tenant_connect"
action_text tenant_disconnect = units "tenant_disconnect"
action_text tenant_test = units "tenant_test"
action_text secret_rotate = units "secret_rotate"
action_text user_select = units "user_select"
action_text csv_import = units "csv_import"
action_text mapping_change = units "mapping_change"
action_text provision = units "provision"
action_text password_csv_download = units "password_csv_download"
action_text job_start = units "job_start"
action_text job_cancel = units "job_cancel"
action_text job_retry = units "job_retry"
action_text config_change = units "config_change"
action_text audit_export = units "audit_export"

pub record AuditQuery : Type 0 where
  pub actor : Option Text
  pub action : Option Text
  pub from : Option Instant
  pub to : Option Instant
  pub cursor : Option Instant
  pub limit : Option ℕ

-- A condition that the statement has only where the filter has a value.
abbrev pub holds {ℓ} : {A : Type ℓ} → Option A → (A → Bool) → Bool
holds none p = true
holds (some a) p = p a

abbrev pub matches : AuditQuery → AuditEntry → Bool
matches q e =
    holds q.actor (λ a. text_eq e.actor_upn a)
    && holds q.action (λ a. text_eq (action_text e.action) a)
    && holds q.from (λ t. leb t e.created_at)
    && holds q.to (λ t. leb e.created_at t)
    && holds q.cursor (λ t. ltb e.created_at t)

-- `ORDER BY created_at DESC`.
abbrev pub newer : AuditEntry → AuditEntry → Bool
newer a b = ltb b.created_at a.created_at

abbrev pub page_limit : AuditQuery → ℕ
page_limit q = min (max (or_else q.limit 100) 1) 500

abbrev time_of : Option AuditEntry → Option Instant
time_of none = none
time_of (some e) = some e.created_at

-- `query`: the page, and where the next one starts.
unfoldable pub query : AuditQuery → List AuditEntry → List AuditEntry × Option Instant
query q log =
    let limit = page_limit q in
    let results = take (limit + 1) (order_by newer (select (matches q) log)) in
    let page = take limit results in
    (page, if ltb limit (length results) then time_of (get_elem? page (length page - 1)) else none)

-- `pruneOlderThan`.
unfoldable pub prune_older_than : Instant → List AuditEntry → ℕ × List AuditEntry
prune_older_than cutoff log =
    (length (select (λ e. ltb e.created_at cutoff) log), delete (λ e. ltb e.created_at cutoff) log)
