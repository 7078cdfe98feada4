-- ===== src/Web/Endpoints.antt =====
-- The endpoint bindings of web/src/lib/api.ts: what each asks. A body stands as its JSON text, and
-- `encodeURIComponent` and `URLSearchParams` are parameters.
pub mod Guarded
use entra_shift.Common.{
  Bool, true, false, List, [], ◌∷◌, ◌++◌, Option, none, some, Text, units, is_empty, if◌then◌else◌,
}
use entra_shift.Web.Page.{Method, get, post, patch, delete}

pub record AuditQuery : Type 0 where
  pub actor : Option Text
  pub action : Option Text
  pub from : Option Text
  pub to : Option Text
  pub cursor : Option Text

-- `tenants`.
pub data TenantCall : Type 0 where
  list_tenants : TenantCall
  create_tenant : (body : Text) → TenantCall
  test_tenant disconnect_tenant : (id : Text) → TenantCall
  rotate_secret : (id body : Text) → TenantCall

-- `migrationUsers`.
pub data UserCall : Type 0 where
  list_users : UserCall
  add_users import_csv : (body : Text) → UserCall
  remove_user : (id : Text) → UserCall
  update_mapping : (id body : Text) → UserCall

-- `jobs`.
pub data JobCall : Type 0 where
  create_jobs : (body : Text) → JobCall
  list_jobs : JobCall
  get_job cancel_job retry_job delta_job : (id : Text) → JobCall

pub data Call : Type 0 where
  get_me get_app_info : Call
  tenants : TenantCall → Call
  discover_users : (search cursor : Option Text) → Call
  migration_users : UserCall → Call
  provision : (body : Text) → Call
  download_passwords : (acknowledge : Bool) → Call
  jobs : JobCall → Call
  get_report export_report : (id : Text) → Call
  list_audit export_audit : AuditQuery → Call
  get_budget get_config : Call
  update_config : (body : Text) → Call

-- A request, its query apart from its path, as the server reads it.
pub record Asked : Type 0 where
  pub method : Method
  pub path : Text
  pub query : Text
  pub body : Option Text

pub record Encoding : Type 0 where
  pub component : Text → Text
  pub query : List (Text × Text) → Text

-- `if (value) q.set(key, value)`.
abbrev set : Text → Option Text → List (Text × Text) → List (Text × Text)
set key (some (c ∷ s)) q = (key, c ∷ s) ∷ q
set key _ q = q

abbrev reads : Text → Asked
reads path = record { method = get; path = path; query = []; body = none }

abbrev does : Method → Text → Option Text → Asked
does method path body = record { method = method; path = path; query = []; body = body }

-- A query that is empty leaves no question mark.
abbrev pub asks : Text → Text → Asked
asks path qs = record {
  method = get;
  path = path;
  query = if is_empty qs then [] else units "?" ++ qs;
  body = none;
}

module _ (e : Encoding) where
  abbrev pub search_query : Option Text → Option Text → Text
  search_query search cursor =
      e.query (set (units "search") search (set (units "cursor") cursor []))

  abbrev filters : AuditQuery → List (Text × Text) → List (Text × Text)
  filters q rest =
      set (units "actor") q.actor
        (set (units "action") q.action (set (units "from") q.from (set (units "to") q.to rest)))

  abbrev pub audit_query : AuditQuery → Text
  audit_query q = e.query (filters q (set (units "cursor") q.cursor []))

  abbrev pub export_query : AuditQuery → Text
  export_query q = e.query (filters q [])

  abbrev below : Text → Text → Text → Text
  below base id rest = base ++ e.component id ++ rest

  abbrev tenant : Text → Text → Text
  tenant = below (units "/api/tenants/")

  abbrev user : Text → Text → Text
  user = below (units "/api/migration-users/")

  abbrev job : Text → Text → Text
  job = below (units "/api/jobs/")

  unfoldable pub tenant_asked : TenantCall → Asked
  unfolding units
  tenant_asked list_tenants = reads (units "/api/tenants")
  tenant_asked (create_tenant body) = does post (units "/api/tenants") (some body)
  tenant_asked (test_tenant id) = does post (tenant id (units "/test")) none
  tenant_asked (rotate_secret id body) = does post (tenant id (units "/secret")) (some body)
  tenant_asked (disconnect_tenant id) = does delete (tenant id []) none

  unfoldable pub user_asked : UserCall → Asked
  unfolding units
  user_asked list_users = reads (units "/api/migration-users")
  user_asked (add_users body) = does post (units "/api/migration-users") (some body)
  user_asked (import_csv body) = does post (units "/api/migration-users/import") (some body)
  user_asked (remove_user id) = does delete (user id []) none
  user_asked (update_mapping id body) = does patch (user id (units "/mapping")) (some body)

  unfoldable pub job_asked : JobCall → Asked
  unfolding units
  job_asked (create_jobs body) = does post (units "/api/jobs") (some body)
  job_asked list_jobs = reads (units "/api/jobs")
  job_asked (get_job id) = reads (job id [])
  job_asked (cancel_job id) = does post (job id (units "/cancel")) none
  job_asked (retry_job id) = does post (job id (units "/retry")) none
  job_asked (delta_job id) = does post (job id (units "/delta")) none

  unfoldable pub asked : Call → Asked
  unfolding units tenant_asked user_asked job_asked
  asked (tenants c) = tenant_asked c
  asked (migration_users c) = user_asked c
  asked (jobs c) = job_asked c
  asked get_me = reads (units "/api/me")
  asked get_app_info = reads (units "/api/app-info")
  asked (discover_users search cursor) =
      asks (units "/api/discovery/users") (search_query search cursor)
  asked (provision body) = does post (units "/api/provision") (some body)
  asked (download_passwords acknowledge) =
      asks (units "/api/passwords/download")
        (units "acknowledge=" ++ (if acknowledge then units "true" else units "false"))
  asked (get_report id) = reads (below (units "/api/reports/") id [])
  asked (export_report id) = reads (below (units "/api/reports/") id (units "/export"))
  asked (list_audit q) = asks (units "/api/audit") (audit_query q)
  asked (export_audit q) = asks (units "/api/audit/export") (export_query q)
  asked get_budget = reads (units "/api/budget")
  asked get_config = reads (units "/api/config")
  asked (update_config body) = does patch (units "/api/config") (some body)
