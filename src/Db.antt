-- ===== src/Db.antt =====
-- The tables of the control plane (worker/migrations/0001_init.sql, worker/src/db).
pub mod Jobs
pub mod Users
pub mod JobView
pub mod Budget
pub mod Sessions
pub mod JobItems
pub mod Credentials
pub mod AuditLog
pub mod ConfigTable
pub mod Tenants
use entra_shift.Common.{List, Text, text_eq, any, delete, ◌&&◌}
use entra_shift.Contracts.{MigrationUser, JobItem, AuditEntry}
use Jobs.{JobRow}
use Budget.{BudgetRow}
use Sessions.{SessionRecord, AuthFlowRecord}
use Credentials.{CredentialRow}
use ConfigTable.{ConfigMap}
use Tenants.{TenantRow}

pub record Database : Type 0 where
  pub sessions : List SessionRecord
  pub auth_flow : List AuthFlowRecord
  pub users : List MigrationUser
  pub jobs : List JobRow
  pub job_items : List JobItem
  pub credentials : List CredentialRow
  pub audit_log : List AuditEntry
  pub budget_counters : List BudgetRow
  pub config : ConfigMap
  pub tenants : List TenantRow

-- `DELETE FROM migration_users`, with the rows that `ON DELETE CASCADE` takes along: the user's jobs,
-- their items, and the user's credentials.
unfoldable pub remove_user : Text → Database → Database
remove_user id db = record db {
  users = Users.remove id db.users;
  jobs = delete (λ j. text_eq j.migration_user_id id) db.jobs;
  job_items =
      delete (λ i. any (λ j. text_eq j.id i.job_id && text_eq j.migration_user_id id) db.jobs)
        db.job_items;
  credentials = delete (λ c. text_eq c.migration_user_id id) db.credentials;
}
