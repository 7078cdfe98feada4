-- ===== src/Contracts.antt =====
-- shared/contracts.ts: the enumerations, records and messages that the control plane, the engine
-- and the browser exchange. An instant is the number of milliseconds since 1970; `null` and a
-- missing field are `none`, and a field that may be missing or null is an option of an option.
use entra_shift.Common.{ℕ, Bool, true, false, List, Option, Text}
use entra_shift.Numbers.{Number}

abbrev pub Instant : Type 0
Instant = ℕ

pub data TenantRole : Type 0 where
  source destination : TenantRole

pub data Workload : Type 0 where
  exchange onedrive : Workload

-- The column holds any text that the engine sends; `unlisted` is one that is no known status.
pub data JobStatus : Type 0 where
  queued provisioning running backing_off delta_pending delta_running : JobStatus
  completed cancelled paused : JobStatus
  auth_expired permission_revoked quota_exceeded failed : JobStatus
  unlisted : Text → JobStatus

-- Membership in `TERMINAL_STATUSES`.
abbrev pub is_terminal : JobStatus → Bool
is_terminal completed = true
is_terminal cancelled = true
is_terminal auth_expired = true
is_terminal permission_revoked = true
is_terminal quota_exceeded = true
is_terminal failed = true
is_terminal _ = false

pub data ItemStatus : Type 0 where
  skipped failed : ItemStatus

pub data MappingStatus : Type 0 where
  unmapped mapped auto_create provisioned invalid : MappingStatus

pub record MigrationUser : Type 0 where
  pub id : Text
  pub source_email : Text
  pub target_email : Option Text
  pub target_upn : Option Text
  pub migrate_exchange : Bool
  pub migrate_one_drive : Bool
  pub auto_create_target : Bool
  pub include_archive : Bool
  pub mapping_status : MappingStatus
  pub created_at : Instant

-- A checkpoint and a delta token are opaque; the first is carried as its JSON text.
pub record Job : Type 0 where
  pub id : Text
  pub migration_user_id : Text
  pub source_email : Text
  pub target_upn : Text
  pub workload : Workload
  pub status : JobStatus
  pub phase_text : Option Text
  pub progress_current : ℕ
  pub progress_total : Option ℕ
  pub bytes_done : ℕ
  pub bytes_total : Option ℕ
  pub delta_token : Option Text
  pub checkpoint : Option Text
  pub attempts : ℕ
  pub error_class : Option Text
  pub error_detail : Option Text
  pub created_at : Instant
  pub updated_at : Instant
  pub started_at : Option Instant
  pub completed_at : Option Instant

pub record JobItem : Type 0 where
  pub id : Text
  pub job_id : Text
  pub item_id : Text
  pub folder_path : Option Text
  pub status : ItemStatus
  pub error_class : Text
  pub error_detail : Text
  pub created_at : Instant

pub data Pass : Type 0 where
  full delta : Pass

pub record JobDispatchMessage : Type 0 where
  pub job_id : Text
  pub migration_user_id : Text
  pub workload : Workload
  pub source_email : Text
  pub target_upn : Text
  pub include_archive : Bool
  pub pass : Pass
  pub dispatch_seq : ℕ

pub record VmTokenRequest : Type 0 where
  pub tenant_role : Option TenantRole
  pub scope : Option Text

pub record VmTokenResponse : Type 0 where
  pub access_token : Text
  pub expires_at : Instant
  pub tenant_id : Text

-- The bodies that the engine posts. A status that is missing or empty is `none`.
pub record ProgressUpdate : Type 0 where
  pub status : Option JobStatus
  pub phase_text : Option Text
  pub progress_current : Option ℕ
  pub progress_total : Option (Option ℕ)
  pub bytes_done : Option ℕ
  pub bytes_total : Option (Option ℕ)
  pub delta_token : Option (Option Text)

pub record CheckpointUpdate : Type 0 where
  pub checkpoint : Option Text
  pub progress_current : Option ℕ
  pub bytes_done : Option ℕ

pub record StatusUpdate : Type 0 where
  pub status : Option JobStatus
  pub error_class : Option Text
  pub error_detail : Option Text

pub record ItemLog : Type 0 where
  pub item_id : Text
  pub folder_path : Option Text
  pub status : ItemStatus
  pub error_class : Text
  pub error_detail : Text

-- `none` where `items` is no array.
pub record ItemLogBatch : Type 0 where
  pub items : Option (List ItemLog)

pub record EngineConfig : Type 0 where
  pub min_poll_interval_sec : Number
  pub per_mailbox_concurrency : Number
  pub per_tenant_concurrency : Number
  pub exchange_export_batch_size : Number
  pub onedrive_upload_session_threshold_bytes : Number
  pub item_max_retries : Number
  pub paused : Bool

pub record Gauge : Type 0 where
  pub used : ℕ
  pub limit : Number

pub record FreeTierBudget : Type 0 where
  pub day : ℕ
  pub workers : Gauge
  pub d1_writes : Gauge
  pub queue_ops : Gauge
  pub degraded : Bool

pub record WorkloadReport : Type 0 where
  pub workload : Workload
  pub status : JobStatus
  pub items_succeeded : ℕ
  pub items_skipped : ℕ
  pub items_failed : ℕ
  pub bytes : ℕ
  pub duration_sec : Option ℕ
  pub delta_passes : ℕ

pub record PerUserReport : Type 0 where
  pub migration_user_id : Text
  pub source_email : Text
  pub target_upn : Text
  pub workloads : List WorkloadReport

pub data AuditAction : Type 0 where
  sign_in sign_out tenant_connect tenant_disconnect tenant_test secret_rotate : AuditAction
  user_select csv_import mapping_change provision password_csv_download : AuditAction
  job_start job_cancel job_retry config_change audit_export : AuditAction

pub record AuditEntry : Type 0 where
  pub id : Text
  pub actor_upn : Text
  pub action : AuditAction
  pub target : Option Text
  pub detail : Option Text
  pub created_at : Instant
