-- ===== src/Tests/Samples.antt =====
-- A small world that the examples start from.
use entra_shift.Common.{true, false, [], ◌∷◌, none, some}
use entra_shift.Contracts.{MigrationUser, exchange, JobStatus, mapped}
use entra_shift.Db.{Database}
use entra_shift.Db.Jobs.{JobRow}
use entra_shift.App.{Runtime, Vars, World}

abbrev pub sample_runtime : Runtime
sample_runtime = record {
  uuid = λ n. b'u' ∷ n ∷ [];
  token = λ n. b't' ∷ n ∷ [];
  random_bytes = λ n. [];
  sha256_hex = λ t. b'#' ∷ t;
  to_lower = λ t. t;
  to_upper = λ t. t;
}

abbrev pub sample_vars : Vars
sample_vars = record {
  session_ttl_seconds = b'6' ∷ b'0' ∷ [];
  min_poll_interval_sec = b'3' ∷ b'0' ∷ [];
  allowed_group_id = [];
  dev_auth_bypass = none;
  entra_tenant_id = b'e' ∷ [];
  oidc_client_id = b'i' ∷ [];
  cf_access_team_domain = b'd' ∷ [];
  cf_access_aud = b'v' ∷ [];
  master_encryption_key = b'K' ∷ [];
}

abbrev pub sample_user : MigrationUser
sample_user = record {
  id = b'm' ∷ [];
  source_email = b'a' ∷ b'@' ∷ b'x' ∷ [];
  target_email = none;
  target_upn = some (b'a' ∷ b'@' ∷ b'y' ∷ []);
  migrate_exchange = true;
  migrate_one_drive = true;
  auto_create_target = false;
  include_archive = false;
  mapping_status = mapped;
  created_at = 0;
}

abbrev pub sample_job : JobRow
sample_job = record {
  id = b'j' ∷ [];
  migration_user_id = b'm' ∷ [];
  workload = exchange;
  status = JobStatus.failed;
  phase_text = none;
  progress_current = 7;
  progress_total = none;
  bytes_done = 9;
  bytes_total = none;
  delta_token = none;
  checkpoint = none;
  attempts = 0;
  dispatch_seq = 1;
  delta_passes = 0;
  last_progress_at = some 1000;
  error_class = some (b'e' ∷ []);
  error_detail = none;
  created_at = 0;
  updated_at = 0;
  started_at = none;
  completed_at = none;
}

abbrev pub sample_db : Database
sample_db = record {
  sessions = [];
  auth_flow = [];
  users = sample_user ∷ [];
  jobs = sample_job ∷ [];
  job_items = [];
  credentials = [];
  audit_log = [];
  budget_counters = [];
  config = [];
  tenants = [];
}

abbrev pub sample_world : World
sample_world = record {
  db = sample_db;
  queue = [];
  background = [];
  accounts = [];
  now = 100000;
  draws = 0;
  runtime = sample_runtime;
  vars = sample_vars;
}
