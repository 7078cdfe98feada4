-- ===== src/Web/Mapping.antt =====
-- web/src/screens/MappingProvisioning.tsx: which rows the screen works on and what it sends.
pub mod AutoCreate
use entra_shift.Common.{
  ℕ, Bool, true, false, not, ◌&&◌, ◌||◌, List, [], ◌∷◌, Option, none, some, Text, length, select,
  map, is_empty, if◌then◌else◌,
}
use entra_shift.Contracts.{
  MappingStatus, unmapped, mapped, auto_create, provisioned, invalid, MigrationUser,
}
use entra_shift.Routes.Mapping.{MappingChange, is_given}

abbrev pub is_mapped : MappingStatus → Bool
is_mapped mapped = true
is_mapped provisioned = true
is_mapped _ = false

abbrev pub is_provisioned : MappingStatus → Bool
is_provisioned provisioned = true
is_provisioned _ = false

-- `autoCreateCount`.
unfoldable pub auto_create_count : List MigrationUser → ℕ
auto_create_count rows = length (select (λ r. r.auto_create_target) rows)

abbrev pub is_ready : MigrationUser → Bool
is_ready r = is_mapped r.mapping_status && (r.migrate_exchange || r.migrate_one_drive)

-- `readyToRun`.
unfoldable pub ready_to_run : List MigrationUser → List MigrationUser
ready_to_run = select is_ready

-- The body that `setAutoCreate` sends.
unfoldable pub set_auto_create : MigrationUser → Bool → MappingChange
set_auto_create u next = record {
  target_email = some u.target_email;
  target_upn = u.target_upn;
  mapping_status =
      some (if next then auto_create else if is_given u.target_upn then mapped else unmapped);
}

-- The ids that `provisionAutoCreate` sends, none if there is nothing to do.
unfoldable pub ids_to_provision : List MigrationUser → List Text
ids_to_provision rows =
    map (λ r. r.id)
      (select (λ r. r.auto_create_target && not (is_provisioned r.mapping_status)) rows)

-- The ids that `startMigration` sends, none if there is nothing to do.
unfoldable pub ids_to_start : List MigrationUser → List Text
unfolding ready_to_run
ids_to_start rows = map (λ r. r.id) (ready_to_run rows)
