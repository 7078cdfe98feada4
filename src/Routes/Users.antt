-- ===== src/Routes/Users.antt =====
-- worker/src/routes/users.ts: the queue of users to migrate.
pub mod Unique
use entra_shift.Common.{
  ℕ, ◌+◌, zero, suc, Bool, true, false, not, List, [], ◌∷◌, ◌++◌, Option, none, some, Text, units,
  is_empty, if◌then◌else◌, length, or_else, trim, any, coalesce,
}
use entra_shift.Csv.{decimal}
use entra_shift.Csv.Import.{ImportRow, ImportResult, Rejection, validate_import_csv}
use entra_shift.Contracts.{
  Instant, MappingStatus, unmapped, mapped, auto_create, MigrationUser, user_select, csv_import,
}
use entra_shift.Errors.{raised, validation, not_found, unexpected}
use entra_shift.Db.{remove_user}
use entra_shift.Db.Users
use entra_shift.App.{World, App, pure, gets, act, or_throw, throw_if, ◌>>=◌, ◌>>◌}
use entra_shift.App.Actions.{now_iso, uuid, write, bill_writes, audit}

-- A text that is missing or empty is false in the source.
abbrev is_truthy : Option Text → Bool
is_truthy none = false
is_truthy (some t) = not (is_empty t)

unfoldable pub derive_mapping_status : Option Text → Bool → MappingStatus
derive_mapping_status target_email auto_create_target =
    if auto_create_target then auto_create else if is_truthy target_email then mapped else unmapped

-- GET /api/migration-users.
unfoldable pub list_users : App (List MigrationUser)
list_users = gets (λ w. Users.list w.db.users)

-- `Partial<MigrationUser>`, where `null` counts as missing, as `??` and `Boolean` treat it.
pub record PartialUser : Type 0 where
  pub id : Option Text
  pub source_email : Option Text
  pub target_email : Option Text
  pub target_upn : Option Text
  pub migrate_exchange : Option Bool
  pub migrate_one_drive : Option Bool
  pub auto_create_target : Option Bool
  pub include_archive : Option Bool
  pub mapping_status : Option MappingStatus

abbrev pub selected_user : PartialUser → Text → Text → Instant → MigrationUser
selected_user u id email now =
    let auto = or_else u.auto_create_target false in
    record {
      id = id;
      source_email = email;
      target_email = u.target_email;
      target_upn = u.target_upn;
      migrate_exchange = or_else u.migrate_exchange false;
      migrate_one_drive = or_else u.migrate_one_drive false;
      auto_create_target = auto;
      include_archive = or_else u.include_archive false;
      mapping_status = or_else u.mapping_status (derive_mapping_status u.target_email auto);
      created_at = now;
    }

abbrev given_id : Option Text → App Text
given_id none = uuid
given_id (some id) = pure id

abbrev pub present : Option Text → Option Text
present (some (c ∷ s)) = some (c ∷ s)
present _ = none

-- `input.map(…)`: the rows, or the error of the first user without an email.
unfoldable pub selected_users : List PartialUser → Instant → App (List MigrationUser)
selected_users [] now = pure []
selected_users (u ∷ us) now = do
  email ←
      or_throw (present u.source_email) (raised validation (units "each user requires sourceEmail"))
  id ← given_id u.id
  rest ← selected_users us now
  pure (selected_user u id email now ∷ rest)

-- `DB.batch(stmts)`, which throws where a statement breaks a constraint.
unfoldable pub save_users : List MigrationUser → App (Unit {0})
save_users rows = do
  saved ← gets (λ w. Users.upsert_batch rows w.db.users)
  users ← or_throw saved (unexpected (units "constraint failed"))
  write (λ db. record db { users = users })
  bill_writes (length rows)

-- POST /api/migration-users.
unfoldable pub post_users : Text → List PartialUser → App (List MigrationUser)
post_users actor input = do
  throw_if (is_empty input)
      (raised validation (units "a non-empty MigrationUser[] (or { users: [...] }) is required"))
  now ← now_iso
  rows ← selected_users input now
  save_users rows
  audit actor user_select none (some (units "added " ++ decimal (length rows) ++ units " user(s)"))
  bill_writes 1
  gets (λ w. Users.list w.db.users)

abbrev imported_user : ImportRow → Text → Instant → MigrationUser
imported_user r id now = record {
  id = id;
  source_email = r.source_email;
  target_email = r.target_email;
  target_upn = none;
  migrate_exchange = r.migrate_exchange;
  migrate_one_drive = r.migrate_one_drive;
  auto_create_target = r.auto_create_target;
  include_archive = false;
  mapping_status = derive_mapping_status r.target_email r.auto_create_target;
  created_at = now;
}

unfoldable pub imported_users : List ImportRow → Instant → App (List MigrationUser)
imported_users [] now = pure []
imported_users (r ∷ rs) now = do
  id ← uuid
  rest ← imported_users rs now
  pure (imported_user r id now ∷ rest)

-- The part of the import that is skipped where no row is accepted.
unfoldable pub save_import : List ImportRow → App (Unit {0})
save_import accepted = do now ← now_iso; rows ← imported_users accepted now; save_users rows

-- POST /api/migration-users/import: the number of accepted rows, and the rejected ones.
unfoldable pub import_users : Text → Text → App (ℕ × List Rejection)
import_users actor csv = do
  throw_if (is_empty (trim csv)) (raised validation (units "Empty CSV body"))
  result ←
      gets (λ w. validate_import_csv w.runtime.to_lower csv (Users.list_source_emails w.db.users))
  if is_empty result.accepted then pure tt else save_import result.accepted
  audit actor csv_import none (
      some (
        units "accepted "
        ++ decimal (length result.accepted)
        ++ units ", rejected "
        ++ decimal (length result.rejected)))
  bill_writes 1
  pure (length result.accepted, result.rejected)

-- DELETE /api/migration-users/:id.
unfoldable pub delete_user : Text → Text → App (Unit {0})
delete_user actor id = do
  existing ← gets (λ w. Users.get_by_id id w.db.users)
  user ← or_throw existing (raised not_found (units "Migration user not found"))
  write (remove_user id)
  bill_writes 1
  audit actor user_select (some user.source_email) (some (units "removed"))
  bill_writes 1
