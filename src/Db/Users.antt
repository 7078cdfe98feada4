-- ===== src/Db/Users.antt =====
-- worker/src/db/migrationUsers.ts over the table `migration_users`. A row is the record
-- `MigrationUser`: `map` only renames the columns and reads 1 as true.
use entra_shift.Common.{
  Bool, List, [], ◌∷◌, map, Option, none, some, Text, text_eq, if◌then◌else◌, ltb, any, find,
  update, delete, order_by,
}
use entra_shift.Contracts.{MappingStatus, MigrationUser}

abbrev pub has_id : Text → MigrationUser → Bool
has_id id u = text_eq u.id id

abbrev pub has_email : Text → MigrationUser → Bool
has_email email u = text_eq u.source_email email

-- `ORDER BY created_at`.
abbrev pub list : List MigrationUser → List MigrationUser
list = order_by (λ a b. ltb a.created_at b.created_at)

abbrev pub get_by_id : Text → List MigrationUser → Option MigrationUser
get_by_id id = find (has_id id)

abbrev pub list_source_emails : List MigrationUser → List Text
list_source_emails = map (λ u. u.source_email)

-- `DO UPDATE SET`: the row keeps its id and its creation.
abbrev pub merge : MigrationUser → MigrationUser → MigrationUser
merge u old = record u { id = old.id; source_email = old.source_email; created_at = old.created_at }

-- `upsertStmt`; none if the statement breaks the primary key.
unfoldable pub upsert : MigrationUser → List MigrationUser → Option (List MigrationUser)
upsert u users =
    if any (has_email u.source_email) users
    then some (update (has_email u.source_email) (merge u) users)
    else if any (has_id u.id) users
    then none
    else some (u ∷ users)

-- `DB.batch(stmts)`: all statements, or none of them.
unfoldable pub upsert_batch : List MigrationUser → List MigrationUser → Option (List MigrationUser)
upsert_batch [] users = some users
upsert_batch (u ∷ us) users = elim (upsert u users) [
  | none ↦ none
  | some users' ↦ upsert_batch us users'
]

unfoldable pub update_mapping :
    Text → Option Text → Option Text → MappingStatus → List MigrationUser → List MigrationUser
update_mapping id target_email target_upn status = update (has_id id) (λ u. record u {
  target_email = target_email;
  target_upn = target_upn;
  mapping_status = status;
})

unfoldable pub set_mapping_status : Text → MappingStatus → List MigrationUser → List MigrationUser
set_mapping_status id status = update (has_id id) (λ u. record u { mapping_status = status })

abbrev pub remove : Text → List MigrationUser → List MigrationUser
remove id = delete (has_id id)
