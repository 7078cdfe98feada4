-- ===== src/Tests/Users.antt =====
-- Examples for the theorems on users and their credentials.
use entra_shift.Common.{◌≡◌, refl, [], ◌∷◌, Option, none, some, Text, units, text_eq, order_by}
use entra_shift.Contracts.{MigrationUser, mapped}
use entra_shift.Errors.{raised, not_found}
use entra_shift.Db.Credentials.{CredentialRow, list_pending}
use entra_shift.App.{World, err, ◌>>=◌}
use entra_shift.App.Actions.{audit}
use entra_shift.Routes.Mapping.{MappingChange}
use entra_shift.Routes.Passwords.{download, decrypt_rows}
use entra_shift.Routes.Passwords.Once.{download-once}
use entra_shift.Routes.Users.Unique.{IsKeyed, UserRequest, serve_user, serve_user-IsKeyed}
use entra_shift.Tests.Samples.{sample_world, sample_db, sample_user}

abbrev credential : CredentialRow
credential = record {
  id = b'c' ∷ [];
  migration_user_id = b'm' ∷ [];
  target_upn = b'a' ∷ [];
  password_ciphertext = b's' ∷ [];
  password_iv = b'i' ∷ [];
  created_at = 0;
  downloaded_at = none;
}

abbrev credential_world : World
credential_world = record sample_world { db = record sample_db { credentials = credential ∷ [] } }

abbrev plain : Text → Text → Option Text
plain ciphertext iv = some ciphertext

abbrev broken : Text → Text → Option Text
broken ciphertext iv = none

abbrev actor : Text
actor = b'o' ∷ []

abbrev acknowledged : Option Text
acknowledged = some (units "true")

abbrev downloaded : World
downloaded = (download plain actor acknowledged credential_world).1

download-once_example :
    (download plain actor acknowledged (record downloaded { now = 200000 })).0
    ≡ err (raised not_found (units "No temporary passwords are pending download"))
unfolding download decrypt_rows audit list_pending text_eq units order_by ◌>>=◌
download-once_example =
    download-once plain plain actor actor acknowledged credential_world _ refl 200000

serve_user-IsKeyed_example :
    IsKeyed (serve_user (UserRequest.deleting actor (b'm' ∷ [])) sample_world).db.users
serve_user-IsKeyed_example =
    serve_user-IsKeyed (UserRequest.deleting actor (b'm' ∷ [])) sample_world (refl, refl, tt)

abbrev nobody : Text → Option Text
nobody email = none

abbrev to_b : MappingChange
to_b = record { target_email = none; target_upn = some (b'b' ∷ []); mapping_status = some mapped }

abbrev mapped_user : MigrationUser
mapped_user = record sample_user { target_upn = some (b'b' ∷ []) }
