-- ===== src/Routes/Mapping.antt =====
-- worker/src/routes/mapping.ts: where a user is migrated to. `resolve` is what
-- `resolveDestinationUpn` finds for an address in the destination tenant, none where it is not
-- connected or cannot be reached; `patch_mapping_live` puts that function in.
pub mod Resolved
use entra_shift.Common.{
  Bool, true, false, List, [], ◌∷◌, ◌++◌, Option, none, some, Text, units, or_else, coalesce,
  is_empty, if◌then◌else◌,
}
use entra_shift.Contracts.{
  destination, MappingStatus, unmapped, mapped, auto_create, provisioned, invalid, MigrationUser,
  mapping_change,
}
use entra_shift.Errors.{raised, not_found}
use entra_shift.Db.Users
use entra_shift.Db.Tenants.{SecretMaterial, option_map}
use entra_shift.Db.Tenants
use entra_shift.App.{World, App, Result, ok, err, pure, gets, or_throw, try_catch, ◌>>=◌, ◌>>◌}
use entra_shift.Crypto.Envelope.{Cipher}
use entra_shift.Graph.{Graph}
use entra_shift.Graph.Client.{default_scope, get_user_by_email}
use entra_shift.Routes.Discovery.{token_for}
use entra_shift.App.Actions.{write, bill_writes, audit}

unfoldable pub mapping_text : MappingStatus → Text
unfolding units
mapping_text unmapped = units "unmapped"
mapping_text mapped = units "mapped"
mapping_text auto_create = units "auto_create"
mapping_text provisioned = units "provisioned"
mapping_text invalid = units "invalid"

-- The body: a target email that is missing leaves the old one, one that is null removes it.
pub record MappingChange : Type 0 where
  pub target_email : Option (Option Text)
  pub target_upn : Option Text
  pub mapping_status : Option MappingStatus

-- An empty text is false in the source.
abbrev pub is_given : Option Text → Bool
is_given none = false
is_given (some []) = false
is_given (some (c ∷ s)) = true

-- A requested `mapped` without a principal name is resolved by the address.
abbrev resolved : (Text → Option Text) → Option Text → Option Text → Option Text
resolved resolve upn email =
    if is_given upn then upn else elim email [ some (c ∷ s) ↦ resolve (c ∷ s) | _ ↦ upn ]

-- The target and the status that are stored for what is requested.
unfoldable pub settle_mapping :
    (Text → Option Text) → MappingStatus → Option Text → Option Text → Option Text × MappingStatus
settle_mapping resolve auto_create email upn =
    let upn' = coalesce upn email in (upn', if is_given upn' then auto_create else invalid)
settle_mapping resolve mapped email upn =
    let upn' = resolved resolve upn email in (upn', if is_given upn' then mapped else invalid)
settle_mapping resolve requested email upn = (upn, requested)

-- PATCH /api/migration-users/:id/mapping.
unfoldable pub patch_mapping :
    (Text → Option Text) → Text → Text → MappingChange → App (Option MigrationUser)
patch_mapping resolve actor id body = do
  found ← gets (λ w. Users.get_by_id id w.db.users)
  existing ← or_throw found (raised not_found (units "Migration user not found"))
  let email = or_else body.target_email existing.target_email
  let requested = or_else body.mapping_status existing.mapping_status
  let settled = settle_mapping resolve requested email body.target_upn
  write (λ db. record db { users = Users.update_mapping id email settled.0 settled.1 db.users })
  bill_writes 1
  audit actor mapping_change (some existing.source_email) (
      some (
        units "→ "
        ++ or_else settled.0 (units "(unresolved)")
        ++ units " ["
        ++ mapping_text settled.1
        ++ units "]"))
  bill_writes 1
  gets (λ w. Users.get_by_id id w.db.users)

abbrev answer : {A : Type 0} → Result (Option A) → Option A
answer (ok a) = a
answer (err e) = none

-- The block inside `try` of `resolveDestinationUpn`.
abbrev look_up : Cipher → Graph → SecretMaterial → Text → App (Option Text)
look_up c g m email = do
  token ← token_for c g m default_scope
  user ← get_user_by_email g token.access_token email
  pure (option_map (λ u. u.user_principal_name) user)

abbrev resolved_by : Cipher → Graph → Option SecretMaterial → Text → App (Option Text)
resolved_by c g none email = pure none
resolved_by c g (some m) email = try_catch (look_up c g m email) (λ e. pure none)

-- `resolveDestinationUpn`.
unfoldable pub resolve_destination_upn : Cipher → Graph → Text → App (Option Text)
resolve_destination_upn c g email = do
  material ← gets (λ w. Tenants.get_secret_material destination w.db.tenants)
  resolved_by c g material email

-- The handler with it: looking an address up changes nothing.
unfoldable pub patch_mapping_live :
    Cipher → Graph → Text → Text → MappingChange → App (Option MigrationUser)
patch_mapping_live c g actor id body w =
    patch_mapping (λ email. answer (resolve_destination_upn c g email w).0) actor id body w
