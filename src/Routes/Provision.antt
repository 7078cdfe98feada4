-- ===== src/Routes/Provision.antt =====
-- worker/src/routes/provision.ts: creating destination users. A temporary password goes to Graph and,
-- encrypted, into the table of credentials.
pub mod Backed
pub mod Counted
pub mod Keeps
use entra_shift.Common.{
  Bool, true, false, List, [], ◌∷◌, ◌++◌, map, Option, none, some, Text, units, or_else, coalesce,
  is_empty, not, select, if◌then◌else◌, ◌==◌,
}
use entra_shift.Contracts.{MigrationUser, source, destination, provisioned, provision}
use entra_shift.Errors.{Thrown, raised, validation}
use entra_shift.Db.{Database}
use entra_shift.Db.Users
use entra_shift.Db.Credentials.{CredentialRow, insert}
use entra_shift.Db.Tenants.{SecretMaterial}
use entra_shift.Db.Tenants
use entra_shift.App.{World, App, pure, gets, or_throw, throw_if, try_catch, ◌>>=◌, ◌>>◌}
use entra_shift.App.Actions.{uuid, now_iso, write, bill_writes, audit}
use entra_shift.Crypto.Envelope.{Cipher}
use entra_shift.Crypto.Draws.{temp_password, encrypt}
use entra_shift.Graph.{Graph, GraphUser, ProvisionInput, CreatedUser}
use entra_shift.Graph.Client.{
  default_scope, message_of, non_empty, get_user_by_email, provision_user, pre_provision_one_drive,
}
use entra_shift.Routes.Discovery.{find_material, token_for}

pub record Outcome : Type 0 where
  pub migration_user_id : Text
  pub is_done : Bool
  pub target_upn : Option Text
  pub error : Option Text

pub record Provisioned : Type 0 where
  pub migration_user_id : Text
  pub target_upn : Text

pub record Refused : Type 0 where
  pub migration_user_id : Text
  pub reason : Text

pub record ProvisionResult : Type 0 where
  pub provisioned : List Provisioned
  pub failed : List Refused
  pub credentials_pending : Bool

-- The token of the source tenant, if there is one: without it the metadata is minimal.
abbrev pub source_token : Cipher → Graph → Option SecretMaterial → App (Option Text)
source_token c g none = pure none
source_token c g (some m) =
    try_catch (do token ← token_for c g m default_scope; pure (some token.access_token))
      (λ e. pure none)

-- `split('@')[0]`.
unfoldable pub local_part : Text → Text
local_part [] = []
local_part (c ∷ s) = if c == b'@' then [] else c ∷ local_part s

pub record Names : Type 0 where
  pub display_name : Text
  pub given_name : Option Text
  pub surname : Option Text

abbrev names_of : Text → Option GraphUser → Names
names_of fallback none = record { display_name = fallback; given_name = none; surname = none }
names_of fallback (some src) = record {
  display_name = or_else src.display_name fallback;
  given_name = src.given_name;
  surname = src.surname;
}

-- The names that the source tenant has for a user. An empty token is false in the source.
unfoldable pub enrich : Graph → Option Text → MigrationUser → App Names
enrich g source_access user = elim (non_empty source_access) [
  | none ↦ pure (names_of (local_part user.source_email) none)
  | some token ↦ do
    src ← get_user_by_email g token user.source_email
    pure (names_of (local_part user.source_email) src)
]

abbrev pub input_of : Text → Names → Text → ProvisionInput
input_of upn names password = record {
  user_principal_name = upn;
  display_name = names.display_name;
  given_name = names.given_name;
  surname = names.surname;
  mail_nickname = local_part upn;
  password = password;
}

-- The credential and the mapping of a user that was created.
unfoldable pub store : Cipher → MigrationUser → Text → Text → Text → App (Unit {0})
store c user id upn password = do
  enc ← encrypt c password
  row_id ← uuid
  now ← now_iso
  write (λ db. record db {
    credentials =
        insert
          (record {
            id = row_id;
            migration_user_id = id;
            target_upn = upn;
            password_ciphertext = enc.ciphertext;
            password_iv = enc.iv;
            created_at = now;
            downloaded_at = none;
          })
          db.credentials;
  })
  write (λ db. record db {
    users = Users.update_mapping id user.target_email (some upn) provisioned db.users;
  })

abbrev succeeded : Text → Text → Outcome
succeeded id upn = record {
  migration_user_id = id;
  is_done = true;
  target_upn = some upn;
  error = none;
}

-- The block inside `try`.
unfoldable pub create :
    Cipher → Graph → Text → Text → Option Text → Text → MigrationUser → Text → App Outcome
create c g actor dest_token source_access id user upn = do
  names ← enrich g source_access user
  password ← temp_password
  created ← provision_user g dest_token (input_of upn names password)
  pre_provision_one_drive g dest_token created.id
  store c user id upn password
  bill_writes 2
  audit actor provision (some upn) (some (units "created + credential stored"))
  bill_writes 1
  pure (succeeded id upn)

-- The block of `catch`.
unfoldable pub give_up : Text → Text → Text → Thrown → App Outcome
give_up actor id upn e = do
  audit actor provision (some upn) (some (units "FAILED: " ++ message_of e))
  bill_writes 1
  pure (record {
    migration_user_id = id;
    is_done = false;
    target_upn = some upn;
    error = some (message_of e);
  })

abbrev skipped : Text → Text → Outcome
skipped id reason = record {
  migration_user_id = id;
  is_done = false;
  target_upn = none;
  error = some reason;
}

abbrev pub target_upn_of : MigrationUser → Option Text
target_upn_of user = non_empty (coalesce user.target_upn user.target_email)

-- The body of the loop, for a row that is there and for an id.
unfoldable pub provision_found :
    Cipher → Graph → Text → Text → Option Text → Text → MigrationUser → App Outcome
provision_found c g actor dest_token source_access id user =
    if not user.auto_create_target
    then pure (skipped id (units "not marked for auto-create"))
    else elim (target_upn_of user) as (λ _. App Outcome) [
      | none ↦ pure (skipped id (units "no resolved target UPN"))
      | some upn ↦
          try_catch (create c g actor dest_token source_access id user upn) (give_up actor id upn)
    ]

unfoldable pub provision_one : Cipher → Graph → Text → Text → Option Text → Text → App Outcome
provision_one c g actor dest_token source_access id = do
  found ← gets (λ w. Users.get_by_id id w.db.users)
  elim found as (λ _. App Outcome) [
    | none ↦ pure (skipped id (units "not found"))
    | some user ↦ provision_found c g actor dest_token source_access id user
  ]

-- The loop.
unfoldable pub provision_each :
    Cipher → Graph → Text → Text → Option Text → List Text → App (List Outcome)
provision_each c g actor dest_token source_access [] = pure []
provision_each c g actor dest_token source_access (id ∷ ids) = do
  here ← provision_one c g actor dest_token source_access id
  later ← provision_each c g actor dest_token source_access ids
  pure (here ∷ later)

abbrev as_provisioned : Outcome → Provisioned
as_provisioned r = record {
  migration_user_id = r.migration_user_id;
  target_upn = or_else r.target_upn [];
}

abbrev as_refused : Outcome → Refused
as_refused r = record {
  migration_user_id = r.migration_user_id;
  reason = or_else r.error (units "unknown error");
}

abbrev pub summary : List Outcome → ProvisionResult
summary results =
    let done = map as_provisioned (select (λ r. r.is_done) results) in
    record {
      provisioned = done;
      failed = map as_refused (select (λ r. not r.is_done) results);
      credentials_pending = not (is_empty done);
    }

-- POST /api/provision.
unfoldable pub post_provision : Cipher → Graph → Text → List Text → App ProvisionResult
post_provision c g actor ids = do
  throw_if (is_empty ids) (raised validation (units "migrationUserIds[] is required"))
  material ←
      find_material destination (raised validation (units "No destination tenant is connected"))
  token ← token_for c g material default_scope
  source_material ← gets (λ w. Tenants.get_secret_material source w.db.tenants)
  source_access ← source_token c g source_material
  results ← provision_each c g actor token.access_token source_access ids
  pure (summary results)
