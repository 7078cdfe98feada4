-- ===== src/Routes/Tenants.antt =====
-- worker/src/routes/tenants.ts: connecting the two tenants. A secret is stored encrypted only, and
-- no answer holds it.
pub mod Stored
pub mod Tested
use entra_shift.Common.{
  Bool, true, false, not, ◌&&◌, ◌||◌, List, [], ◌∷◌, ◌++◌, Option, none, some, Text, units, or_else,
  coalesce, is_empty, if◌then◌else◌,
}
use entra_shift.Csv.{join}
use entra_shift.Contracts.{
  TenantRole, source, destination, AuditAction, tenant_connect, tenant_disconnect, tenant_test,
  secret_rotate,
}
use entra_shift.Errors.{raised, validation, not_found, unexpected}
use entra_shift.Db.{Database}
use entra_shift.Db.Tenants.{TenantRow, TenantRecord, SecretMaterial, TenantStatus, connected, error}
use entra_shift.Db.Tenants
use entra_shift.App.{World, App, pure, gets, or_throw, throw_if, ◌>>=◌, ◌>>◌}
use entra_shift.App.Actions.{uuid, now_iso, write, bill_writes, audit}
use entra_shift.Crypto.Envelope.{Cipher, EnvelopeCiphertext}
use entra_shift.Crypto.Draws.{encrypt, decrypt}
use entra_shift.Graph.{Graph}
use entra_shift.Graph.Client.{ConnectionTestResult, test_connection, non_empty}

pub record TenantBody : Type 0 where
  pub role : Option TenantRole
  pub tenant_id : Option Text
  pub client_id : Option Text
  pub client_secret : Option Text
  pub secret_expiry : Option Text
  pub display_name : Option Text

abbrev pub role_text : TenantRole → Text
role_text source = units "source"
role_text destination = units "destination"

-- The target of an entry in the audit log.
abbrev pub target_of : TenantRole → Text → Option Text
target_of role tenant_id = some (role_text role ++ units ":" ++ tenant_id)

abbrev audit_write : Text → AuditAction → Option Text → Option Text → App (Unit {0})
audit_write actor action target detail = audit actor action target detail >> bill_writes 1

-- GET /api/tenants.
unfoldable pub list_tenants : App (List TenantRecord)
list_tenants = gets (λ w. Tenants.list w.db.tenants)

abbrev required : Option Text → App Text
required field =
    or_throw (non_empty field)
      (raised validation (units "tenantId, clientId and clientSecret are required"))

-- POST /api/tenants.
unfoldable pub post_tenant : Cipher → Text → TenantBody → App (Option TenantRecord)
post_tenant c actor body = do
  role ← or_throw body.role (raised validation (units "role must be 'source' or 'destination'"))
  tenant_id ← required body.tenant_id
  client_id ← required body.client_id
  secret ← required body.client_secret
  sealed ← encrypt c secret
  id ← uuid
  now ← now_iso
  stored ← gets (λ w.
      Tenants.upsert
        (record {
          id = id;
          role = role;
          tenant_id = tenant_id;
          client_id = client_id;
          secret_ciphertext = sealed.ciphertext;
          secret_iv = sealed.iv;
          secret_expiry = body.secret_expiry;
          display_name = body.display_name;
          created_at = now;
        })
        w.db.tenants)
  rows ← or_throw stored (unexpected (units "constraint failed"))
  write (λ db. record db { tenants = rows })
  bill_writes 1
  audit_write actor tenant_connect (target_of role tenant_id) none
  gets (λ w. Tenants.get_by_role role w.db.tenants)

abbrev pub find_tenant : Text → App TenantRecord
find_tenant id = do
  or_throw (← gets (λ w. Tenants.get_by_id id w.db.tenants))
      (raised not_found (units "Tenant not found"))

abbrev pub envelope_of : SecretMaterial → EnvelopeCiphertext
envelope_of m = record { ciphertext = m.ciphertext; iv = m.iv }

abbrev pub status_of : ConnectionTestResult → TenantStatus
status_of r = if r.token_acquired && is_empty r.missing_consents then connected else error

abbrev outcome : ConnectionTestResult → Text
outcome r =
    if is_empty r.missing_consents
    then units "ok"
    else units "missing: " ++ join (units ", ") r.missing_consents

-- POST /api/tenants/:id/test.
unfoldable pub test_tenant : Cipher → Graph → Text → Text → App ConnectionTestResult
test_tenant c g actor id = do
  tenant ← find_tenant id
  found ← gets (λ w. Tenants.get_secret_material_by_id id w.db.tenants)
  material ← or_throw found (raised not_found (units "Tenant secret not found"))
  secret ← decrypt c (envelope_of material)
  result ← test_connection g material.tenant_id material.client_id secret tenant.role
  now ← now_iso
  write
      (λ db. record db { tenants = Tenants.set_status id (status_of result) (some now) db.tenants })
  bill_writes 1
  audit_write actor tenant_test (target_of tenant.role material.tenant_id) (some (outcome result))
  pure result

-- POST /api/tenants/:id/secret, by the secret of the body and its expiry.
unfoldable pub rotate : Cipher → Text → Text → Option Text → Option Text → App (Option TenantRecord)
rotate c actor id client_secret secret_expiry = do
  tenant ← find_tenant id
  secret ← or_throw (non_empty client_secret) (raised validation (units "clientSecret is required"))
  sealed ← encrypt c secret
  write (λ db. record db {
    tenants =
        Tenants.rotate_secret id sealed.ciphertext sealed.iv
          (coalesce secret_expiry tenant.secret_expiry) db.tenants;
  })
  bill_writes 1
  audit_write actor secret_rotate (target_of tenant.role tenant.tenant_id) none
  gets (λ w. Tenants.get_by_role tenant.role w.db.tenants)

-- DELETE /api/tenants/:id.
unfoldable pub disconnect : Text → Text → App (Unit {0})
disconnect actor id = do
  tenant ← find_tenant id
  write (λ db. record db { tenants = Tenants.remove id db.tenants })
  bill_writes 1
  audit_write actor tenant_disconnect (target_of tenant.role tenant.tenant_id) none
