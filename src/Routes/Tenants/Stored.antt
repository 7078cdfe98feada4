-- ===== src/Routes/Tenants/Stored.antt =====
-- What connecting a tenant stores (worker/src/routes/tenants.ts).
use entra_shift.Common.{◌≡◌, false, List, Option, some, Text, find}
use entra_shift.Contracts.{Instant, TenantRole}
use entra_shift.Db.Tenants.{TenantRow, UpsertTenantInput, TenantStatus, has_role, same_role}
use entra_shift.App.{World, ok}
use entra_shift.App.Triple.{Triple}
use entra_shift.Crypto.Envelope.{Cipher, EnvelopeCiphertext, decrypt_secret}
use entra_shift.Crypto.Envelope.RoundTrip.{IsCipher, IsPlain}
use entra_shift.Crypto.Draws.Opens.{OpensTo}
use entra_shift.Graph.Client.{non_empty}
use entra_shift.Routes.Tenants.{TenantBody}

-- The role's row holds the application that was entered, and its secret encrypted under the key; the
-- row of the other role is as before.
pub record IsStored (c : Cipher) (key : Text) (body : TenantBody) (old new : List TenantRow)
    : Type 0 where
  pub role : TenantRole
  pub tenant_id : Text
  pub client_id : Text
  pub secret : Text
  pub row : TenantRow
  pub for_role : body.role ≡ some role
  pub for_tenant : non_empty body.tenant_id ≡ some tenant_id
  pub for_client : non_empty body.client_id ≡ some client_id
  pub with_secret : non_empty body.client_secret ≡ some secret
  pub found : find (has_role role) new ≡ some row
  pub same_tenant : row.tenant_id ≡ tenant_id
  pub same_client : row.client_id ≡ client_id
  pub untested : row.status ≡ TenantStatus.disconnected
  pub opens :
      decrypt_secret c key (record { ciphertext = row.secret_ciphertext; iv = row.secret_iv })
      ≡ ok secret
  pub others :
      (r : TenantRole) → same_role role r ≡ false → find (has_role r) new ≡ find (has_role r) old

-- A secret that is entered is kept by UTF-8.
abbrev pub IsPlainSecret : Option Text → Type 0
IsPlainSecret entered = (secret : Text) → non_empty entered ≡ some secret → IsPlain secret

abbrev Any : World → Type 0
Any w = Unit

module _ (c : Cipher) (laws : IsCipher c) (body : TenantBody)
    (plain : IsPlainSecret body.client_secret) (old : World) where
  abbrev Before : World → Type 0
  Before w = w.db.tenants ≡ old.db.tenants

  abbrev Ready : Text → EnvelopeCiphertext → World → Type 0
  Ready secret env w = Before w × OpensTo c secret env w

  abbrev Written : World → Type 0
  Written w = IsStored c w.vars.master_encryption_key body old.db.tenants w.db.tenants

  -- What the handler hands to the upsert.
  abbrev entered :
      TenantRole → Text → Text → EnvelopeCiphertext → Text → Instant → UpsertTenantInput
  entered role tenant_id client_id env id now = record {
    id = id;
    role = role;
    tenant_id = tenant_id;
    client_id = client_id;
    secret_ciphertext = env.ciphertext;
    secret_iv = env.iv;
    secret_expiry = body.secret_expiry;
    display_name = body.display_name;
    created_at = now;
  }
