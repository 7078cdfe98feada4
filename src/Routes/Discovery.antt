-- ===== src/Routes/Discovery.antt =====
-- worker/src/routes/discovery.ts and `POST /api/vm/token` of worker/src/routes/vm.ts: what is asked
-- of Graph with the stored secrets.
use entra_shift.Common.{List, ◌++◌, Option, Text, units, or_else}
use entra_shift.Contracts.{TenantRole, source, VmTokenRequest, VmTokenResponse}
use entra_shift.Errors.{Thrown, raised, validation, not_found}
use entra_shift.Db.Tenants.{SecretMaterial}
use entra_shift.Db.Tenants
use entra_shift.App.{App, pure, gets, or_throw, ◌>>=◌}
use entra_shift.Crypto.Envelope.{Cipher}
use entra_shift.Crypto.Draws.{decrypt}
use entra_shift.Graph.{Graph, GraphUser}
use entra_shift.Graph.Client.{AppToken, acquire_app_token, discover_users, default_scope}
use entra_shift.Routes.Tenants.{role_text, envelope_of}

-- The steps that three handlers share: the stored material of a role, its secret, and a token.
abbrev pub find_material : TenantRole → Thrown → App SecretMaterial
find_material role missing = do
  or_throw (← gets (λ w. Tenants.get_secret_material role w.db.tenants)) missing

unfoldable pub token_for : Cipher → Graph → SecretMaterial → Text → App AppToken
token_for c g m scope = do
  secret ← decrypt c (envelope_of m)
  acquire_app_token g (record {
    tenant_id = m.tenant_id;
    client_id = m.client_id;
    client_secret = secret;
    scope = scope;
  })

-- GET /api/discovery/users: the users of a page, and the cursor of the next.
unfoldable pub discover :
    Cipher → Graph → Option Text → Option Text → App (List GraphUser × Option Text)
discover c g search cursor = do
  material ← find_material source (raised validation (units "No source tenant is connected"))
  token ← token_for c g material default_scope
  discover_users g token.access_token search cursor

-- POST /api/vm/token.
unfoldable pub post_token : Cipher → Graph → VmTokenRequest → App VmTokenResponse
post_token c g body = do
  role ←
      or_throw body.tenant_role
        (raised validation (units "tenantRole must be 'source' or 'destination'"))
  material ←
      find_material role
        (raised not_found (units "No " ++ role_text role ++ units " tenant connected"))
  token ← token_for c g material (or_else body.scope default_scope)
  pure (record {
    access_token = token.access_token;
    expires_at = token.expires_at;
    tenant_id = material.tenant_id;
  })
