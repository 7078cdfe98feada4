-- ===== src/Tests/Tenants.antt =====
-- Examples for the theorems on tenants and provisioning.
use entra_shift.Common.{ℕ, refl, true, List, [], ◌∷◌, ◌++◌, none, some, Text, units}
use entra_shift.Contracts.{MigrationUser, source, destination, auto_create}
use entra_shift.Db.Tenants.{TenantRow, TenantStatus}
use entra_shift.App.{World}
use entra_shift.Crypto.Bytes as Bytes
use entra_shift.Crypto.Envelope.{Cipher}
use entra_shift.Crypto.Envelope.RoundTrip.{IsCipher}
use entra_shift.Graph.{Graph, unreachable, answered}
use entra_shift.Graph.Client.{checks, ConnectionTestResult, required_scopes}
use entra_shift.Routes.Tenants.{TenantBody}
use entra_shift.Routes.Provision.{post_provision}
use entra_shift.Routes.Provision.Backed.{AreBacked, post_provision-AreBacked}
use entra_shift.Tests.Samples.{sample_world, sample_db, sample_user, sample_vars, sample_runtime}

-- A cipher that hides nothing, but obeys the laws.
abbrev clear : Cipher
clear = record {
  encode = λ bytes. bytes;
  decode = λ t. some t;
  seal = λ key iv plain. plain;
  unseal = λ key iv bytes. some bytes;
}

clear-IsCipher : IsCipher clear
clear-IsCipher = record { decode-encode = λ bytes. refl; unseal-seal = λ key iv plain h. refl }

abbrev master_key : Text
master_key = units "0123456789abcdef0123456789abcdef"

-- A Graph that grants every permission of a source and creates every user.
abbrev generous : Graph
generous = record {
  post_token = λ form. answered (record {
    status = 200;
    text = [];
    json = some (record {
      access_token = some (b'T' ∷ []);
      expires_in = none;
      error_description = none;
      error = none;
    });
  });
  get_users = λ token url. unreachable [];
  get_drive = λ token url. unreachable [];
  post_user = λ accounts token input. answered (record {
    status = 201;
    text = [];
    json = some (record { id = b'o' ∷ []; user_principal_name = input.user_principal_name });
  });
  roles = λ token. some (required_scopes source);
  query_string = λ fields. [];
  skip_token = λ url. none;
  path_name = λ url. [];
  encode_component = λ t. t;
}

abbrev row : TenantRow
row = record {
  id = b'd' ∷ [];
  role = destination;
  tenant_id = b't' ∷ [];
  client_id = b'c' ∷ [];
  secret_ciphertext = b's' ∷ [];
  secret_iv = [];
  secret_expiry = none;
  display_name = none;
  status = TenantStatus.connected;
  last_tested_at = none;
  created_at = 0;
}

abbrev user : MigrationUser
user = record sample_user { auto_create_target = true; mapping_status = auto_create }

abbrev bytes : List ℕ
bytes = 1 ∷ 2 ∷ 3 ∷ 4 ∷ 5 ∷ 6 ∷ 7 ∷ 8 ∷ 9 ∷ 10 ∷ 11 ∷ 12 ∷ 13 ∷ 14 ∷ 15 ∷ 16 ∷ []

abbrev tenant_world : World
tenant_world = record sample_world {
  db = record sample_db { users = user ∷ []; tenants = row ∷ [] };
  vars = record sample_vars { master_encryption_key = master_key };
  runtime = record sample_runtime { random_bytes = λ n. bytes ++ bytes ++ bytes };
}

abbrev actor : Text
actor = b'a' ∷ []

abbrev body : TenantBody
body = record {
  role = some source;
  tenant_id = some (b'x' ∷ []);
  client_id = some (b'y' ∷ []);
  client_secret = some (b'z' ∷ []);
  secret_expiry = none;
  display_name = none;
}

post_provision-AreBacked_example :
    AreBacked clear (post_provision clear generous actor ((b'm' ∷ []) ∷ []) tenant_world).1
post_provision-AreBacked_example =
    post_provision-AreBacked clear clear-IsCipher generous actor ((b'm' ∷ []) ∷ []) tenant_world tt

-- The Graph grants what a source needs, and the tenant is a destination.
abbrev result : ConnectionTestResult
result = (record {
  token_acquired = true;
  tenant_id = b't' ∷ [];
  scopes = checks (required_scopes source) (required_scopes destination);
  missing_consents = required_scopes destination;
  error = none;
})
