-- ===== src/Db/Tenants.antt =====
-- worker/src/db/tenants.ts over the table `tenants`: one row for each role, with the cipher text of
-- the tenant's client secret.
pub mod Rows
use entra_shift.Common.{
  Bool, true, false, ◌&&◌, List, ◌∷◌, map, Option, none, some, Text, text_eq, if◌then◌else◌, any,
  find, update, delete, order_by, coalesce,
}
use entra_shift.Contracts.{Instant, TenantRole, source, destination}

pub data TenantStatus : Type 0 where
  disconnected connected error : TenantStatus

pub record TenantRow : Type 0 where
  pub id : Text
  pub role : TenantRole
  pub tenant_id : Text
  pub client_id : Text
  pub secret_ciphertext : Text
  pub secret_iv : Text
  pub secret_expiry : Option Text
  pub display_name : Option Text
  pub status : TenantStatus
  pub last_tested_at : Option Instant
  pub created_at : Instant

-- What the browser is shown.
pub record TenantRecord : Type 0 where
  pub id : Text
  pub role : TenantRole
  pub tenant_id : Text
  pub client_id : Text
  pub secret_expiry : Option Text
  pub display_name : Option Text
  pub status : TenantStatus
  pub last_tested_at : Option Instant
  pub created_at : Instant

pub record SecretMaterial : Type 0 where
  pub id : Text
  pub tenant_id : Text
  pub client_id : Text
  pub ciphertext : Text
  pub iv : Text

abbrev pub map_public : TenantRow → TenantRecord
map_public r = record {
  id = r.id;
  role = r.role;
  tenant_id = r.tenant_id;
  client_id = r.client_id;
  secret_expiry = r.secret_expiry;
  display_name = r.display_name;
  status = r.status;
  last_tested_at = r.last_tested_at;
  created_at = r.created_at;
}

abbrev pub material_of : TenantRow → SecretMaterial
material_of r = record {
  id = r.id;
  tenant_id = r.tenant_id;
  client_id = r.client_id;
  ciphertext = r.secret_ciphertext;
  iv = r.secret_iv;
}

abbrev pub same_role : TenantRole → TenantRole → Bool
same_role source source = true
same_role destination destination = true
same_role _ _ = false

abbrev pub has_id : Text → TenantRow → Bool
has_id id r = text_eq r.id id

abbrev pub has_role : TenantRole → TenantRow → Bool
has_role role r = same_role r.role role

-- `ORDER BY role`: 'destination' comes before 'source'.
abbrev by_role : TenantRow → TenantRow → Bool
by_role a b = has_role destination a && has_role source b

abbrev pub option_map : {A B : Type 0} → (A → B) → Option A → Option B
option_map f none = none
option_map f (some a) = some (f a)

unfoldable pub list : List TenantRow → List TenantRecord
list rows = map map_public (order_by by_role rows)

abbrev pub get_by_id : Text → List TenantRow → Option TenantRecord
get_by_id id rows = option_map map_public (find (has_id id) rows)

abbrev pub get_by_role : TenantRole → List TenantRow → Option TenantRecord
get_by_role role rows = option_map map_public (find (has_role role) rows)

abbrev pub get_secret_material : TenantRole → List TenantRow → Option SecretMaterial
get_secret_material role rows = option_map material_of (find (has_role role) rows)

abbrev pub get_secret_material_by_id : Text → List TenantRow → Option SecretMaterial
get_secret_material_by_id id rows = option_map material_of (find (has_id id) rows)

pub record UpsertTenantInput : Type 0 where
  pub id : Text
  pub role : TenantRole
  pub tenant_id : Text
  pub client_id : Text
  pub secret_ciphertext : Text
  pub secret_iv : Text
  pub secret_expiry : Option Text
  pub display_name : Option Text
  pub created_at : Instant

abbrev pub new_row : UpsertTenantInput → TenantRow
new_row t = record {
  id = t.id;
  role = t.role;
  tenant_id = t.tenant_id;
  client_id = t.client_id;
  secret_ciphertext = t.secret_ciphertext;
  secret_iv = t.secret_iv;
  secret_expiry = t.secret_expiry;
  display_name = t.display_name;
  status = disconnected;
  last_tested_at = none;
  created_at = t.created_at;
}

-- `DO UPDATE SET`: the row keeps its id, its role, its last test and its creation.
abbrev pub merge : UpsertTenantInput → TenantRow → TenantRow
merge t old = record old {
  tenant_id = t.tenant_id;
  client_id = t.client_id;
  secret_ciphertext = t.secret_ciphertext;
  secret_iv = t.secret_iv;
  secret_expiry = t.secret_expiry;
  display_name = t.display_name;
  status = disconnected;
}

-- `upsert`; none if the statement breaks the primary key.
unfoldable pub upsert : UpsertTenantInput → List TenantRow → Option (List TenantRow)
upsert t rows =
    if any (has_role t.role) rows
    then some (update (has_role t.role) (merge t) rows)
    else if any (has_id t.id) rows
    then none
    else some (new_row t ∷ rows)

unfoldable pub rotate_secret : Text → Text → Text → Option Text → List TenantRow → List TenantRow
rotate_secret id ciphertext iv expiry = update (has_id id) (λ r. record r {
  secret_ciphertext = ciphertext;
  secret_iv = iv;
  secret_expiry = expiry;
  status = disconnected;
})

unfoldable pub set_status : Text → TenantStatus → Option Instant → List TenantRow → List TenantRow
set_status id status tested =
    update (has_id id)
      (λ r. record r { status = status; last_tested_at = coalesce tested r.last_tested_at })

abbrev pub remove : Text → List TenantRow → List TenantRow
remove id = delete (has_id id)
