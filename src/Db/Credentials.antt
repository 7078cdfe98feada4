-- ===== src/Db/Credentials.antt =====
-- worker/src/db/credentials.ts over the table `provisioned_credentials`. The columns of the cipher
-- text are NOT NULL, so the tests `password_ciphertext IS NOT NULL` hold of every row.
use entra_shift.Common.{
  ℕ, Bool, List, [], ◌∷◌, map, Option, some, Text, text_eq, if◌then◌else◌, ltb, is_empty, is_some,
  not, any, length, select, update, order_by,
}
use entra_shift.Contracts.{Instant}

pub record CredentialRow : Type 0 where
  pub id : Text
  pub migration_user_id : Text
  pub target_upn : Text
  pub password_ciphertext : Text
  pub password_iv : Text
  pub created_at : Instant
  pub downloaded_at : Option Instant

pub record PendingCredential : Type 0 where
  pub id : Text
  pub migration_user_id : Text
  pub target_upn : Text
  pub ciphertext : Text
  pub iv : Text

abbrev pub is_pending : CredentialRow → Bool
is_pending c = not (is_some c.downloaded_at)

abbrev pub to_pending : CredentialRow → PendingCredential
to_pending c = record {
  id = c.id;
  migration_user_id = c.migration_user_id;
  target_upn = c.target_upn;
  ciphertext = c.password_ciphertext;
  iv = c.password_iv;
}

-- `insert`.
abbrev pub insert : CredentialRow → List CredentialRow → List CredentialRow
insert c creds = c ∷ creds

-- `listPending`, `ORDER BY created_at`.
unfoldable pub list_pending : List CredentialRow → List PendingCredential
list_pending creds =
    map to_pending (order_by (λ a b. ltb a.created_at b.created_at) (select is_pending creds))

unfoldable pub count_pending : List CredentialRow → ℕ
count_pending creds = length (select is_pending creds)

abbrev pub purge : Instant → CredentialRow → CredentialRow
purge now c = record c { downloaded_at = some now; password_ciphertext = []; password_iv = [] }

-- `markDownloadedAndPurge`.
unfoldable pub mark_downloaded_and_purge :
    List Text → Instant → List CredentialRow → List CredentialRow
mark_downloaded_and_purge ids now creds =
    if is_empty ids then creds else update (λ c. any (λ id. text_eq c.id id) ids) (purge now) creds
