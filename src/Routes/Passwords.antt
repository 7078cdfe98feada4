-- ===== src/Routes/Passwords.antt =====
-- worker/src/routes/passwords.ts: the one-time download of the temporary passwords. `decrypt`, a
-- parameter, is `decryptSecret` under the master key: none where it throws.
pub mod Once
use entra_shift.Common.{
  ℕ, Bool, true, false, not, List, [], ◌∷◌, ◌++◌, map, Option, none, some, Text, units, is_empty,
  length, text_eq,
}
use entra_shift.Csv.{Cell, serialize_csv, decimal}
use entra_shift.Contracts.{Instant, password_csv_download}
use entra_shift.Errors.{raised, validation, not_found, unexpected}
use entra_shift.Db.Credentials.{
  PendingCredential, list_pending, count_pending, mark_downloaded_and_purge,
}
use entra_shift.App.{World, App, pure, gets, or_throw, throw_if, ◌>>=◌, ◌>>◌}
use entra_shift.App.Actions.{now_iso, write, bill_writes, audit}

-- GET /api/passwords.
unfoldable pub pending : App ℕ
pending = gets (λ w. count_pending w.db.credentials)

abbrev cons_row :
    PendingCredential → Option Text → Option (List (List Cell)) → Option (List (List Cell))
cons_row c (some password) (some rows) =
    some ((Cell.text c.target_upn ∷ Cell.text password ∷ Cell.boolean true ∷ []) ∷ rows)
cons_row c _ _ = none

-- The loop over the pending credentials; the first that cannot be decrypted ends it.
unfoldable pub decrypt_rows :
    (Text → Text → Option Text) → List PendingCredential → Option (List (List Cell))
decrypt_rows decrypt [] = some []
decrypt_rows decrypt (c ∷ cs) = cons_row c (decrypt c.ciphertext c.iv) (decrypt_rows decrypt cs)

abbrev is_acknowledged : Option Text → Bool
is_acknowledged none = false
is_acknowledged (some t) = text_eq t (units "true")

abbrev header : List Text
header = units "TargetUpn" ∷ units "TemporaryPassword" ∷ units "ForceChangeAtNextSignIn" ∷ []

-- GET /api/passwords/download: the text of the file.
unfoldable pub download : (Text → Text → Option Text) → Text → Option Text → App Text
download decrypt actor acknowledge = do
  throw_if (not (is_acknowledged acknowledge)) (
      raised validation
        (units "Download requires acknowledge=true (the file contains live credentials)"))
  creds ← gets (λ w. list_pending w.db.credentials)
  throw_if (is_empty creds) (raised not_found (units "No temporary passwords are pending download"))
  rows ← or_throw (decrypt_rows decrypt creds) (unexpected (units "decryption failed"))
  now ← now_iso
  write (λ db. record db {
    credentials = mark_downloaded_and_purge (map (λ c. c.id) creds) now db.credentials;
  })
  bill_writes 1
  audit actor password_csv_download none
      (some (units "downloaded " ++ decimal (length creds) ++ units " credential(s)"))
  bill_writes 1
  pure (serialize_csv header rows)
