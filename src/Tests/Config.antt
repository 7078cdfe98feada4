-- ===== src/Tests/Config.antt =====
-- Examples for the theorems on the settings.
use entra_shift.Common.{[], ◌∷◌, some, Text, units}
use entra_shift.Numbers.{whole}
use entra_shift.Routes.Config.{Patch}

abbrev actor : Text
actor = b'a' ∷ []

abbrev fewer_retries : Patch
fewer_retries = (units "itemMaxRetries", some (whole 3)) ∷ []
