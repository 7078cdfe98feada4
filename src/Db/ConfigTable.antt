-- ===== src/Db/ConfigTable.antt =====
-- worker/src/db/config.ts over the table `config`.
use entra_shift.Common.{List, [], ◌∷◌, Option, none, some, Text, text_eq, if◌then◌else◌, or_else}
use entra_shift.Numbers.{Number, parse_number}

-- The rows of the table, and the map that `getAllConfig` makes of them: the key is the primary key.
abbrev pub ConfigMap : Type 0
ConfigMap = List (Text × Text)

unfoldable pub lookup : Text → ConfigMap → Option Text
lookup key [] = none
lookup key ((k, v) ∷ rows) = if text_eq k key then some v else lookup key rows

-- `getConfigValue`.
abbrev pub get_config_value : Text → Text → ConfigMap → Text
get_config_value key fallback rows = or_else (lookup key rows) fallback

-- `num`: a missing value is `Number(undefined)`, no number.
unfoldable pub num : ConfigMap → Text → Number → Number
num rows key fallback = elim (lookup key rows) [
  | none ↦ fallback
  | some v ↦ or_else (parse_number v) fallback
]

-- `setConfigValue`.
unfoldable pub set_config_value : Text → Text → ConfigMap → ConfigMap
set_config_value key value [] = (key, value) ∷ []
set_config_value key value ((k, v) ∷ rows) =
    if text_eq k key then (k, value) ∷ rows else (k, v) ∷ set_config_value key value rows
