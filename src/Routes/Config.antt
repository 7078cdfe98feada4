-- ===== src/Routes/Config.antt =====
-- worker/src/routes/config.ts: the numbers that the settings screen may change.
pub mod Bounds
pub mod Stored
use entra_shift.Common.{
  ◌*◌, Bool, true, false, ◌||◌, List, [], ◌∷◌, ◌++◌, Option, none, some, Text, units, text_eq, ltb,
  length, is_empty,
}
use entra_shift.Csv.{join}
use entra_shift.Numbers.{Number, whole, number_text, parse_number}
use entra_shift.Contracts.{EngineConfig, config_change}
use entra_shift.Errors.{raised, validation}
use entra_shift.Db.ConfigTable.{get_config_value, set_config_value}
use entra_shift.Budget.{get_engine_config}
use entra_shift.App.{App, pure, gets, throw, throw_if, ◌>>=◌, ◌>>◌}
use entra_shift.App.Actions.{write, bill_writes, audit}

pub record Tunable : Type 0 where
  pub key : Text
  pub least : Number
  pub most : Number

abbrev tunable : Text → Number → Number → Tunable
tunable key least most = record { key = key; least = least; most = most }

-- `NUMERIC_KEYS`, in its order.
abbrev pub numeric_keys : List Tunable
numeric_keys =
    tunable (units "minPollIntervalSec") (whole 30) (whole 3600)
    ∷ tunable (units "perMailboxConcurrency") (whole 1) (whole 10)
    ∷ tunable (units "perTenantConcurrency") (whole 1) (whole 20)
    ∷ tunable (units "exchangeExportBatchSize") (whole 1) (whole 20)
    ∷ tunable (units "onedriveUploadSessionThresholdBytes") (whole 1048576) (whole 268435456)
    ∷ tunable (units "itemMaxRetries") (whole 0) (whole 20)
    ∷ tunable (units "auditRetentionDays") (whole 1) (whole 365)
    ∷ tunable (units "budgetSoftFraction") (record { numer = 5; denom = 10 })
        (record { numer = 99; denom = 100 })
    ∷ []

-- The body: the keys that are present, each with its number, or none where `Number(…)` is no finite
-- one.
abbrev pub Patch : Type 0
Patch = List (Text × Option Number)

unfoldable pub field : Text → Patch → Option (Option Number)
field key [] = none
field key ((k, v) ∷ rest) = elim (text_eq k key) [ true ↦ some v | false ↦ field key rest ]

abbrev pub is_below : Number → Number → Bool
is_below a b = ltb (a.numer * b.denom) (b.numer * a.denom)

abbrev pub in_bounds : Tunable → Option Number → Option Number
in_bounds t none = none
in_bounds t (some n) = elim (is_below n t.least || is_below t.most n) [
  | true ↦ none
  | false ↦ some n
]

abbrev out_of_bounds : Tunable → Text
out_of_bounds t =
    t.key
    ++ units " must be a number in ["
    ++ number_text t.least
    ++ units ", "
    ++ number_text t.most
    ++ units "]"

-- The body of the loop for a key that is present: what is pushed to `changed`.
unfoldable pub change : Tunable → Option Number → App Text
change t value = elim (in_bounds t value) [
  | none ↦ throw (raised validation (out_of_bounds t))
  | some n ↦
      write (λ db. record db { config = set_config_value t.key (number_text n) db.config })
      >> pure (t.key ++ units "=" ++ number_text n)
]

-- The loop over the keys: what it has set before a value is refused stays set.
unfoldable pub change_all : List Tunable → Patch → App (List Text)
change_all [] body = pure []
change_all (t ∷ ts) body = elim (field t.key body) [
  | none ↦ change_all ts body
  | some value ↦ do here ← change t value; later ← change_all ts body; pure (here ∷ later)
]

-- GET /api/config.
unfoldable pub get_config : App (EngineConfig × Option Number)
get_config = gets (λ w. (
  get_engine_config w.now w.db,
  parse_number (get_config_value (units "auditRetentionDays") (units "90") w.db.config),
))

-- PATCH /api/config.
unfoldable pub patch_config : Text → Patch → App (EngineConfig × Option Number)
unfolding get_config
patch_config actor body = do
  changed ← change_all numeric_keys body
  throw_if (is_empty changed) (raised validation (units "No recognised config keys to update"))
  bill_writes (length changed)
  audit actor config_change none (some (join (units ", ") changed))
  bill_writes 1
  get_config
