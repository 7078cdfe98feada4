-- ===== src/Csv/Import.antt =====
-- worker/src/lib/csv.ts, lines 74 to 179: the validator of a bulk import. `to_lower` stands for
-- `toLowerCase`, whose tables of letters the model leaves open.
pub mod Rows
pub mod Laws
use entra_shift.Common.{
  ℕ, ◌+◌, Bool, true, false, not, ◌&&◌, ◌||◌, List, [], ◌∷◌, ◌++◌, map, Option, none, some, Text,
  units, text_eq, trim, ltb, leb, if◌then◌else◌, or_else, length, get_elem?, any, select, is_empty,
}
use entra_shift.Csv.{parse_csv, decimal, join}
use entra_shift.Csv.Email.{is_email}

pub record ImportRow : Type 0 where
  pub source_email : Text
  pub target_email : Option Text
  pub migrate_exchange : Bool
  pub migrate_one_drive : Bool
  pub auto_create_target : Bool

pub record Rejection : Type 0 where
  pub line : ℕ
  pub reason : Text

pub record ImportResult : Type 0 where
  pub accepted : List ImportRow
  pub rejected : List Rejection

abbrev pub expected_headers : List Text
unfolding units
expected_headers =
    units "SourceEmail"
    ∷ units "TargetEmail"
    ∷ units "MigrateExchange"
    ∷ units "MigrateOneDrive"
    ∷ units "AutoCreateTarget"
    ∷ []

-- `[…].includes(v)` on strings.
abbrev pub includes : List Text → Text → Bool
includes words v = any (λ w. text_eq w v) words

abbrev pub column : List Text → ℕ → Text
column cols i = or_else (get_elem? cols i) []

-- `targetEmailRaw || null`.
abbrev pub non_empty : Text → Option Text
non_empty [] = none
non_empty (c ∷ s) = some (c ∷ s)

-- What the loop does with one row.
pub data Verdict : Type 0 where
  accept : ImportRow → Verdict
  reject : Text → Verdict

-- The rows that are kept when the blank lines are dropped.
abbrev pub is_not_blank : List Text → Bool
is_not_blank row = any (λ c. not (is_empty (trim c))) row

-- The header test, `EXPECTED_HEADERS.every(…)`; a missing cell is no match.
headers_match : (Text → Text) → List Text → List Text → Bool
headers_match to_lower [] header = true
headers_match to_lower (h ∷ hs) [] = false
headers_match to_lower (h ∷ hs) (x ∷ xs) =
    text_eq (to_lower x) (to_lower h) && headers_match to_lower hs xs

module _ (to_lower : Text → Text) where
  unfoldable pub parse_bool : Text → Option Bool
  unfolding units
  parse_bool raw =
      let v = to_lower (trim raw) in
      if includes (units "true" ∷ units "1" ∷ units "yes" ∷ units "y" ∷ []) v
      then some true
      else if includes (units "false" ∷ units "0" ∷ units "no" ∷ units "n" ∷ [] ∷ []) v
      then some false
      else none

  -- The checks after the three flags have been read.
  check_flags : List Text → Text → Text → Option Bool → Option Bool → Option Bool → Verdict
  check_flags seen source target (some exchange) (some one_drive) (some auto) =
      if not (is_empty target) && not (is_email target)
      then reject (units "Malformed TargetEmail: " ++ target)
      else if not exchange && not one_drive
      then reject (units "At least one workload (Exchange or OneDrive) must be selected")
      else if is_empty target && not auto
      then reject (units "Unresolvable target: provide TargetEmail or set AutoCreateTarget=true")
      else if includes seen (to_lower source)
      then reject (units "Duplicate SourceEmail: " ++ source)
      else accept (record {
        source_email = source;
        target_email = non_empty target;
        migrate_exchange = exchange;
        migrate_one_drive = one_drive;
        auto_create_target = auto;
      })
  check_flags seen source target _ _ _ =
      reject (units "MigrateExchange/MigrateOneDrive/AutoCreateTarget must be true or false")

  pub check_row : List Text → List Text → Verdict
  unfolding check_flags
  check_row seen cols =
      let source = trim (column cols 0) in
      let target = trim (column cols 1) in
      if ltb (length cols) 5
      then reject (units "Expected 5 columns, got " ++ decimal (length cols))
      else if is_empty source
      then reject (units "SourceEmail is required")
      else if not (is_email source)
      then reject (units "Malformed SourceEmail: " ++ source)
      else check_flags seen source target (parse_bool (column cols 2)) (parse_bool (column cols 3))
          (parse_bool (column cols 4))

  -- The loop over the rows behind the header, from the given line number.
  pub import_rows : ℕ → List Text → List (List Text) → ImportResult
  import_rows line seen [] = record { accepted = []; rejected = [] }
  import_rows line seen (cols ∷ rows) = elim (check_row seen cols) [
    | accept r ↦
        let rest = import_rows (line + 1) (to_lower r.source_email ∷ seen) rows in
        record { accepted = r ∷ rest.accepted; rejected = rest.rejected }
    | reject why ↦
        let rest = import_rows (line + 1) seen rows in
        record {
          accepted = rest.accepted;
          rejected = record { line = line; reason = why } ∷ rest.rejected;
        }
  ]

  unfoldable pub header_ok : List Text → Bool
  unfolding headers_match
  header_ok first =
      let header = map trim first in
      leb 5 (length header) && headers_match to_lower expected_headers header

  from_rows : List Text → List (List Text) → ImportResult
  unfolding header_ok
  from_rows seen [] = record {
    accepted = [];
    rejected = record { line = 1; reason = units "File is empty" } ∷ [];
  }
  from_rows seen (first ∷ rows) = if header_ok first then import_rows 2 seen rows else record {
    accepted = [];
    rejected =
        record { line = 1; reason = units "Header must be: " ++ join (units ",") expected_headers }
        ∷ [];
  }

  unfoldable pub validate_import_csv : Text → List Text → ImportResult
  unfolding from_rows import_rows check_row units
  validate_import_csv text existing =
      from_rows (map to_lower existing) (select is_not_blank (parse_csv text))
