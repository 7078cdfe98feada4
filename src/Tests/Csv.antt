-- ===== src/Tests/Csv.antt =====
-- Examples for the theorems on CSV files.
use entra_shift.Common.{◌≡◌, List, [], ◌∷◌, none, Text, units, true, false, arith}
use entra_shift.Csv.{Cell, parse_csv, serialize_csv, cell_text}
use entra_shift.Csv.RoundTrip.{parse_csv-serialize_csv}
use entra_shift.Csv.Import.{ImportRow}

-- A quote, a comma and a line break in one cell.
abbrev awkward : Text
awkward = b'a' ∷ b'"' ∷ b',' ∷ b'\n' ∷ []

parse_csv-serialize_csv_example :
    parse_csv (serialize_csv ((b'h' ∷ []) ∷ []) ((Cell.text awkward ∷ []) ∷ (Cell.null ∷ []) ∷ []))
    ≡ ((b'h' ∷ []) ∷ []) ∷ (awkward ∷ []) ∷ ([] ∷ []) ∷ []
unfolding cell_text
parse_csv-serialize_csv_example =
    parse_csv-serialize_csv ((b'h' ∷ []) ∷ []) ((Cell.text awkward ∷ []) ∷ (Cell.null ∷ []) ∷ [])
      (ground arith) (tt, (tt, tt))

abbrev same_case : Text → Text
same_case t = t

abbrev file : Text
file =
    units
      "SourceEmail,TargetEmail,MigrateExchange,MigrateOneDrive,AutoCreateTarget\na@x.de,,true,false,true\nb,,true,false,true\n"

abbrev cols : List Text
cols = units "a@x.de" ∷ [] ∷ units "true" ∷ units "false" ∷ units "true" ∷ []

abbrev row : ImportRow
row = record {
  source_email = units "a@x.de";
  target_email = none;
  migrate_exchange = true;
  migrate_one_drive = false;
  auto_create_target = true;
}

abbrev file_text : Text
file_text =
    units
      "SourceEmail,TargetEmail,MigrateExchange,MigrateOneDrive,AutoCreateTarget\nb,,true,false,true\na@x.de,,true,false,true\n"

abbrev table : List (List Text)
table = (units "b" ∷ [] ∷ units "true" ∷ units "false" ∷ units "true" ∷ []) ∷ cols ∷ []
