-- ===== src/Csv.antt =====
-- worker/src/lib/csv.ts, lines 15 to 72: the CSV parser and serialiser. A code unit is a number;
-- `i++` inside the loop is the flag `skip`, which makes the next round do nothing else.
pub mod RoundTrip
pub mod Email
pub mod Import
use entra_shift.Common.{
  ℕ, zero, suc, ◌+◌, ◌/◌, ◌%◌, Bool, true, false, ◌&&◌, ◌||◌, List, [], ◌∷◌, ◌++◌, map, Option,
  none, some, Text, units, ltb, ◌==◌, if◌then◌else◌, any, is_empty,
}

pub record Parser : Type 0 where
  pub rows : List (List Text)
  pub row : List Text
  pub field : Text
  pub in_quotes : Bool
  pub skip : Bool

abbrev pub start : Parser
start = record { rows = []; row = []; field = []; in_quotes = false; skip = false }

abbrev pub head? : Text → Option ℕ
head? [] = none
head? (c ∷ _) = some c

abbrev next_is : ℕ → Option ℕ → Bool
next_is c none = false
next_is c (some d) = d == c

abbrev push_char : Parser → ℕ → Parser
push_char p c = record p { field = p.field ++ c ∷ [] }

abbrev end_field : Parser → Parser
end_field p = record p { row = p.row ++ p.field ∷ []; field = [] }

abbrev end_row : Parser → Parser
end_row p = record p { rows = p.rows ++ (p.row ++ p.field ∷ []) ∷ []; row = []; field = [] }

-- One round of the loop at code unit `c`, with `next` for `text[i + 1]`.
step : Parser → ℕ → Option ℕ → Parser
step p c next =
    if p.skip
    then record p { skip = false }
    else if p.in_quotes
    then (if c == b'"'
        then (if next_is b'"' next
            then record p { field = p.field ++ b'"' ∷ []; skip = true }
            else record p { in_quotes = false })
        else push_char p c)
    else if c == b'"'
    then record p { in_quotes = true }
    else if c == b','
    then end_field p
    else if c == b'\n' || c == b'\r'
    then (if c == b'\r' && next_is b'\n' next
        then record (end_row p) { skip = true }
        else end_row p)
    else push_char p c

run : Parser → Text → Parser
run p [] = p
run p (c ∷ s) = run (step p c (head? s)) s

-- The final field and row, if the text does not end with a newline.
finish : Parser → List (List Text)
finish p =
    if is_empty p.field && is_empty p.row then p.rows else p.rows ++ (p.row ++ p.field ∷ []) ∷ []

strip_bom : Text → Text
strip_bom [] = []
strip_bom (c ∷ s) = if c == 0xfeff then s else c ∷ s

unfoldable pub parse_csv : Text → List (List Text)
unfolding step run finish strip_bom
parse_csv text = finish (run start (strip_bom text))

-- `string | number | boolean | null | undefined`, the numbers being natural.
pub data Cell : Type 0 where
  text : Text → Cell
  number : ℕ → Cell
  boolean : Bool → Cell
  null : Cell

-- `String(n)`, with one unit of fuel for each digit.
decimal_fuel : ℕ → ℕ → Text
decimal_fuel zero n = []
decimal_fuel (suc f) n = elim (ltb n 10) [
  | true ↦ (b'0' + n) ∷ []
  | false ↦ decimal_fuel f (n / 10) ++ (b'0' + n % 10) ∷ []
]

unfoldable pub decimal : ℕ → Text
unfolding decimal_fuel
decimal n = decimal_fuel (suc n) n

unfoldable pub cell_text : Cell → Text
unfolding decimal
cell_text (text s) = s
cell_text (number n) = decimal n
cell_text (boolean true) = units "true"
cell_text (boolean false) = units "false"
cell_text null = []

is_special : ℕ → Bool
is_special c = c == b'"' || c == b',' || c == b'\r' || c == b'\n'

-- `s.replace(/"/g, '""')`.
double_quotes : Text → Text
double_quotes [] = []
double_quotes (c ∷ s) = if c == b'"' then b'"' ∷ b'"' ∷ double_quotes s else c ∷ double_quotes s

esc_text : Text → Text
esc_text s = if any is_special s then b'"' ∷ (double_quotes s ++ b'"' ∷ []) else s

esc : Cell → Text
esc c = esc_text (cell_text c)

abbrev pub join : Text → List Text → Text
join sep [] = []
join sep (x ∷ []) = x
join sep (x ∷ y ∷ xs) = x ++ (sep ++ join sep (y ∷ xs))

abbrev crlf : Text
crlf = b'\r' ∷ b'\n' ∷ []

abbrev line : List Cell → Text
line cells = join (b',' ∷ []) (map esc cells)

unfoldable pub serialize_csv : List Text → List (List Cell) → Text
unfolding esc esc_text double_quotes is_special cell_text
serialize_csv headers rows = join crlf (line (map text headers) ∷ map line rows) ++ crlf
