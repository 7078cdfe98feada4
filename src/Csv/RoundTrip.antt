-- ===== src/Csv/RoundTrip.antt =====
-- Parsing what `serialize_csv` writes.
use entra_shift.Common.{
  ℕ, ◌≡◌, ◌≢◌, refl, ap, ◌∙◌, true, false, List, [], ◌∷◌, ◌++◌, map, some, arith, Text, any, All,
  Bool-cases, inl, inr, append-nil, append_assoc,
}
use entra_shift.Csv.{
  Parser, start, head?, step, run, finish, strip_bom, parse_csv, Cell, text, cell_text, is_special,
  double_quotes, esc_text, esc, join, crlf, line, serialize_csv,
}

-- A parser between two fields or inside one, and inside quotes.
abbrev at : List (List Text) → List Text → Text → Parser
at rows row field = record {
  rows = rows;
  row = row;
  field = field;
  in_quotes = false;
  skip = false;
}

abbrev quoted : List (List Text) → List Text → Text → Parser
quoted rows row field = record {
  rows = rows;
  row = row;
  field = field;
  in_quotes = true;
  skip = false;
}

module _ (rows : List (List Text)) (row : List Text) where
  run-plain :
      (s field rest : Text)
      → any is_special s ≡ false
      → run (at rows row field) (s ++ rest) ≡ run (at rows row (field ++ s)) rest
  unfolding run step is_special
  run-plain [] field rest h = rw append-nil
  run-plain (c ∷ s) field rest h =
      ground (arith, run-plain s (field ++ c ∷ []) rest, append_assoc field (c ∷ []) s)

  -- `rest` goes on after the closing quote.
  run-double_quotes :
      (s field rest : Text)
      → head? rest ≢ some b'"'
      → run (quoted rows row field) (double_quotes s ++ b'"' ∷ rest)
        ≡ run (at rows row (field ++ s)) rest
  unfolding run step double_quotes
  run-double_quotes [] field [] h = rw append-nil
  run-double_quotes [] field (d ∷ rest) h = rw append-nil (ground arith)
  run-double_quotes (c ∷ s) field rest h =
      ground (arith, run-double_quotes s (field ++ c ∷ []) rest h, append_assoc field (c ∷ []) s)

  run-esc_text :
      (s rest : Text)
      → head? rest ≢ some b'"'
      → run (at rows row []) (esc_text s ++ rest) ≡ run (at rows row s) rest
  unfolding esc_text
  run-esc_text s rest h = elim (Bool-cases (any is_special s)) [
    | inl special ↦ rw special (open_quote ∙ run-double_quotes s [] rest h)
    | inr plain ↦ rw plain (run-plain s [] rest plain)
  ]
    where
      open_quote :
          run (at rows row []) (b'"' ∷ (double_quotes s ++ b'"' ∷ []) ++ rest)
          ≡ run (quoted rows row []) (double_quotes s ++ b'"' ∷ rest)
      open_quote = unfold run step in rw append_assoc

abbrev comma : Text
comma = b',' ∷ []

run-comma :
    (rows : List (List Text)) (row : List Text) (field rest : Text)
    → run (at rows row field) (b',' ∷ rest) ≡ run (at rows (row ++ field ∷ []) []) rest
unfolding run step
run-comma rows row field rest = refl

run-crlf :
    (rows : List (List Text)) (row : List Text) (field rest : Text)
    → run (at rows row field) (b'\r' ∷ b'\n' ∷ rest)
      ≡ run (at (rows ++ (row ++ field ∷ []) ∷ []) [] []) rest
unfolding run step
run-crlf rows row field rest = refl

run-line :
    (rows : List (List Text)) (row : List Text) (c : Cell) (cs : List Cell) (rest : Text)
    → run (at rows row []) (line (c ∷ cs) ++ b'\r' ∷ b'\n' ∷ rest)
      ≡ run (at (rows ++ (row ++ map cell_text (c ∷ cs)) ∷ []) [] []) rest
unfolding esc
run-line rows row c [] rest =
    run-esc_text rows row (cell_text c) (b'\r' ∷ b'\n' ∷ rest) (λ e. cc)
    ∙ run-crlf rows row (cell_text c) rest
run-line rows row c (d ∷ cs) rest = rw append_assoc (
    run-esc_text rows row (cell_text c) _ (λ e. cc)
    ∙ run-comma rows row (cell_text c) _
    ∙ run-line rows (row ++ cell_text c ∷ []) d cs rest
    ∙ rw append_assoc)

abbrev pub NonEmpty {ℓ} : {A : Type ℓ} → List A → Type 0
NonEmpty [] = ⊥
NonEmpty (_ ∷ _) = Unit

run-lines :
    (rows : List (List Text)) (first : List Cell) (more : List (List Cell))
    → NonEmpty first
    → All NonEmpty more
    → run (at rows [] []) (join crlf (line first ∷ map line more) ++ crlf)
      ≡ at (rows ++ map (map cell_text) (first ∷ more)) [] []
run-lines rows [] more h k = absurd h
run-lines rows (c ∷ cs) [] h k = run-line rows [] c cs [] ∙ unfold run in refl
run-lines rows (c ∷ cs) (next ∷ more) h (k, ks) = rw append_assoc (
    run-line rows [] c cs _
    ∙ run-lines (rows ++ map cell_text (c ∷ cs) ∷ []) next more k ks
    ∙ rw append_assoc)

strip_bom_of : (s : Text) → head? s ≢ some 0xfeff → strip_bom s ≡ s
unfolding strip_bom
strip_bom_of [] h = refl
strip_bom_of (c ∷ s) h = ground arith

head?-esc_text :
    (s : Text) (d : ℕ) (rest : Text)
    → head? s ≢ some 0xfeff
    → d ≢ 0xfeff
    → head? (esc_text s ++ d ∷ rest) ≢ some 0xfeff
unfolding esc_text
head?-esc_text [] d rest h k = ground arith
head?-esc_text (c ∷ s) d rest h k = elim (Bool-cases (any is_special (c ∷ s))) [
  | inl special ↦ rw special (ground arith)
  | inr plain ↦ rw plain h
]

-- The header row has a cell, and the first one does not begin with a byte order mark.
abbrev pub NoBom : List Text → Type 0
NoBom [] = ⊥
NoBom (h ∷ _) = head? h ≢ some 0xfeff

head?-line :
    (headers : List Text) (rest : Text)
    → NoBom headers
    → head? (line (map text headers) ++ b'\r' ∷ rest) ≢ some 0xfeff
unfolding esc cell_text
head?-line [] rest h = absurd h
head?-line (x ∷ []) rest h = head?-esc_text x b'\r' rest h (omega arith)
head?-line (x ∷ y ∷ hs) rest h = rw append_assoc (head?-esc_text x b',' _ h (omega arith))

head?-lines :
    (headers : List Text) (rows : List (List Cell))
    → NoBom headers
    → head? (join crlf (line (map text headers) ∷ map line rows) ++ crlf) ≢ some 0xfeff
head?-lines headers [] h = head?-line headers _ h
head?-lines headers (r ∷ rows) h = rw append_assoc (head?-line headers _ h)

NoBom-NonEmpty : (headers : List Text) → NoBom headers → NonEmpty (map text headers)
NoBom-NonEmpty [] h = absurd h
NoBom-NonEmpty (_ ∷ _) h = tt

map-cell_text-text : (headers : List Text) → map cell_text (map text headers) ≡ headers
unfolding cell_text
map-cell_text-text [] = refl
map-cell_text-text (h ∷ hs) = ap (◌∷◌ h) (map-cell_text-text hs)

-- Parsing a serialised table gives back the header and, for each row, the texts of its cells,
-- whatever quotes, commas and line breaks these hold. Every row has a cell, the header row too,
-- and the first header does not begin with U+FEFF.
pub parse_csv-serialize_csv :
    (headers : List Text) (rows : List (List Cell))
    → NoBom headers
    → All NonEmpty rows
    → parse_csv (serialize_csv headers rows) ≡ headers ∷ map (map cell_text) rows
unfolding parse_csv
parse_csv-serialize_csv headers rows h k =
    rw (serialized, strip_bom_of _ (head?-lines headers rows h), parsed)
      (unfold finish in ap (λ r. r ∷ map (map cell_text) rows) (map-cell_text-text headers))
  where
    serialized :
        serialize_csv headers rows ≡ join crlf (line (map text headers) ∷ map line rows) ++ crlf
    serialized = unfold serialize_csv in refl

    parsed :
        run start (join crlf (line (map text headers) ∷ map line rows) ++ crlf)
        ≡ at (map (map cell_text) (map text headers ∷ rows)) [] []
    parsed = run-lines [] (map text headers) rows (NoBom-NonEmpty headers h) k
