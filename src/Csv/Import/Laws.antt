-- ===== src/Csv/Import/Laws.antt =====
-- What a whole import accepts and rejects.
use entra_shift.Common.{
  ℕ, ◌+◌, ◌≡◌, ◌≢◌, ◌≤◌, ◌<◌, refl, ◌⊎◌, true, List, [], ◌∷◌, map, none, some, arith, Text, length,
  select, All, Bool-cases, inl, inr,
}
use entra_shift.Csv.{parse_csv}
use entra_shift.Csv.Email.{IsEmail}
use entra_shift.Csv.Import.{
  ImportRow, Rejection, Verdict, accept, reject, check_row, import_rows, is_not_blank, header_ok,
  from_rows, validate_import_csv,
}
use entra_shift.Csv.Import.Rows.{check_row_iff}

-- A row that can be queued: well-formed addresses, a workload, and a target or leave to make one.
pub record IsMigratable (r : ImportRow) : Type 0 where
  pub source_email : IsEmail r.source_email
  pub target_email : (t : Text) → r.target_email ≡ some t → IsEmail t
  pub workload : (r.migrate_exchange ≡ true) ⊎ (r.migrate_one_drive ≡ true)
  pub resolvable : (r.target_email ≢ none) ⊎ (r.auto_create_target ≡ true)

-- The lines of the rejections rise from `line` on and end below `last`.
abbrev pub RisingLines : ℕ → ℕ → List Rejection → Type 0
RisingLines line last [] = Unit
RisingLines line last (r ∷ rs) =
    (line ≤ r.line) × (r.line < last) × RisingLines (r.line + 1) last rs

Verdict-cases :
    (v : Verdict) → ((r : ImportRow) × (v ≡ accept r)) ⊎ ((why : Text) × (v ≡ reject why))
Verdict-cases (accept r) = inl (r, refl)
Verdict-cases (reject why) = inr (why, refl)

RisingLines-mono :
    (line line' last last' : ℕ) (rs : List Rejection)
    → line ≤ line'
    → last' ≤ last
    → RisingLines line' last' rs
    → RisingLines line last rs
RisingLines-mono line line' last last' [] h e k = tt
RisingLines-mono line line' last last' (r ∷ rs) h e (k, l, m) = (
  omega arith,
  omega arith,
  RisingLines-mono (r.line + 1) (r.line + 1) last last' rs (omega arith) e m,
)

module _ (to_lower : Text → Text) where
  -- No source address is among those seen, and no two are the same, up to case.
  abbrev pub IsFresh : List Text → List ImportRow → Type 0
  IsFresh seen [] = Unit
  IsFresh seen (r ∷ rs) =
      All (λ s. s ≢ to_lower r.source_email) seen × IsFresh (to_lower r.source_email ∷ seen) rs

  import_rows_accept :
      (line : ℕ) (seen cols : List Text) (rows : List (List Text)) (r : ImportRow)
      → check_row to_lower seen cols ≡ accept r
      → let rest = import_rows to_lower (line + 1) (to_lower r.source_email ∷ seen) rows in
        import_rows to_lower line seen (cols ∷ rows)
        ≡ record { accepted = r ∷ rest.accepted; rejected = rest.rejected }
  unfolding import_rows
  import_rows_accept line seen cols rows r e = rw (e, import_rows)

  import_rows_reject :
      (line : ℕ) (seen cols : List Text) (rows : List (List Text)) (why : Text)
      → check_row to_lower seen cols ≡ reject why
      → let rest = import_rows to_lower (line + 1) seen rows in
        import_rows to_lower line seen (cols ∷ rows) ≡ record {
          accepted = rest.accepted;
          rejected = record { line = line; reason = why } ∷ rest.rejected;
        }
  unfolding import_rows
  import_rows_reject line seen cols rows why e = rw (e, import_rows)

  import_rows-All :
      (line : ℕ) (seen : List Text) (rows : List (List Text))
      → let res = import_rows to_lower line seen rows in
        All IsMigratable res.accepted × IsFresh seen res.accepted
  unfolding import_rows
  import_rows-All line seen [] = (tt, tt)
  import_rows-All line seen (cols ∷ rows) = elim (Verdict-cases (check_row to_lower seen cols)) [
    | inl (r, e) ↦
        let d = (check_row_iff to_lower seen cols r).0 e in
        let (migratable, fresh) =
          import_rows-All (line + 1) (to_lower r.source_email ∷ seen) rows in
        rw (import_rows_accept line seen cols rows r e) (
          (
            record {
              source_email = d.source_email;
              target_email = d.target_email;
              workload = d.workload;
              resolvable = d.resolvable;
            },
            migratable,
          ),
          (d.is_new, fresh),
        )
    | inr (why, e) ↦
        rw (import_rows_reject line seen cols rows why e) (import_rows-All (line + 1) seen rows)
  ]

  import_rows_lines :
      (line : ℕ) (seen : List Text) (rows : List (List Text))
      → let res = import_rows to_lower line seen rows in
        (length res.accepted + length res.rejected ≡ length rows)
        × RisingLines line (line + length rows) res.rejected
  unfolding import_rows
  import_rows_lines line seen [] = (omega arith, tt)
  import_rows_lines line seen (cols ∷ rows) = elim (Verdict-cases (check_row to_lower seen cols)) [
    | inl (r, e) ↦
        let (count, rising) = import_rows_lines (line + 1) (to_lower r.source_email ∷ seen) rows in
        rw (import_rows_accept line seen cols rows r e)
          (omega arith, RisingLines-mono line (line + 1) _ _ _ (omega arith) (omega arith) rising)
    | inr (why, e) ↦
        let (count, rising) = import_rows_lines (line + 1) seen rows in
        rw (import_rows_reject line seen cols rows why e) (
          omega arith,
          (
            omega arith,
            omega arith,
            RisingLines-mono (line + 1) (line + 1) _ _ _ (omega arith) (omega arith) rising,
          ),
        )
  ]

  from_rows-All :
      (seen : List Text) (rows : List (List Text))
      → let res = from_rows to_lower seen rows in
        All IsMigratable res.accepted × IsFresh seen res.accepted
  unfolding from_rows
  from_rows-All seen [] = (tt, tt)
  from_rows-All seen (first ∷ rows) = elim (Bool-cases (header_ok to_lower first)) [
    | inl good ↦ rw good (import_rows-All 2 seen rows)
    | inr bad ↦ rw bad (tt, tt)
  ]

  -- Whatever the file holds, each accepted row can be queued, and no accepted source address is
  -- an existing one or that of another accepted row, up to case.
  pub validate_import_csv-IsMigratable :
      (text : Text) (existing : List Text)
      → let res = validate_import_csv to_lower text existing in
        All IsMigratable res.accepted × IsFresh (map to_lower existing) res.accepted
  unfolding validate_import_csv
  validate_import_csv-IsMigratable text existing =
      from_rows-All (map to_lower existing) (select is_not_blank (parse_csv text))

  -- Where the first row that is not blank is a good header, each later one is accepted or
  -- rejected once, and the lines of the rejections rise and count from 2 the rows that are not
  -- blank.
  pub validate_import_csv_lines :
      (text : Text) (existing : List Text) (first : List Text) (rows : List (List Text))
      → select is_not_blank (parse_csv text) ≡ first ∷ rows
      → header_ok to_lower first ≡ true
      → let res = validate_import_csv to_lower text existing in
        (length res.accepted + length res.rejected ≡ length rows)
        × RisingLines 2 (2 + length rows) res.rejected
  unfolding validate_import_csv
  validate_import_csv_lines text existing first rows e good =
      rw (e, from_rows, good) (import_rows_lines 2 (map to_lower existing) rows)
