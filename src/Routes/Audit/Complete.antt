-- ===== src/Routes/Audit/Complete.antt =====
-- What GET /api/audit/export collects (worker/src/routes/audit.ts).
use entra_shift.Common.{
  ℕ, zero, suc, ◌*◌, ◌≤◌, Bool, true, false, ◌&&◌, List, [], ◌∷◌, ◌++◌, Option, none, some, ◌≡◌,
  refl, sym, ap, ◌∙◌, arith, leb, select, order_by, length, take, text_eq, length-append,
  length-order_by,
}
use mathlib.Core.Path.{subst, fun_ext}
use entra_shift.Contracts.{Instant, AuditEntry}
use entra_shift.Db.AuditLog.{newer, AuditQuery, matches, holds, query, action_text}
use entra_shift.Db.AuditLog.Sorted.{AreBelow, AreDescending, AreDistinct, order_by-AreDescending}
use entra_shift.Db.AuditLog.Filtered.{select-AreDistinct, select-order_by}
use entra_shift.Db.AuditLog.Pages.{older, IsCut, IsPage, whole, part, query-IsPage, length-take}
use entra_shift.Routes.Audit.{AuditFilter, with_page, export_pages}

abbrev next : Bool → AuditEntry → List AuditEntry → List AuditEntry
next b e xs = elim b [ true ↦ e ∷ xs | false ↦ xs ]

none_left : (es : List AuditEntry) → length es ≤ 0 → [] ≡ es
none_left [] l = refl
none_left (e ∷ es) l = absurd (omega arith)

select-select :
    (p q : AuditEntry → Bool) (es : List AuditEntry)
    → select (λ e. p e && q e) es ≡ select q (select p es)
select-select p q [] = refl
select-select p q (e ∷ es) = go (select-select p q es) (p e)
  where
    go :
        select (λ x. p x && q x) es ≡ select q (select p es)
        → (a : Bool)
        → next (a && q e) e (select (λ x. p x && q x) es) ≡ select q (next a e (select p es))
    go ih true = ap (next (q e) e) ih
    go ih false = ih

select-below : (c : Instant) (es : List AuditEntry) → AreBelow c (select (older c) es)
select-below c [] = tt
select-below c (e ∷ es) = go (select-below c es) (older c e) refl
  where
    go :
        AreBelow c (select (older c) es)
        → (b : Bool) → older c e ≡ b
        → AreBelow c (elim b [ true ↦ e ∷ select (older c) es | false ↦ select (older c) es ])
    go ih true h = (ground arith, ih)
    go ih false h = ih

module _ (f : AuditFilter) (log : List AuditEntry) (own_times : AreDistinct log) where
  abbrev asked : Option Instant → AuditQuery
  asked c = with_page f c (some 500)

  abbrev pub rows : Option Instant → List AuditEntry
  rows c = order_by newer (select (matches (asked c)) log)

  cursor_test :
      (c : Instant) (e : AuditEntry)
      → matches (asked (some c)) e ≡ (matches (asked none) e && older c e)
  cursor_test c e =
      assoc (holds f.actor (λ a. text_eq e.actor_upn a))
        (holds f.action (λ a. text_eq (action_text e.action) a))
        (holds f.from (λ t. leb t e.created_at)) (holds f.to (λ t. leb e.created_at t)) (older c e)
    where
      assoc : (a b c d x : Bool) → (a && b && c && d && x) ≡ ((a && b && c && d && true) && x)
      assoc false b c d x = refl
      assoc true false c d x = refl
      assoc true true false d x = refl
      assoc true true true false x = refl
      assoc true true true true x = refl

  rows-cursor : (c : Instant) → rows (some c) ≡ select (older c) (rows none)
  rows-cursor c =
      ap (λ p. order_by newer (select p log)) (fun_ext (cursor_test c))
      ∙ ap (order_by newer) (select-select (matches (asked none)) (older c) log)
      ∙ sym (
          select-order_by (older c) (select (matches (asked none)) log)
            (select-AreDistinct _ log own_times))

  rows-AreDescending : (c : Option Instant) → AreDescending (rows c)
  rows-AreDescending c = order_by-AreDescending _ (select-AreDistinct _ log own_times)

  -- Below a cursor that is older still, the first cursor adds nothing.
  older_twice :
      (t c : Instant) (es : List AuditEntry)
      → t ≤ c
      → select (older t) (select (older c) es) ≡ select (older t) es
  older_twice t c es l =
      sym (select-select (older c) (older t) es)
      ∙ ap (λ p. select p es) (fun_ext (λ e. ground arith))

  rows_below :
      (c : Option Instant) (n : ℕ) (t : Instant)
      → IsCut n (rows c) t
      → rows (some t) ≡ select (older t) (rows c)
  rows_below none n t cut = rows-cursor t
  rows_below (some c) n t cut =
      rows-cursor t
      ∙ sym (
          older_twice t c (rows none) (
            let u =
              cut.under c (subst (AreBelow c) (sym (rows-cursor c)) (select-below c (rows none))) in
            omega arith))
      ∙ ap (select (older t)) (sym (rows-cursor c))

  export_from :
      (fuel : ℕ) (c : Option Instant)
      → length (rows c) ≤ fuel * 500
      → export_pages fuel f c log ≡ rows c
  unfolding export_pages
  export_from zero c l = none_left (rows c) (omega arith)
  export_from (suc fuel) c l =
      go (export_from fuel) (query (asked c) log)
        (query-IsPage (asked c) log (omega arith) (rows-AreDescending c))
    where
      go :
          ((d : Option Instant) → length (rows d) ≤ fuel * 500 → export_pages fuel f d log ≡ rows d)
          → (r : List AuditEntry × Option Instant) → IsPage 500 (rows c) r
          → (elim r.1 as (λ _. List AuditEntry) [
            | none ↦ r.0
            | some t ↦ r.0 ++ export_pages fuel f (some t) log
          ])
            ≡ rows c
      go ih _ (whole few) = refl
      go ih _ (part t many cut) =
          let below = rows_below c 500 t cut in
          let left = select (older t) (rows c) in
          let sum = sym (length-append (take 500 (rows c)) left) ∙ ap length cut.rest in
          let full = length-take 500 (rows c) (omega arith) in
          let same = ap length below in
          ap (λ xs. take 500 (rows c) ++ xs)
            (ih (some t) (omega (arith, sum, full, same, l)) ∙ below)
          ∙ cut.rest

-- The pages of the export, taken together, are just the entries that match the filter, the newest
-- first, each once: as long as no two entries share their time and at most 100,000 match, which is
-- what the 200 pages of the loop hold.
pub export_pages-order_by :
    (f : AuditFilter) (log : List AuditEntry)
    → AreDistinct log
    → length (select (matches (with_page f none none)) log) ≤ 100000
    → (export_pages 200 f none log ≡ order_by newer (select (matches (with_page f none none)) log))
      × AreDescending (export_pages 200 f none log)
export_pages-order_by f log own_times few =
    let all =
      export_from f log own_times 200 none
        (omega (arith, length-order_by newer (select (matches (with_page f none none)) log))) in
    (all, subst AreDescending (sym all) (rows-AreDescending f log own_times none))
