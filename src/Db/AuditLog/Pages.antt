-- ===== src/Db/AuditLog/Pages.antt =====
-- A page of `query` of worker/src/db/audit.ts, and what is left for the next one.
use entra_shift.Common.{
  ℕ, zero, suc, ◌+◌, ◌-◌, ◌<◌, ◌≤◌, Bool, true, false, List, [], ◌∷◌, ◌++◌, Option, none, some, ◌≡◌,
  refl, sym, ap, ◌∙◌, arith, ltb, leb, select, order_by, if◌then◌else◌, Bool-cases, inl, inr,
  length, take, get_elem?,
}
use mathlib.Core.Path.{subst, ap₂}
use entra_shift.Contracts.{Instant, AuditEntry}
use entra_shift.Db.AuditLog.{newer, AuditQuery, matches, page_limit, time_of, query}
use entra_shift.Db.AuditLog.Sorted.{AreBelow, AreDescending}

-- The condition that a cursor adds.
abbrev pub older : Instant → AuditEntry → Bool
older t e = ltb e.created_at t

older_all : (t : Instant) (es : List AuditEntry) → AreBelow t es → select (older t) es ≡ es
older_all t [] b = refl
older_all t (e ∷ es) b =
    let here : older t e ≡ true = let l = b.0 in ground arith in
    let ih = older_all t es b.1 in rw (here, select) (ap (λ xs. e ∷ xs) ih)

older_none :
    (t : Instant) (e : AuditEntry) (es : List AuditEntry)
    → t ≤ e.created_at
    → select (older t) (e ∷ es) ≡ select (older t) es
older_none t e es l = let here : older t e ≡ false = ground arith in rw (here, select) refl

-- The last entry of a page gives the cursor, and what is older than it is all that is left.
pub record IsCut (n : ℕ) (es : List AuditEntry) (t : Instant) : Type 0 where
  pub last : time_of (get_elem? (take n es) (length (take n es) - 1)) ≡ some t
  pub rest : take n es ++ select (older t) es ≡ es
  pub under : (c : Instant) → AreBelow c es → t < c

shift : (k : ℕ) → suc (suc k - 1) ≡ suc (suc k) - 1
shift k = omega arith

cut :
    (n : ℕ) (es : List AuditEntry)
    → AreDescending es
    → 1 ≤ n
    → n ≤ length es
    → (t : Instant) × IsCut n es t
cut zero es d l m = absurd (omega arith)
cut (suc n) [] d l m = absurd (omega arith)
cut (suc zero) (e ∷ es) d l m = (
  e.created_at,
  record {
    last = refl;
    rest =
        ap (λ xs. e ∷ xs)
          (older_none e.created_at e es (omega arith) ∙ older_all e.created_at es d.0);
    under = λ c b. b.0;
  },
)
cut (suc (suc n)) (e ∷ []) d l m = absurd (omega arith)
cut (suc (suc n)) (e ∷ y ∷ ys) d l m =
    let (t, ih) = cut (suc n) (y ∷ ys) d.1 (omega arith) (omega arith) in
    (
      t,
      record {
        last =
            subst (λ j. time_of (get_elem? (e ∷ y ∷ take n ys) j) ≡ some t)
              (shift (length (take n ys))) ih.last;
        rest =
            ap (λ xs. e ∷ xs)
              (ap (λ xs. take (suc n) (y ∷ ys) ++ xs)
                  (older_none t e (y ∷ ys) (let u = ih.under e.created_at d.0 in omega arith))
                ∙ ih.rest);
        under = λ c b. ih.under c b.1;
      },
    )

take-take : (n : ℕ) (es : List AuditEntry) → take n (take (suc n) es) ≡ take n es
take-take zero es = refl
take-take (suc n) [] = refl
take-take (suc n) (e ∷ es) = ap (λ xs. e ∷ xs) (take-take n es)

take-all : (n : ℕ) (es : List AuditEntry) → length es ≤ n → take n es ≡ es
take-all zero [] l = refl
take-all zero (e ∷ es) l = absurd (omega arith)
take-all (suc n) [] l = refl
take-all (suc n) (e ∷ es) l = ap (λ xs. e ∷ xs) (take-all n es (omega arith))

pub length-take : (n : ℕ) (es : List AuditEntry) → n ≤ length es → length (take n es) ≡ n
length-take zero es l = refl
length-take (suc n) [] l = absurd (omega arith)
length-take (suc n) (e ∷ es) l = ap suc (length-take n es (omega arith))

longer : (n : ℕ) (es : List AuditEntry) → ltb n (length (take (suc n) es)) ≡ ltb n (length es)
longer n es = elim (Bool-cases (leb (length es) (suc n))) [
  | inl few ↦ ap (λ xs. ltb n (length xs)) (take-all (suc n) es (ground arith))
  | inr many ↦ let full = length-take (suc n) es (ground arith) in ground arith
]

-- A page of all that matches, the newest first, is the whole of it and the last page, or a cut of it.
pub data IsPage (n : ℕ) (es : List AuditEntry) : List AuditEntry × Option Instant → Type 0 where
  whole : length es ≤ n → IsPage n es (es, none)
  part : (t : Instant) → n < length es → IsCut n es t → IsPage n es (take n es, some t)

-- The page and the cursor that `query` makes of `k` rows.
abbrev page_of : ℕ → List AuditEntry → List AuditEntry × Option Instant
page_of n results =
    let page = take n results in
    (page, if ltb n (length results) then time_of (get_elem? page (length page - 1)) else none)

abbrev cursor_of : Bool → List AuditEntry → List AuditEntry × Option Instant
cursor_of more page = (page, if more then time_of (get_elem? page (length page - 1)) else none)

page_of-IsPage :
    (n : ℕ) (es : List AuditEntry)
    → 1 ≤ n
    → AreDescending es
    → IsPage n es (page_of n (take (suc n) es))
page_of-IsPage n es l d =
    subst (IsPage n es) (sym (ap₂ (λ xs b. cursor_of b xs) (take-take n es) (longer n es)))
      (go (ltb n (length es)) refl)
  where
    go : (more : Bool) → ltb n (length es) ≡ more → IsPage n es (cursor_of more (take n es))
    go true e =
        let many : n < length es = ground arith in
        let (t, c) = cut n es d l (omega arith) in
        subst (λ o. IsPage n es (take n es, o)) (sym c.last) (part t many c)
    go false e =
        let few : length es ≤ n = ground arith in
        subst (λ xs. IsPage n es (xs, none)) (sym (take-all n es few)) (whole few)

one_more : (n : ℕ) → suc n ≡ n + 1
one_more n = omega arith

pub query-IsPage :
    (q : AuditQuery) (log : List AuditEntry)
    → 1 ≤ page_limit q
    → AreDescending (order_by newer (select (matches q) log))
    → IsPage (page_limit q) (order_by newer (select (matches q) log)) (query q log)
unfolding query
query-IsPage q log l d =
    let es = order_by newer (select (matches q) log) in
    let n = page_limit q in
    subst (λ k. IsPage n es (page_of n (take k es))) (one_more n) (page_of-IsPage n es l d)
