-- ===== src/Db/AuditLog/Sorted.antt =====
-- `ORDER BY created_at DESC` of worker/src/db/audit.ts on entries with times of their own.
use entra_shift.Common.{
  ◌<◌, Bool, true, false, List, [], ◌∷◌, ◌≡◌, ◌≢◌, refl, sym, arith, order_by, insert_ordered,
  insert_all, if◌then◌else◌,
}
use entra_shift.Contracts.{Instant, AuditEntry}
use entra_shift.Db.AuditLog.{newer}

-- All entries are older than `t`, or none has the time `t`.
abbrev pub AreBelow : Instant → List AuditEntry → Type 0
AreBelow t [] = Unit
AreBelow t (e ∷ es) = (e.created_at < t) × AreBelow t es

abbrev pub AreOther : Instant → List AuditEntry → Type 0
AreOther t [] = Unit
AreOther t (e ∷ es) = (e.created_at ≢ t) × AreOther t es

abbrev pub AreDescending : List AuditEntry → Type 0
AreDescending [] = Unit
AreDescending (e ∷ es) = AreBelow e.created_at es × AreDescending es

-- No two entries share their time.
abbrev pub AreDistinct : List AuditEntry → Type 0
AreDistinct [] = Unit
AreDistinct (e ∷ es) = AreOther e.created_at es × AreDistinct es

abbrev pub AreApart : List AuditEntry → List AuditEntry → Type 0
AreApart [] sorted = Unit
AreApart (x ∷ xs) sorted = AreOther x.created_at sorted × AreApart xs sorted

abbrev pub put : AuditEntry → List AuditEntry → List AuditEntry
put = insert_ordered newer

pub below_later : (s t : Instant) (es : List AuditEntry) → s < t → AreBelow s es → AreBelow t es
below_later s t [] l b = tt
below_later s t (e ∷ es) l b = (omega (arith, b.0), below_later s t es l b.1)

put-AreBelow :
    (t : Instant) (x : AuditEntry) (ys : List AuditEntry)
    → x.created_at < t
    → AreBelow t ys
    → AreBelow t (put x ys)
unfolding insert_ordered
put-AreBelow t x [] l b = (l, tt)
put-AreBelow t x (y ∷ ys) l b = go (put-AreBelow t x ys l b.1) (newer x y)
  where
    go : AreBelow t (put x ys) → (c : Bool) → AreBelow t (if c then x ∷ y ∷ ys else y ∷ put x ys)
    go ih true = (l, b)
    go ih false = (b.0, ih)

put-AreOther :
    (t : Instant) (x : AuditEntry) (ys : List AuditEntry)
    → x.created_at ≢ t
    → AreOther t ys
    → AreOther t (put x ys)
unfolding insert_ordered
put-AreOther t x [] l b = (l, tt)
put-AreOther t x (y ∷ ys) l b = go (put-AreOther t x ys l b.1) (newer x y)
  where
    go : AreOther t (put x ys) → (c : Bool) → AreOther t (if c then x ∷ y ∷ ys else y ∷ put x ys)
    go ih true = (l, b)
    go ih false = (b.0, ih)

pub put-AreDescending :
    (x : AuditEntry) (ys : List AuditEntry)
    → AreOther x.created_at ys
    → AreDescending ys
    → AreDescending (put x ys)
unfolding insert_ordered
put-AreDescending x [] o d = (tt, tt)
put-AreDescending x (y ∷ ys) o d = go (put-AreDescending x ys o.1 d.1) (newer x y) refl
  where
    go :
        AreDescending (put x ys)
        → (c : Bool) → newer x y ≡ c
        → AreDescending (if c then x ∷ y ∷ ys else y ∷ put x ys)
    go ih true e =
        let l : y.created_at < x.created_at = ground arith in ((l, below_later _ _ ys l d.0), d)
    go ih false e =
        let l : x.created_at < y.created_at = let other = o.0 in ground arith in
        (put-AreBelow _ x ys l d.0, ih)

pub put-AreApart :
    (x : AuditEntry) (xs ys : List AuditEntry)
    → AreOther x.created_at xs
    → AreApart xs ys
    → AreApart xs (put x ys)
put-AreApart x [] ys o a = tt
put-AreApart x (z ∷ xs) ys o a =
    (put-AreOther z.created_at x ys (λ e. o.0 (sym e)) a.0, put-AreApart x xs ys o.1 a.1)

insert_all-AreDescending :
    (xs ys : List AuditEntry)
    → AreDistinct xs
    → AreApart xs ys
    → AreDescending ys
    → AreDescending (insert_all newer xs ys)
unfolding insert_all
insert_all-AreDescending [] ys n a d = d
insert_all-AreDescending (x ∷ xs) ys n a d =
    insert_all-AreDescending xs (put x ys) n.1 (put-AreApart x xs ys n.0 a.1)
      (put-AreDescending x ys a.0 d)

pub AreApart-nil : (xs : List AuditEntry) → AreApart xs []
AreApart-nil [] = tt
AreApart-nil (x ∷ xs) = (tt, AreApart-nil xs)

pub order_by-AreDescending :
    (xs : List AuditEntry) → AreDistinct xs → AreDescending (order_by newer xs)
unfolding order_by
order_by-AreDescending xs n = insert_all-AreDescending xs [] n (AreApart-nil xs) tt
