-- ===== src/Db/AuditLog/Filtered.antt =====
-- The conditions of a statement of worker/src/db/audit.ts, before and after its `ORDER BY`.
use entra_shift.Common.{
  ◌<◌, Bool, true, false, List, [], ◌∷◌, ◌≡◌, refl, sym, ap, ◌∙◌, arith, select, order_by,
  insert_ordered, insert_all, if◌then◌else◌, Bool-cases, inl, inr,
}
use entra_shift.Contracts.{Instant, AuditEntry}
use entra_shift.Db.AuditLog.{newer}
use entra_shift.Db.AuditLog.Sorted.{
  AreBelow, AreOther, AreDescending, AreDistinct, AreApart, put, put-AreDescending, put-AreApart,
  below_later, AreApart-nil,
}

module _ (p : AuditEntry → Bool) where
  abbrev kept : Bool → AuditEntry → List AuditEntry → List AuditEntry
  kept c x xs = elim c [ true ↦ x ∷ xs | false ↦ xs ]

  select-AreBelow : (t : Instant) (es : List AuditEntry) → AreBelow t es → AreBelow t (select p es)
  select-AreBelow t [] b = tt
  select-AreBelow t (e ∷ es) b = go (select-AreBelow t es b.1) (p e)
    where
      go : AreBelow t (select p es) → (c : Bool) → AreBelow t (kept c e (select p es))
      go ih true = (b.0, ih)
      go ih false = ih

  select-AreOther : (t : Instant) (es : List AuditEntry) → AreOther t es → AreOther t (select p es)
  select-AreOther t [] b = tt
  select-AreOther t (e ∷ es) b = go (select-AreOther t es b.1) (p e)
    where
      go : AreOther t (select p es) → (c : Bool) → AreOther t (kept c e (select p es))
      go ih true = (b.0, ih)
      go ih false = ih

  pub select-AreDescending : (es : List AuditEntry) → AreDescending es → AreDescending (select p es)
  select-AreDescending [] d = tt
  select-AreDescending (e ∷ es) d = go (select-AreDescending es d.1) (p e)
    where
      go : AreDescending (select p es) → (c : Bool) → AreDescending (kept c e (select p es))
      go ih true = (select-AreBelow e.created_at es d.0, ih)
      go ih false = ih

  pub select-AreDistinct : (es : List AuditEntry) → AreDistinct es → AreDistinct (select p es)
  select-AreDistinct [] d = tt
  select-AreDistinct (e ∷ es) d = go (select-AreDistinct es d.1) (p e)
    where
      go : AreDistinct (select p es) → (c : Bool) → AreDistinct (kept c e (select p es))
      go ih true = (select-AreOther e.created_at es d.0, ih)
      go ih false = ih

  put_first : (x : AuditEntry) (es : List AuditEntry) → AreBelow x.created_at es → put x es ≡ x ∷ es
  unfolding insert_ordered
  put_first x [] b = refl
  put_first x (e ∷ es) b =
      let first : newer x e ≡ true = let l = b.0 in ground arith in rw first refl

  abbrev placed : Bool → AuditEntry → List AuditEntry → List AuditEntry
  placed c x xs = elim c [ true ↦ put x xs | false ↦ xs ]

  -- An entry that comes before the next one, and one that comes behind it.
  put_before :
      (x y : AuditEntry) (es : List AuditEntry) (a b : Bool)
      → y.created_at < x.created_at
      → AreBelow y.created_at es
      → kept a x (kept b y es) ≡ placed a x (kept b y es)
  put_before x y es true true l d = sym (put_first x (y ∷ es) (l, below_later _ _ es l d))
  put_before x y es true false l d = sym (put_first x es (below_later _ _ es l d))
  put_before x y es false b l d = refl

  put_behind :
      (x y : AuditEntry) (es : List AuditEntry) (a b : Bool)
      → newer x y ≡ false
      → kept b y (placed a x es) ≡ placed a x (kept b y es)
  unfolding insert_ordered
  put_behind x y es true true e = rw e refl
  put_behind x y es true false e = refl
  put_behind x y es false b e = refl

  select-put :
      (x : AuditEntry) (ys : List AuditEntry)
      → AreDescending ys
      → select p (put x ys) ≡ placed (p x) x (select p ys)
  unfolding insert_ordered
  select-put x [] d = elim (Bool-cases (p x)) [ inl e ↦ rw e refl | inr e ↦ rw e refl ]
  select-put x (y ∷ ys) d = go (select-put x ys d.1) (newer x y) refl
    where
      go :
          select p (put x ys) ≡ placed (p x) x (select p ys)
          → (c : Bool) → newer x y ≡ c
          → select p (if c then x ∷ y ∷ ys else y ∷ put x ys) ≡ placed (p x) x (select p (y ∷ ys))
      go ih true e =
          put_before x y (select p ys) (p x) (p y) (ground arith) (select-AreBelow _ ys d.0)
      go ih false e = ap (kept (p y) y) ih ∙ put_behind x y (select p ys) (p x) (p y) e

  select-insert_all :
      (xs ys : List AuditEntry)
      → AreDistinct xs
      → AreApart xs ys
      → AreDescending ys
      → select p (insert_all newer xs ys) ≡ insert_all newer (select p xs) (select p ys)
  unfolding insert_all
  select-insert_all [] ys n a d = refl
  select-insert_all (x ∷ xs) ys n a d =
      select-insert_all xs (put x ys) n.1 (put-AreApart x xs ys n.0 a.1)
        (put-AreDescending x ys a.0 d)
      ∙ ap (insert_all newer (select p xs)) (select-put x ys d)
      ∙ go (p x)
    where
      go :
          (c : Bool)
          → insert_all newer (select p xs) (placed c x (select p ys))
            ≡ insert_all newer (kept c x (select p xs)) (select p ys)
      go true = refl
      go false = refl

  pub select-order_by :
      (xs : List AuditEntry)
      → AreDistinct xs
      → select p (order_by newer xs) ≡ order_by newer (select p xs)
  unfolding order_by
  select-order_by xs n = select-insert_all xs [] n (AreApart-nil xs) tt
