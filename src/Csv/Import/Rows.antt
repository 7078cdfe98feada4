-- ===== src/Csv/Import/Rows.antt =====
-- When a row of an import is accepted: `check_row` against a description of the good rows.
use entra_shift.Common.{
  ◌≡◌, ◌≢◌, ◌↔◌, ◌≤◌, refl, ◌⊎◌, inl, inr, Bool, true, false, List, [], ◌∷◌, Option, none, some,
  arith, Text, text_eq_iff, trim, length, is_empty, All,
}
use entra_shift.Csv.Email.{IsEmail, is_email, is_email_iff}
use entra_shift.Csv.Import.{
  ImportRow, accept, includes, column, non_empty, parse_bool, check_flags, check_row,
}

pub not-includes_iff :
    (seen : List Text) (key : Text) → (includes seen key ≡ false) ↔ All (λ s. s ≢ key) seen
not-includes_iff [] key = (λ _. tt, λ _. refl)
not-includes_iff (s ∷ seen) key = ground (arith, text_eq_iff s key, not-includes_iff seen key)

module _ (to_lower : Text → Text) where
  -- The row that the cells spell, and why it can be migrated.
  pub record IsAdmitted (seen cols : List Text) (r : ImportRow) : Type 0 where
    pub wide : 5 ≤ length cols
    pub source : r.source_email ≡ trim (column cols 0)
    pub target : r.target_email ≡ non_empty (trim (column cols 1))
    pub exchange : parse_bool to_lower (column cols 2) ≡ some r.migrate_exchange
    pub one_drive : parse_bool to_lower (column cols 3) ≡ some r.migrate_one_drive
    pub auto_create : parse_bool to_lower (column cols 4) ≡ some r.auto_create_target
    pub source_email : IsEmail r.source_email
    pub target_email : (t : Text) → r.target_email ≡ some t → IsEmail t
    pub workload : (r.migrate_exchange ≡ true) ⊎ (r.migrate_one_drive ≡ true)
    pub resolvable : (r.target_email ≢ none) ⊎ (r.auto_create_target ≡ true)
    pub is_new : All (λ s. s ≢ to_lower r.source_email) seen

  -- What the last checks say of the row that they accept.
  record Flagged (seen : List Text) (source target : Text) (x o a : Option Bool) (r : ImportRow)
      : Type 0 where
    source_is : r.source_email ≡ source
    target_is : r.target_email ≡ non_empty target
    x_is : x ≡ some r.migrate_exchange
    o_is : o ≡ some r.migrate_one_drive
    a_is : a ≡ some r.auto_create_target
    target_ok : (is_empty target ≡ true) ⊎ (is_email target ≡ true)
    workload : (r.migrate_exchange ≡ true) ⊎ (r.migrate_one_drive ≡ true)
    resolvable : (is_empty target ≡ false) ⊎ (r.auto_create_target ≡ true)
    new_key : includes seen (to_lower source) ≡ false

  check_flags_iff :
      (seen : List Text) (source target : Text) (x o a : Option Bool) (r : ImportRow)
      → (check_flags to_lower seen source target x o a ≡ accept r)
        ↔ Flagged seen source target x o a r
  unfolding check_flags
  check_flags_iff seen source target (some x) (some o) (some a) r =
      (λ h. ground arith, λ f. ground arith)
  check_flags_iff seen source target _ _ _ r = (λ h. cc, λ f. ground arith)

  non_empty-eq-some : (s t : Text) → non_empty s ≡ some t → (s ≡ t) × (is_empty s ≡ false)
  non_empty-eq-some [] t h = cc
  non_empty-eq-some (c ∷ s) t h = ground arith

  non_empty-ne-none : (s : Text) → (non_empty s ≢ none) ↔ (is_empty s ≡ false)
  non_empty-ne-none [] = (λ h. absurd (h refl), λ h. cc)
  non_empty-ne-none (c ∷ s) = (λ h. refl, λ h e. cc)

  target_sound :
      (s t : Text) → (is_empty s ≡ true) ⊎ (is_email s ≡ true) → non_empty s ≡ some t → IsEmail t
  target_sound s t ok e = (is_email_iff t).0 (ground (arith, non_empty-eq-some s t e))

  resolvable_sound :
      (s : Text) (o : Option Text) (auto : Bool)
      → o ≡ non_empty s
      → (is_empty s ≡ false) ⊎ (auto ≡ true)
      → (o ≢ none) ⊎ (auto ≡ true)
  resolvable_sound s o auto e (inl given) = inl (rw e ((non_empty-ne-none s).1 given))
  resolvable_sound s o auto e (inr made) = inr made

  check_row_sound :
      (seen cols : List Text) (r : ImportRow)
      → check_row to_lower seen cols ≡ accept r
      → IsAdmitted seen cols r
  unfolding check_row
  check_row_sound seen cols r h = record {
    wide = ground arith;
    source = f.source_is;
    target = f.target_is;
    exchange = f.x_is;
    one_drive = f.o_is;
    auto_create = f.a_is;
    source_email = (is_email_iff _).0 (ground arith);
    target_email = λ t e. target_sound _ t f.target_ok (rw f.target_is at e);
    workload = f.workload;
    resolvable = resolvable_sound _ _ _ f.target_is f.resolvable;
    is_new = (not-includes_iff _ _).0 (ground arith);
  }
    where
      f :
          Flagged seen
            (trim (column cols 0))
            (trim (column cols 1))
            (parse_bool to_lower (column cols 2))
            (parse_bool to_lower (column cols 3))
            (parse_bool to_lower (column cols 4))
            r
      f = (check_flags_iff _ _ _ _ _ _ r).0 (ground arith)

  target_complete :
      (s : Text) (o : Option Text)
      → o ≡ non_empty s
      → ((t : Text) → o ≡ some t → IsEmail t)
      → (is_empty s ≡ true) ⊎ (is_email s ≡ true)
  target_complete [] o e f = inl refl
  target_complete (c ∷ s) o e f = inr ((is_email_iff _).1 (f (c ∷ s) e))

  resolvable_complete :
      (s : Text) (o : Option Text) (auto : Bool)
      → o ≡ non_empty s
      → (o ≢ none) ⊎ (auto ≡ true)
      → (is_empty s ≡ false) ⊎ (auto ≡ true)
  resolvable_complete s o auto e (inl given) = inl ((non_empty-ne-none s).0 (rw e at given))
  resolvable_complete s o auto e (inr made) = inr made

  IsEmail-not-empty : (s : Text) → IsEmail s → is_empty s ≡ false
  IsEmail-not-empty s e = go s ((is_email_iff s).1 e)
    where
      go : (t : Text) → is_email t ≡ true → is_empty t ≡ false
      go [] h = unfold is_email in cc
      go (_ ∷ _) h = refl

  check_row_complete :
      (seen cols : List Text) (r : ImportRow)
      → IsAdmitted seen cols r
      → check_row to_lower seen cols ≡ accept r
  unfolding check_row
  check_row_complete seen cols r d = ground (
    arith,
    IsEmail-not-empty r.source_email d.source_email,
    is_email_iff r.source_email,
    d.source_email,
    (check_flags_iff seen (trim (column cols 0)) (trim (column cols 1)) _ _ _ r).1 f,
  )
    where
      f :
          Flagged seen
            (trim (column cols 0))
            (trim (column cols 1))
            (parse_bool to_lower (column cols 2))
            (parse_bool to_lower (column cols 3))
            (parse_bool to_lower (column cols 4))
            r
      f = record {
        source_is = d.source;
        target_is = d.target;
        x_is = d.exchange;
        o_is = d.one_drive;
        a_is = d.auto_create;
        target_ok = target_complete _ _ d.target d.target_email;
        workload = d.workload;
        resolvable = resolvable_complete _ _ _ d.target d.resolvable;
        new_key = (not-includes_iff _ _).1 (rw d.source at d.is_new);
      }

  pub check_row_iff :
      (seen cols : List Text) (r : ImportRow)
      → (check_row to_lower seen cols ≡ accept r) ↔ IsAdmitted seen cols r
  check_row_iff seen cols r = (check_row_sound seen cols r, check_row_complete seen cols r)
