-- ===== src/Db/Tenants/Rows.antt =====
-- What the statements of worker/src/db/tenants.ts do to the row of a role and of an id.
use mathlib.Core.Path.{subst}
use entra_shift.Common.{
  ◌≡◌, refl, ap, ◌∙◌, arith, true, false, List, ◌∷◌, Option, some, any, find, find_sound,
  any_of_find, find-update, find-none_iff, patch, update, Option-cases, inl, inr,
}
use entra_shift.Contracts.{TenantRole, source, destination}
use entra_shift.Db.Tenants.{
  TenantRow, TenantStatus, UpsertTenantInput, has_role, same_role, new_row, merge, upsert,
}

same_role_refl : (r : TenantRole) → same_role r r ≡ true
same_role_refl source = refl
same_role_refl destination = refl

same_role_eq : (a b : TenantRole) → same_role a b ≡ true → a ≡ b
same_role_eq source source e = refl
same_role_eq destination destination e = refl
same_role_eq source destination e = cc
same_role_eq destination source e = cc

-- The row that a role has after an upsert for it holds what was put in.
pub record Carries (t : UpsertTenantInput) (row : TenantRow) : Type 0 where
  pub role : row.role ≡ t.role
  pub tenant_id : row.tenant_id ≡ t.tenant_id
  pub client_id : row.client_id ≡ t.client_id
  pub ciphertext : row.secret_ciphertext ≡ t.secret_ciphertext
  pub iv : row.secret_iv ≡ t.secret_iv
  pub untested : row.status ≡ TenantStatus.disconnected

pub record IsUpserted (t : UpsertTenantInput) (rows rows' : List TenantRow) : Type 0 where
  pub row : TenantRow
  pub found : find (has_role t.role) rows' ≡ some row
  pub carries : Carries t row
  pub others :
      (r : TenantRole)
      → same_role t.role r ≡ false
      → find (has_role r) rows' ≡ find (has_role r) rows

module _ (t : UpsertTenantInput) (rows : List TenantRow) where
  -- `find` sees an update of the role's row at that row only.
  merged : (r : TenantRole) → Option TenantRow
  merged r = find (has_role r) (update (has_role t.role) (merge t) rows)

  merged_here :
      (old : TenantRow)
      → find (has_role t.role) rows ≡ some old
      → merged t.role ≡ some (merge t old)
  unfolding merged
  merged_here old there =
      find-update (has_role t.role) (has_role t.role) (merge t) (λ x. refl) rows
      ∙ rw there (ap some (rw (find_sound (has_role t.role) rows there, patch) refl))

  merged_other : (r : TenantRole) → same_role t.role r ≡ false → merged r ≡ find (has_role r) rows
  unfolding merged
  merged_other r differ =
      find-update (has_role t.role) (has_role r) (merge t) (λ x. refl) rows
      ∙ elim (Option-cases (find (has_role r) rows)) [
        | inl out ↦ rw out refl
        | inr (x, found) ↦
            let role : x.role ≡ r = same_role_eq x.role r (find_sound (has_role r) rows found) in
            let kept : has_role t.role x ≡ false = rw role (flip t.role r differ) in
            rw found (ap some (rw (kept, patch) refl))
      ]
    where
      flip : (a b : TenantRole) → same_role a b ≡ false → same_role b a ≡ false
      flip source source e = e
      flip destination destination e = e
      flip source destination e = e
      flip destination source e = e

  merged-IsUpserted :
      (old : TenantRow)
      → find (has_role t.role) rows ≡ some old
      → IsUpserted t rows (update (has_role t.role) (merge t) rows)
  unfolding merged
  merged-IsUpserted old there = record {
    row = merge t old;
    found = merged_here old there;
    carries = record {
      role = same_role_eq old.role t.role (find_sound (has_role t.role) rows there);
      tenant_id = refl;
      client_id = refl;
      ciphertext = refl;
      iv = refl;
      untested = refl;
    };
    others = merged_other;
  }

  added-IsUpserted : IsUpserted t rows (new_row t ∷ rows)
  added-IsUpserted = record {
    row = new_row t;
    found = rw (same_role_refl t.role, find) refl;
    carries = record {
      role = refl;
      tenant_id = refl;
      client_id = refl;
      ciphertext = refl;
      iv = refl;
      untested = refl;
    };
    others = λ r differ. rw (differ, find) refl;
  }

pub upsert-IsUpserted :
    (t : UpsertTenantInput) (rows rows' : List TenantRow)
    → upsert t rows ≡ some rows'
    → IsUpserted t rows rows'
unfolding upsert
upsert-IsUpserted t rows rows' e = elim (Option-cases (find (has_role t.role) rows)) [
  | inl fresh ↦
      let absent = (find-none_iff (has_role t.role) rows).0 fresh in
      let same : new_row t ∷ rows ≡ rows' = ground arith in
      subst (IsUpserted t rows) same (added-IsUpserted t rows)
  | inr (old, there) ↦
      let present : any (has_role t.role) rows ≡ true =
        any_of_find (has_role t.role) (has_role t.role) rows there
          (find_sound (has_role t.role) rows there) in
      let same : update (has_role t.role) (merge t) rows ≡ rows' = ground arith in
      subst (IsUpserted t rows) same (merged-IsUpserted t rows old there)
]
