-- ===== src/Routes/Mapping/Resolved.antt =====
-- What PATCH /api/migration-users/:id/mapping stores (worker/src/routes/mapping.ts).
use entra_shift.Common.{
  ◌≡◌, refl, ◌∙◌, Bool, true, false, List, Option, some, Text, arith, coalesce, or_else, find,
  find-update, find_sound, patched, patch, Option-cases, inl, inr, Bool-cases,
}
use entra_shift.Contracts.{
  MappingStatus, unmapped, mapped, auto_create, provisioned, invalid, MigrationUser, AuditAction,
}
use entra_shift.Db.Users.{has_id, get_by_id, update_mapping}
use entra_shift.App.{World, ok}
use entra_shift.App.Actions.{audit}
use entra_shift.App.Triple.{
  Triple, After-ok, gets-Triple, gets_keep, act_keep, modify_keep, modify-Triple, or_throw_keep,
  bind-Triple, then_Triple,
}
use entra_shift.Routes.Mapping.{MappingChange, is_given, resolved, settle_mapping, patch_mapping}

-- A status that promises a target.
abbrev needs_target : MappingStatus → Bool
needs_target mapped = true
needs_target auto_create = true
needs_target _ = false

settle_mapping-given :
    (resolve : Text → Option Text) (requested : MappingStatus) (email upn : Option Text)
    → let (target, status) = settle_mapping resolve requested email upn in
      needs_target status ≡ true → is_given target ≡ true
unfolding settle_mapping
settle_mapping-given resolve auto_create email upn h =
    elim (Bool-cases (is_given (coalesce upn email))) [ inl e ↦ e | inr e ↦ ground arith ]
settle_mapping-given resolve mapped email upn h =
    elim (Bool-cases (is_given (resolved resolve upn email))) [ inl e ↦ e | inr e ↦ ground arith ]
settle_mapping-given resolve unmapped email upn h = cc
settle_mapping-given resolve provisioned email upn h = cc
settle_mapping-given resolve invalid email upn h = cc

abbrev Given : Text → World → Type 0
Given id w =
    (u : MigrationUser)
    → get_by_id id w.db.users ≡ some u
    → needs_target u.mapping_status ≡ true
    → is_given u.target_upn ≡ true

update-Given :
    (id : Text) (email target : Option Text) (status : MappingStatus) (users : List MigrationUser)
    (u : MigrationUser)
    → get_by_id id (update_mapping id email target status users) ≡ some u
    → (u.target_upn ≡ target) × (u.mapping_status ≡ status)
unfolding update_mapping
update-Given id email target status users u e =
    let set : MigrationUser → MigrationUser =
      λ v. record v { target_email = email; target_upn = target; mapping_status = status } in
    let step = find-update (has_id id) (has_id id) set (λ x. refl) users in
    elim (Option-cases (find (has_id id) users)) [
      | inl missing ↦ ground arith
      | inr (v, found) ↦
          let hit = find_sound (has_id id) users found in
          let here : find (has_id id) (update_mapping id email target status users) ≡ some (set v) =
            step ∙ rw (found, patched, patch, hit) in
          ground arith
    ]

audit-Given :
    {E : World → Type 0} (id actor : Text) (action : AuditAction) (target detail : Option Text)
    → Triple E (Given id) (audit actor action target detail) (λ _. Given id)
unfolding audit
audit-Given id actor action target detail =
    then_Triple (act_keep _ (λ w h. h))
      (λ _. then_Triple (gets_keep _) (λ now. modify_keep _ (λ w h. h)))

patch_mapping-Triple :
    (resolve : Text → Option Text) (actor id : Text) (body : MappingChange)
    → Triple
        (λ _. Unit {0})
        (λ _. Unit {0})
        (patch_mapping resolve actor id body)
        (λ o w.
          (u : MigrationUser)
          → o ≡ some u
          → needs_target u.mapping_status ≡ true
          → is_given u.target_upn ≡ true)
unfolding patch_mapping
patch_mapping-Triple resolve actor id body = then_Triple (gets_keep _) (λ found.
    then_Triple (or_throw_keep _ _ (λ w h. h)) (λ existing.
      let email = or_else body.target_email existing.target_email in
      let requested = or_else body.mapping_status existing.mapping_status in
      let settled = settle_mapping resolve requested email body.target_upn in
      bind-Triple (λ _. Given id)
        (modify-Triple _ (λ w h u e needs.
          let (t, s) = update-Given id email settled.0 settled.1 w.db.users u e in
          rw t (settle_mapping-given resolve requested email body.target_upn (rw s at needs))))
        (λ _. then_Triple (modify_keep _ (λ w h. h)) (λ _.
          then_Triple (audit-Given id actor _ _ _)
            (λ _. then_Triple (modify_keep _ (λ w h. h)) (λ _. gets-Triple _ (λ w h. h)))))))

-- A mapping is never assumed: whatever was asked for, the user that the handler returns is `mapped`
-- or `auto_create` only with a target principal name that is not empty.
pub patch_mapping-given :
    (resolve : Text → Option Text) (actor id : Text) (body : MappingChange) (w : World)
    (u : MigrationUser)
    → (patch_mapping resolve actor id body w).0 ≡ ok (some u)
    → needs_target u.mapping_status ≡ true
    → is_given u.target_upn ≡ true
patch_mapping-given resolve actor id body w u e =
    let r = patch_mapping resolve actor id body w in
    After-ok _ _ r.0 r.1 ((patch_mapping-Triple resolve actor id body).at w tt) e u refl
