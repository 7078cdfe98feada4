-- ===== src/Web/Mapping/AutoCreate.antt =====
-- The switch of web/src/screens/MappingProvisioning.tsx and PATCH /api/migration-users/:id/mapping.
use entra_shift.Common.{
  suc, sym, length, select, Bool, true, false, List, [], ◌∷◌, Option, Text, map, ◌≡◌, refl, ◌∙◌, ap,
}
use mathlib.Core.Path.{ap₂}
use entra_shift.Contracts.{MappingStatus, MigrationUser}
use entra_shift.Db.Users.{has_id, update_mapping}
use entra_shift.App.{World}
use entra_shift.App.Actions.Keeps.{IsSteady, bill_keep, audit_keep}
use entra_shift.App.Triple.{Keeps, After-same, gets_keep, modify_keep, or_throw_keep, then_Triple}
use entra_shift.Routes.Mapping.{MappingChange, patch_mapping}
use entra_shift.Web.Mapping.{set_auto_create, auto_create_count}

-- What the switches of the rows show.
abbrev pub switches : List MigrationUser → List (Text × Bool)
switches = map (λ u. (u.id, u.auto_create_target))

update_mapping-switches :
    (id : Text) (email target : Option Text) (status : MappingStatus) (users : List MigrationUser)
    → switches (update_mapping id email target status users) ≡ switches users
unfolding update_mapping
update_mapping-switches id email target status [] = refl
update_mapping-switches id email target status (u ∷ users) =
    ap₂ (λ x xs. x ∷ xs) (here (has_id id u)) (update_mapping-switches id email target status users)
  where
    set : MigrationUser → MigrationUser
    set v = record v { target_email = email; target_upn = target; mapping_status = status }

    here :
        (b : Bool)
        → let v : MigrationUser = elim b [ true ↦ set u | false ↦ u ] in
          ◌≡◌ {A = Text × Bool} (v.id, v.auto_create_target) (u.id, u.auto_create_target)
    here true = refl
    here false = refl

abbrev Shown : List (Text × Bool) → World → Type 0
Shown old w = switches w.db.users ≡ old

Shown-IsSteady : (old : List (Text × Bool)) → IsSteady (Shown old)
Shown-IsSteady old = record { drawn = λ w n h. h; billed = λ w us h. h; logged = λ w log h. h }

patch_mapping-Shown :
    (resolve : Text → Option Text) (actor id : Text) (body : MappingChange)
    (old : List (Text × Bool))
    → Keeps (Shown old) (patch_mapping resolve actor id body)
unfolding patch_mapping
patch_mapping-Shown resolve actor id body old = then_Triple (gets_keep _) (λ found.
    then_Triple (or_throw_keep found _ (λ w h. h)) (λ existing.
      then_Triple (modify_keep _ (λ w h. update_mapping-switches id _ _ _ w.db.users ∙ h)) (λ _.
        then_Triple (bill_keep s 1) (λ _.
          then_Triple (audit_keep s actor _ _ _)
            (λ _. then_Triple (bill_keep s 1) (λ _. gets_keep _))))))
  where
    s : IsSteady (Shown old)
    s = Shown-IsSteady old

auto_create_count-switches :
    (users : List MigrationUser)
    → auto_create_count users ≡ length (select (λ x. x.1) (switches users))
unfolding auto_create_count
auto_create_count-switches [] = refl
auto_create_count-switches (u ∷ users) =
    let ih = auto_create_count-switches users in go ih u.auto_create_target
  where
    go :
        length (select (λ r. r.auto_create_target) users)
          ≡ length (select (λ x. x.1) (switches users))
        → (b : Bool)
        → length (elim b as (λ _. List MigrationUser) [
          | true ↦ u ∷ select (λ r. r.auto_create_target) users
          | false ↦ select (λ r. r.auto_create_target) users
        ])
          ≡ length (elim b as (λ _. List (Text × Bool)) [
            | true ↦ (u.id, u.auto_create_target) ∷ select (λ x. x.1) (switches users)
            | false ↦ select (λ x. x.1) (switches users)
          ])
    go ih true = ap suc ih
    go ih false = ih

-- The switch does not move: whichever way it is set, and for whichever row, every switch that the
-- screen reads back from the Worker shows what it showed before, and so does the count of users
-- that the button to provision names.
pub set_auto_create-switches :
    (resolve : Text → Option Text) (actor : Text) (u : MigrationUser) (next : Bool) (w : World)
    → let w' = (patch_mapping resolve actor u.id (set_auto_create u next) w).1 in
      (switches w'.db.users ≡ switches w.db.users)
      × (auto_create_count w'.db.users ≡ auto_create_count w.db.users)
set_auto_create-switches resolve actor u next w =
    let r = patch_mapping resolve actor u.id (set_auto_create u next) w in
    let same : switches r.1.db.users ≡ switches w.db.users =
      After-same (Shown (switches w.db.users)) r.0 r.1
        ((patch_mapping-Shown resolve actor u.id (set_auto_create u next) _).at w refl) in
    (
      same,
      auto_create_count-switches r.1.db.users
          ∙ ap (λ l. length (select (λ x. x.1) l)) same
          ∙ sym (auto_create_count-switches w.db.users),
    )
