-- ===== src/Routes/Users/Unique.antt =====
-- The queue of users keeps one row for each address (worker/src/routes/users.ts).
use entra_shift.Common.{
  ◌≡◌, refl, ◌∙◌, Bool, false, List, [], ◌∷◌, Option, none, some, Text, arith, any, any-update,
  update, patch, select, Bool-cases, Option-cases, inl, inr,
}
use mathlib.Core.Path.{subst}
use entra_shift.Contracts.{AuditAction, Instant, MigrationUser}
use entra_shift.Csv.Import.{ImportRow}
use entra_shift.Db.{remove_user}
use entra_shift.App.{World}
use entra_shift.App.Actions.{audit}
use entra_shift.App.Triple.{
  Keeps, After-same, pure-Triple, gets-Triple, gets_keep, act_keep, modify_keep, modify-Triple,
  or_throw-Triple, or_throw_keep, throw_if_keep, if_Triple, bind-Triple, then_Triple,
}
use entra_shift.Routes.Users.{
  PartialUser, given_id, selected_users, imported_users, save_users, save_import, post_users,
  import_users, delete_user,
}
use entra_shift.Db.Users.{has_id, has_email, merge, upsert, upsert_batch}

-- Ids and source addresses are unique.
abbrev pub IsKeyed : List MigrationUser → Type 0
IsKeyed [] = Unit
IsKeyed (u ∷ users) =
    (any (has_id u.id) users ≡ false)
    × (any (has_email u.source_email) users ≡ false)
    × IsKeyed users

-- A change of rows that keeps id and address.
update-IsKeyed :
    (p : MigrationUser → Bool) (f : MigrationUser → MigrationUser)
    → ((x : MigrationUser) → (f x).id ≡ x.id)
    → ((x : MigrationUser) → (f x).source_email ≡ x.source_email)
    → (users : List MigrationUser) → IsKeyed users
    → IsKeyed (update p f users)
update-IsKeyed p f ids emails [] h = tt
update-IsKeyed p f ids emails (u ∷ users) (i, e, h) =
    let is = any-update p (has_id u.id) f (λ x. rw (ids x) refl) users ∙ i in
    let es = any-update p (has_email u.source_email) f (λ x. rw (emails x) refl) users ∙ e in
    let rest = update-IsKeyed p f ids emails users h in
    elim (Bool-cases (p u)) [
      | inl hit ↦ rw (hit, patch, ids u, emails u) (is, es, rest)
      | inr miss ↦ rw (miss, patch) (is, es, rest)
    ]

upsert-IsKeyed :
    (u : MigrationUser) (users : List MigrationUser) {users' : List MigrationUser}
    → upsert u users ≡ some users'
    → IsKeyed users
    → IsKeyed users'
unfolding upsert
upsert-IsKeyed u users {users'} e h = elim (Bool-cases (any (has_email u.source_email) users)) [
  | inl there ↦
      let kept =
        update-IsKeyed (has_email u.source_email) (merge u) (λ x. refl) (λ x. refl) users h in
      ground arith
  | inr fresh ↦ ground arith
]

pub upsert_batch-IsKeyed :
    (us users : List MigrationUser) {users' : List MigrationUser}
    → upsert_batch us users ≡ some users'
    → IsKeyed users
    → IsKeyed users'
unfolding upsert_batch
upsert_batch-IsKeyed [] users {users'} e h = let same : users ≡ users' = cc in subst IsKeyed same h
upsert_batch-IsKeyed (u ∷ us) users {users'} e h = elim (Option-cases (upsert u users)) [
  | inl broken ↦ ground arith
  | inr (next, made) ↦
      upsert_batch-IsKeyed us next (rw (made, upsert_batch) at e) (upsert-IsKeyed u users made h)
]

any-select_le :
    (p q : MigrationUser → Bool) (users : List MigrationUser)
    → any p users ≡ false
    → any p (select q users) ≡ false
any-select_le p q [] e = refl
any-select_le p q (u ∷ users) e = elim (Bool-cases (q u)) [
  | inl stays ↦ rw (stays, select) (ground (arith, any-select_le p q users))
  | inr gone ↦ rw (gone, select) (any-select_le p q users (ground arith))
]

select-IsKeyed :
    (q : MigrationUser → Bool) (users : List MigrationUser)
    → IsKeyed users
    → IsKeyed (select q users)
select-IsKeyed q [] h = tt
select-IsKeyed q (u ∷ users) (i, e, h) = elim (Bool-cases (q u)) [
  | inl stays ↦
      rw (stays, select)
        (
          any-select_le (has_id u.id) q users i,
          any-select_le (has_email u.source_email) q users e,
          select-IsKeyed q users h,
        )
  | inr gone ↦ rw (gone, select) (select-IsKeyed q users h)
]

abbrev pub HasUniqueUsers : World → Type 0
HasUniqueUsers w = IsKeyed w.db.users

audit-Keeps :
    (actor : Text) (action : AuditAction) (target detail : Option Text)
    → Keeps HasUniqueUsers (audit actor action target detail)
unfolding audit
audit-Keeps actor action target detail =
    then_Triple (act_keep _ (λ w h. h))
      (λ _. then_Triple (gets_keep _) (λ now. modify_keep _ (λ w h. h)))

save_users-Keeps : (rows : List MigrationUser) → Keeps HasUniqueUsers (save_users rows)
unfolding save_users
save_users-Keeps rows =
    bind-Triple (λ o w. HasUniqueUsers w × (upsert_batch rows w.db.users ≡ o))
      (gets-Triple _ (λ w h. (h, refl)))
      (λ o.
        bind-Triple (λ users _. IsKeyed users)
          (or_throw-Triple o _ (λ w h. h.0)
            (λ users w e h. upsert_batch-IsKeyed rows w.db.users (h.1 ∙ e) h.0))
          (λ users.
            bind-Triple (λ _. HasUniqueUsers) (modify-Triple _ (λ w h. h))
              (λ _. modify_keep _ (λ w h. h))))

selected_users-Keeps :
    (us : List PartialUser) (now : Instant) → Keeps HasUniqueUsers (selected_users us now)
unfolding selected_users
selected_users-Keeps [] now = pure-Triple [] (λ w h. h)
selected_users-Keeps (u ∷ us) now = then_Triple (or_throw_keep _ _ (λ w h. h)) (λ email.
    then_Triple (id-Keeps u.id)
      (λ id. then_Triple (selected_users-Keeps us now) (λ rest. pure-Triple _ (λ w h. h))))
  where
    id-Keeps : (o : Option Text) → Keeps HasUniqueUsers (given_id o)
    id-Keeps none = act_keep _ (λ w h. h)
    id-Keeps (some id) = pure-Triple id (λ w h. h)

imported_users-Keeps :
    (rs : List ImportRow) (now : Instant) → Keeps HasUniqueUsers (imported_users rs now)
unfolding imported_users
imported_users-Keeps [] now = pure-Triple [] (λ w h. h)
imported_users-Keeps (r ∷ rs) now =
    then_Triple (act_keep _ (λ w h. h))
      (λ id. then_Triple (imported_users-Keeps rs now) (λ rest. pure-Triple _ (λ w h. h)))

save_import-Keeps : (rows : List ImportRow) → Keeps HasUniqueUsers (save_import rows)
unfolding save_import
save_import-Keeps rows =
    then_Triple (gets_keep _)
      (λ now. then_Triple (imported_users-Keeps rows now) (λ users. save_users-Keeps users))

post_users-Keeps :
    (actor : Text) (input : List PartialUser) → Keeps HasUniqueUsers (post_users actor input)
unfolding post_users
post_users-Keeps actor input = then_Triple (throw_if_keep _ _ (λ w h. h)) (λ _.
    then_Triple (gets_keep _) (λ now. then_Triple (selected_users-Keeps input now) (λ rows.
      then_Triple (save_users-Keeps rows) (λ _.
        then_Triple (audit-Keeps actor _ _ _)
          (λ _. then_Triple (modify_keep _ (λ w h. h)) (λ _. gets_keep _))))))

import_users-Keeps : (actor csv : Text) → Keeps HasUniqueUsers (import_users actor csv)
unfolding import_users
import_users-Keeps actor csv = then_Triple (throw_if_keep _ _ (λ w h. h)) (λ _.
    then_Triple (gets_keep _) (λ result.
      then_Triple
        (if_Triple _ (λ _. pure-Triple tt (λ w h. h)) (λ _. save_import-Keeps result.accepted))
        (λ _.
          then_Triple (audit-Keeps actor _ _ _)
            (λ _. then_Triple (modify_keep _ (λ w h. h)) (λ _. pure-Triple _ (λ w h. h))))))

delete_user-Keeps : (actor id : Text) → Keeps HasUniqueUsers (delete_user actor id)
unfolding delete_user remove_user
delete_user-Keeps actor id = then_Triple (gets_keep _) (λ existing.
    then_Triple (or_throw_keep _ _ (λ w h. h)) (λ user.
      then_Triple (modify_keep _ (λ w h. select-IsKeyed _ w.db.users h)) (λ _.
        then_Triple (modify_keep _ (λ w h. h))
          (λ _. then_Triple (audit-Keeps actor _ _ _) (λ _. modify_keep _ (λ w h. h))))))

-- The requests of the router.
pub data UserRequest : Type 0 where
  selecting : Text → List PartialUser → UserRequest
  importing : Text → Text → UserRequest
  deleting : Text → Text → UserRequest

abbrev pub serve_user : UserRequest → World → World
serve_user (selecting actor input) w = (post_users actor input w).1
serve_user (importing actor csv) w = (import_users actor csv w).1
serve_user (deleting actor id) w = (delete_user actor id w).1

-- Selecting, importing and deleting users keep the ids and the source addresses of the queue unique,
-- whether the request succeeds or fails.
pub serve_user-IsKeyed :
    (r : UserRequest) (w : World) → IsKeyed w.db.users → IsKeyed (serve_user r w).db.users
serve_user-IsKeyed (selecting actor input) w h =
    let r = post_users actor input w in
    After-same HasUniqueUsers r.0 r.1 ((post_users-Keeps actor input).at w h)
serve_user-IsKeyed (importing actor csv) w h =
    let r = import_users actor csv w in
    After-same HasUniqueUsers r.0 r.1 ((import_users-Keeps actor csv).at w h)
serve_user-IsKeyed (deleting actor id) w h =
    let r = delete_user actor id w in
    After-same HasUniqueUsers r.0 r.1 ((delete_user-Keeps actor id).at w h)
