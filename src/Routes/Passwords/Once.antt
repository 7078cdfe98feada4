-- ===== src/Routes/Passwords/Once.antt =====
-- The temporary passwords are handed out once.
use entra_shift.Common.{
  ◌≡◌, refl, ◌∙◌, sym, ap, Bool, true, false, ◌&&◌, List, [], ◌∷◌, map, Option, some, Text, units,
  text_eq, text_eq_refl, arith, any, select, update, patch, order_by, any-order_by, any-map,
  any-select, All, All-imp, Bool-cases, inl, inr, ltb,
}
use entra_shift.Contracts.{Instant, AuditAction}
use entra_shift.App.Triple.{
  Triple, After-ok, After-err, pure-Triple, gets-Triple, modify-Triple, act_keep, gets_keep,
  modify_keep, throw_if_keep, or_throw_keep, bind-Triple, then_Triple,
}
use entra_shift.Errors.{Thrown, raised, not_found}
use entra_shift.App.{World, ok, err, ◌>>=◌}
use entra_shift.App.Actions.{audit}
use entra_shift.Routes.Passwords.{download}
use entra_shift.Db.Credentials.{
  CredentialRow, is_pending, to_pending, purge, list_pending, mark_downloaded_and_purge,
}

abbrev in_ids : List Text → CredentialRow → Bool
in_ids ids c = any (λ id. text_eq c.id id) ids

-- A row is among the ids of the pending rows if it is pending.
self_listed :
    (creds : List CredentialRow)
    → All
        (λ c. is_pending c ≡ true → any (λ d. is_pending d && text_eq c.id d.id) creds ≡ true)
        creds
self_listed [] = tt
self_listed (c ∷ creds) = (
  λ open_yet. rw (open_yet, text_eq_refl c.id) refl,
  All-imp _ _ creds (λ d h open_yet. ground (arith, h open_yet)) (self_listed creds),
)

listed :
    (c : CredentialRow) (creds : List CredentialRow)
    → in_ids (map (λ p. p.id) (list_pending creds)) c
      ≡ any (λ d. is_pending d && text_eq c.id d.id) creds
unfolding list_pending
listed c creds =
    any-map _ _ (list_pending creds)
    ∙ any-map _ to_pending
        (order_by (λ a b. ltb a.created_at b.created_at) (select is_pending creds))
    ∙ any-order_by _ _ (select is_pending creds)
    ∙ any-select _ is_pending creds

none_left :
    (q : CredentialRow → Bool) (now : Instant) (creds : List CredentialRow)
    → All (λ c. is_pending c ≡ true → q c ≡ true) creds
    → select is_pending (update q (purge now) creds) ≡ []
none_left q now [] h = refl
none_left q now (c ∷ creds) (k, h) = elim (Bool-cases (q c)) [
  | inl purged ↦ rw (purged, patch, select) (none_left q now creds h)
  | inr kept ↦
      let gone : is_pending c ≡ false = ground (arith, k) in
      rw (kept, patch, gone, select) (none_left q now creds h)
]

update-nowhere :
    (f : CredentialRow → CredentialRow) (creds : List CredentialRow)
    → update (in_ids []) f creds ≡ creds
update-nowhere f [] = refl
update-nowhere f (c ∷ creds) = rw (update-nowhere f creds) refl

mark-update :
    (ids : List Text) (now : Instant) (creds : List CredentialRow)
    → mark_downloaded_and_purge ids now creds ≡ update (in_ids ids) (purge now) creds
unfolding mark_downloaded_and_purge
mark-update [] now creds = sym (update-nowhere (purge now) creds)
mark-update (id ∷ ids) now creds = refl

-- Purging the rows that `listPending` gives leaves none pending.
purge-all :
    (now : Instant) (creds : List CredentialRow)
    → list_pending (mark_downloaded_and_purge (map (λ p. p.id) (list_pending creds)) now creds) ≡ []
unfolding list_pending order_by
purge-all now creds =
    empty_list (mark_downloaded_and_purge (map (λ p. p.id) (list_pending creds)) now creds) (
      ap (select is_pending) (mark-update (map (λ p. p.id) (list_pending creds)) now creds)
      ∙ none_left (in_ids (map (λ p. p.id) (list_pending creds))) now creds
          (All-imp _ _ creds (λ c h open_yet. listed c creds ∙ h open_yet) (self_listed creds)))
  where
    empty_list : (cs : List CredentialRow) → select is_pending cs ≡ [] → list_pending cs ≡ []
    empty_list cs e = rw (e, list_pending) refl

abbrev NonePending : World → Type 0
NonePending w = list_pending w.db.credentials ≡ []

abbrev Same : List CredentialRow → World → Type 0
Same old w = w.db.credentials ≡ old

audit-Keeps :
    (old : List CredentialRow) (actor : Text) (action : AuditAction) (target detail : Option Text)
    → Triple (Same old) NonePending (audit actor action target detail) (λ _. NonePending)
unfolding audit
audit-Keeps old actor action target detail =
    then_Triple (act_keep _ (λ w h. h))
      (λ id. then_Triple (gets_keep _) (λ now. modify_keep _ (λ w h. h)))

download-Triple :
    (decrypt : Text → Text → Option Text) (actor : Text) (ack : Option Text)
    (old : List CredentialRow)
    → Triple (Same old) (Same old) (download decrypt actor ack) (λ _. NonePending)
unfolding download
download-Triple decrypt actor ack old = then_Triple (throw_if_keep _ _ (λ w h. h)) (λ _.
    bind-Triple (λ creds w. Same old w × (creds ≡ list_pending w.db.credentials))
      (gets-Triple _ (λ w h. (h, refl)))
      (λ creds. then_Triple (throw_if_keep _ _ (λ w h. h.0)) (λ _.
        then_Triple (or_throw_keep _ _ (λ w h. h.0)) (λ rows. then_Triple (gets_keep _) (λ now.
          bind-Triple (λ _. NonePending)
            (modify-Triple _ (λ w h. rw h.1 (purge-all now w.db.credentials)))
            (λ _. then_Triple (modify_keep _ (λ w h. h)) (λ _.
              then_Triple (audit-Keeps old actor _ _ _)
                (λ _. then_Triple (modify_keep _ (λ w h. h)) (λ _. pure-Triple _ (λ w h. h))))))))))

-- Once a download has returned the file, no password is pending: the next download that is
-- acknowledged, at any time, by any user and under any key, finds none.
pub download-once :
    (decrypt decrypt2 : Text → Text → Option Text) (actor actor2 : Text) (ack : Option Text)
    (w : World) (csv : Text)
    → (download decrypt actor ack w).0 ≡ ok csv
    → (later : Instant)
    → let w' = (download decrypt actor ack w).1 in
      (download decrypt2 actor2 (some (units "true")) (record w' { now = later })).0
      ≡ err (raised not_found (units "No temporary passwords are pending download"))
unfolding download ◌>>=◌
download-once decrypt decrypt2 actor actor2 ack w csv e later =
    let first = download decrypt actor ack w in
    let gone : NonePending first.1 =
      After-ok (Same w.db.credentials) (λ _. NonePending) first.0 first.1
        ((download-Triple decrypt actor ack w.db.credentials).at w refl) e in
    rw (text_eq_refl (units "true"), gone) refl

-- A download that fails, be it by one password that cannot be decrypted, leaves every credential as
-- it was.
pub download-failed :
    (decrypt : Text → Text → Option Text) (actor : Text) (ack : Option Text) (w : World)
    (x : Thrown)
    → (download decrypt actor ack w).0 ≡ err x
    → (download decrypt actor ack w).1.db.credentials ≡ w.db.credentials
download-failed decrypt actor ack w x e =
    let r = download decrypt actor ack w in
    After-err (Same w.db.credentials) (λ _. NonePending) r.0 r.1
      ((download-Triple decrypt actor ack w.db.credentials).at w refl) e
