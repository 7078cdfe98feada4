-- ===== src/Auth/Login/SingleUse.antt =====
-- A sign-in state of worker/src/routes/auth.ts is used once.
use entra_shift.Common.{
  ◌≡◌, refl, ℕ, List, ◌∷◌, Option, none, some, Text, units, find, find-delete, Option-cases, inl,
  inr,
}
use entra_shift.Contracts.{Instant, AuditAction}
use entra_shift.Errors.{raised, unauthorized}
use entra_shift.Db.Sessions.{AuthFlowRecord, has_state, take_auth_flow}
use entra_shift.App.{lift, World, Result, ok, err, ◌>>=◌}
use entra_shift.App.Actions.{audit}
use entra_shift.App.Triple.{
  Triple, Keeps, After-same, pure-Triple, act-Triple, act_keep, gets_keep, modify_keep,
  or_throw_keep, throw_if_keep, throw_keep, bind-Triple, then_Triple,
}
use entra_shift.Auth.Session.{Identity, open_session}
use entra_shift.Auth.Login.{mint, finish, callback}

abbrev Used : Text → World → Type 0
Used state w = find (has_state state) w.db.auth_flow ≡ none

audit-Keeps :
    (state actor : Text) (action : AuditAction) (target detail : Option Text)
    → Keeps (Used state) (audit actor action target detail)
unfolding audit
audit-Keeps state actor action target detail =
    then_Triple (act_keep _ (λ w h. h))
      (λ id. then_Triple (gets_keep _) (λ now. modify_keep _ (λ w h. h)))

open_session-Keeps :
    (state : Text) (identity : Identity) → Keeps (Used state) (open_session identity)
unfolding open_session
open_session-Keeps state identity = then_Triple (act_keep _ (λ w h. h)) (λ raw.
    then_Triple (gets_keep _) (λ id. then_Triple (act_keep _ (λ w h. h)) (λ csrf.
      then_Triple (gets_keep _) (λ created. then_Triple (gets_keep _) (λ expires.
        then_Triple (gets_keep _) (λ made.
          then_Triple (or_throw_keep _ _ (λ w h. h)) (λ sessions.
            then_Triple (modify_keep _ (λ w h. h)) (λ _. pure-Triple _ (λ w h. h)))))))))

mint-Keeps :
    (state : Text) (identity : Identity) (detail : Option Text) (target : Text)
    → Keeps (Used state) (mint identity detail target)
unfolding mint
mint-Keeps state identity detail target =
    then_Triple (open_session-Keeps state identity) (λ session.
      then_Triple (modify_keep _ (λ w h. h)) (λ _.
        then_Triple (audit-Keeps state identity.upn _ _ _)
          (λ _. then_Triple (modify_keep _ (λ w h. h)) (λ _. pure-Triple _ (λ w h. h)))))

lift-Keeps : {A : Type 0} (state : Text) (r : Result A) → Keeps (Used state) (lift r)
lift-Keeps state (ok a) = pure-Triple a (λ w h. h)
lift-Keeps state (err e) = throw_keep e (λ w h. h)

take-Used :
    (state : Text) (flows : List AuthFlowRecord)
    → find (has_state state) (take_auth_flow state flows).1 ≡ none
unfolding take_auth_flow
take-Used state flows = elim (Option-cases (find (has_state state) flows)) [
  | inl missing ↦ rw (missing, take_auth_flow) missing
  | inr (f, found) ↦ rw (found, take_auth_flow) (find-delete (has_state state) flows)
]

finish-Used :
    (exchange : Text → Text → Text → Result Identity) (code state : Text)
    → Triple (Used state) (λ _. Unit {0}) (finish exchange code state) (λ _. Used state)
unfolding finish
finish-Used exchange code state =
    bind-Triple (λ _. Used state) (act-Triple _ (λ w _. take-Used state w.db.auth_flow))
      (λ taken. then_Triple (modify_keep _ (λ w h. h)) (λ _.
        then_Triple (or_throw_keep _ _ (λ w h. h)) (λ flow. then_Triple (gets_keep _) (λ now.
          then_Triple (throw_if_keep _ _ (λ w h. h))
            (λ _. then_Triple (lift-Keeps state _) (λ identity. mint-Keeps state identity _ _))))))

-- However the first callback with a state ends, with a session or with an error, a second one with
-- the same state, at any time and with any code, is refused, if neither code nor state is empty.
pub callback-single_use :
    (exchange : Text → Text → Text → Result Identity) (c c2 s : ℕ) (code code2 state : Text)
    (w : World) (later : Instant)
    → let w' = (callback exchange (some (c ∷ code)) (some (s ∷ state)) w).1 in
      (callback exchange (some (c2 ∷ code2)) (some (s ∷ state)) (record w' { now = later })).0
      ≡ err (raised unauthorized (units "Unknown or reused state"))
unfolding callback finish take_auth_flow ◌>>=◌
callback-single_use exchange c c2 s code code2 state w later =
    let first = finish exchange (c ∷ code) (s ∷ state) w in
    let used =
      After-same (Used (s ∷ state)) first.0 first.1
        ((finish-Used exchange (c ∷ code) (s ∷ state)).at w tt) in
    refused first.1 used
  where
    refused :
        (w' : World)
        → Used (s ∷ state) w'
        → (finish exchange (c2 ∷ code2) (s ∷ state) (record w' { now = later })).0
          ≡ err (raised unauthorized (units "Unknown or reused state"))
    refused w' used = rw (used, take_auth_flow) refl
