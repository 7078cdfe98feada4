-- ===== src/Auth/Login/Bypass.antt =====
-- When GET /auth/login of worker/src/routes/auth.ts signs in without the identity provider.
use entra_shift.Common.{
  ◌≡◌, refl, ap, ◌⊎◌, inl, inr, Bool, true, false, ◌&&◌, Option, none, some, Text, units,
  text_eq_iff, Bool-cases, List,
}
use entra_shift.Db.Sessions.{SessionRecord}
use entra_shift.App.{World, ◌>>=◌}
use entra_shift.App.Triple.{
  Keeps, After-same, pure-Triple, then_Triple, gets_keep, act_keep, modify_keep, or_throw_keep,
}
use entra_shift.Auth.DevBypass.{is_true, is_local_request, dev_bypass_active}
use entra_shift.Auth.Login.{login, start_flow}

-- The setting says so and the request is for the developer's own machine.
pub record IsBypassed (flag : Option Text) (host : Text) : Type 0 where
  pub set : flag ≡ some (units "true")
  pub local : is_local_request host ≡ true

is_true-some : (o : Option Text) → is_true o ≡ true → o ≡ some (units "true")
is_true-some none e = cc
is_true-some (some v) e = ap some ((text_eq_iff v (units "true")).0 e)

both : (a b : Bool) → (a && b) ≡ true → (a ≡ true) × (b ≡ true)
both true b e = (refl, e)
both false b e = cc

module _ (sessions : List SessionRecord) where
  abbrev Same : World → Type 0
  Same w = w.db.sessions ≡ sessions

  start_flow-Same : (redirect_to : Option Text) → Keeps Same (start_flow redirect_to)
  unfolding start_flow
  start_flow-Same redirect_to = then_Triple (act_keep _ (λ w h. h)) (λ verifier.
      then_Triple (act_keep _ (λ w h. h)) (λ state. then_Triple (act_keep _ (λ w h. h)) (λ nonce.
        then_Triple (gets_keep _) (λ now. then_Triple (gets_keep _) (λ made.
          then_Triple (or_throw_keep made _ (λ w h. h)) (λ flows.
            then_Triple (modify_keep _ (λ w h. h))
              (λ _. then_Triple (modify_keep _ (λ w h. h)) (λ _. pure-Triple _ (λ w h. h)))))))))

-- A request to sign in opens a session by itself only if the setting DEV_AUTH_BYPASS is "true" and
-- the host of its address is the local machine; otherwise the sessions stay as they are.
pub login-IsBypassed :
    (host : Text) (redirect_to : Option Text) (w : World)
    → ((login host redirect_to w).1.db.sessions ≡ w.db.sessions)
      ⊎ IsBypassed w.vars.dev_auth_bypass host
unfolding login dev_bypass_active ◌>>=◌
login-IsBypassed host redirect_to w = elim (Bool-cases (dev_bypass_active w.vars host)) [
  | inl on ↦
      let (set, local) = both (is_true w.vars.dev_auth_bypass) (is_local_request host) on in
      inr (record { set = is_true-some w.vars.dev_auth_bypass set; local = local })
  | inr off ↦
      let r = start_flow redirect_to w in
      let same =
        After-same (Same w.db.sessions) r.0 r.1
          ((start_flow-Same w.db.sessions redirect_to).at w refl) in
      inl (rw off same)
]
