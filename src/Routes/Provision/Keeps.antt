-- ===== src/Routes/Provision/Keeps.antt =====
-- The steps of worker/src/routes/provision.ts, for any condition that their effects do not touch.
use entra_shift.Common.{◌≡◌, refl, Bool, true, false, not, ◌∷◌, Option, none, some, Text}
use entra_shift.Contracts.{MigrationUser}
use entra_shift.App.{World}
use entra_shift.App.Actions.Keeps.{IsSteady}
use entra_shift.App.Triple.{
  Triple, Keeps, pure-Triple, bind-Triple, then_Triple, gets_keep, act_keep, modify-Triple,
  throw_if-Triple, or_throw-Triple, option_Triple, lift_Triple, try_Triple,
}
use entra_shift.Crypto.Envelope.{Cipher}
use entra_shift.Crypto.Draws.{temp_password, encrypt}
use entra_shift.Db.Tenants.{SecretMaterial}
use entra_shift.Graph.{Graph, Response, CreatedUser, ProvisionInput, is_ok}
use entra_shift.Graph.Client.{provision_user, created, non_empty}
use entra_shift.Graph.Client.Keeps.{
  reached-keep, get_user_by_email-keep, decrypt-keep, acquire_app_token-keep,
}
use entra_shift.Routes.Discovery.{token_for}
use entra_shift.Routes.Provision.{enrich, source_token}

module _ {P : World → Type 0} where
  pub enrich-keep :
      (g : Graph) (source_access : Option Text) (user : MigrationUser)
      → Keeps P (enrich g source_access user)
  unfolding enrich
  enrich-keep g source_access user =
      option_Triple (non_empty source_access) (λ _. pure-Triple _ (λ w h. h))
        (λ token _.
          then_Triple (get_user_by_email-keep g token _) (λ src. pure-Triple _ (λ w h. h)))

  pub token_for-keep :
      (c : Cipher) (g : Graph) (m : SecretMaterial) (scope : Text) → Keeps P (token_for c g m scope)
  unfolding token_for
  token_for-keep c g m scope = then_Triple (decrypt-keep c _) (λ secret. acquire_app_token-keep g _)

  pub source_token-keep :
      (c : Cipher) (g : Graph) (m : Option SecretMaterial) → Keeps P (source_token c g m)
  source_token-keep c g none = pure-Triple none (λ w h. h)
  source_token-keep c g (some m) =
      try_Triple (then_Triple (token_for-keep c g m _) (λ token. pure-Triple _ (λ w h. h)))
        (λ e. pure-Triple none (λ w h. h))

  pub temp_password-keep : IsSteady P → Keeps P temp_password
  unfolding temp_password
  temp_password-keep s =
      then_Triple (act_keep _ (λ w h. s.drawn w _ h))
        (λ bytes. lift_Triple _ (λ w h. h) (λ password w e h. h))

  pub encrypt-keep : IsSteady P → (c : Cipher) (plain : Text) → Keeps P (encrypt c plain)
  unfolding encrypt
  encrypt-keep s c plain =
      then_Triple (act_keep _ (λ w h. s.drawn w _ h))
        (λ iv. then_Triple (gets_keep _) (λ key. lift_Triple _ (λ w h. h) (λ env w e h. h)))

-- `P` bears an account more, and then `Q` holds.
pub provision_user-Triple :
    (P Q : World → Type 0) (g : Graph) (token : Text) (input : ProvisionInput)
    → ((w : World) → P w → P (record w { accounts = input ∷ w.accounts }))
    → ((w : World) → P w → Q (record w { accounts = input ∷ w.accounts }))
    → Triple P P (provision_user g token input) (λ _. Q)
unfolding provision_user
provision_user-Triple P Q g token input keep reach = then_Triple (gets_keep _) (λ sent.
    then_Triple (reached-keep sent) (λ res.
      bind-Triple (λ _ w. P w × (is_ok res.status ≡ true → Q w))
        (modify-Triple _ (λ w h. grown res (is_ok res.status) refl w h))
        (λ _.
          bind-Triple (λ _ w. P w × Q w)
            (throw_if-Triple _ _ (λ w h. h.0) (λ w e h. (h.0, h.1 (double _ e))))
            (λ _. or_throw-Triple res.json _ (λ w h. h.0) (λ user w e h. h.1)))))
  where
    double : (b : Bool) → not b ≡ false → b ≡ true
    double true e = refl
    double false e = cc

    grown :
        (res : Response CreatedUser) (b : Bool)
        → is_ok res.status ≡ b
        → (w : World) → P w
        → P (created res input w) × (is_ok res.status ≡ true → Q (created res input w))
    grown res true e w h = (rw e (keep w h), λ _. rw e (reach w h))
    grown res false e w h = (rw e h, λ f. cc)
