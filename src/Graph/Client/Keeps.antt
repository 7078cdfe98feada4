-- ===== src/Graph/Client/Keeps.antt =====
-- The calls of worker/src/graph/client.ts that only read leave the world as it is.
use entra_shift.Common.{true, false, Text}
use entra_shift.Contracts.{TenantRole}
use entra_shift.App.{World}
use entra_shift.App.Triple.{
  Keeps, pure-Triple, then_Triple, gets_keep, or_throw_keep, throw_if_keep, throw_keep, lift_Triple,
  try_Triple,
}
use entra_shift.Crypto.Envelope.{Cipher, EnvelopeCiphertext}
use entra_shift.Crypto.Draws.{decrypt}
use entra_shift.Graph.{Fetched, unreachable, answered, TokenForm, Graph}
use entra_shift.Graph.Client.{
  reached, acquire_app_token, test_connection, graph_get, get_user_by_email,
  pre_provision_one_drive,
}

module _ {P : World → Type 0} where
  pub reached-keep : {A : Type 0} (sent : Fetched A) → Keeps P (reached sent)
  reached-keep (unreachable message) = throw_keep _ (λ w h. h)
  reached-keep (answered r) = pure-Triple r (λ w h. h)

  pub decrypt-keep : (c : Cipher) (env : EnvelopeCiphertext) → Keeps P (decrypt c env)
  unfolding decrypt
  decrypt-keep c env = then_Triple (gets_keep _) (λ key. lift_Triple _ (λ w h. h) (λ a w e h. h))

  pub acquire_app_token-keep : (g : Graph) (form : TokenForm) → Keeps P (acquire_app_token g form)
  unfolding acquire_app_token
  acquire_app_token-keep g form = then_Triple (reached-keep _) (λ res.
      then_Triple (or_throw_keep _ _ (λ w h. h)) (λ body.
        then_Triple (or_throw_keep _ _ (λ w h. h))
          (λ token. then_Triple (gets_keep _) (λ now. pure-Triple _ (λ w h. h)))))

  pub test_connection-keep :
      (g : Graph) (tenant_id client_id secret : Text) (role : TenantRole)
      → Keeps P (test_connection g tenant_id client_id secret role)
  unfolding test_connection
  test_connection-keep g tenant_id client_id secret role =
      try_Triple (then_Triple (acquire_app_token-keep g _) (λ token. pure-Triple _ (λ w h. h)))
        (λ e. pure-Triple _ (λ w h. h))

  pub graph_get-keep :
      {A : Type 0} (g : Graph) (url : Text) (sent : Fetched A) → Keeps P (graph_get g url sent)
  unfolding graph_get
  graph_get-keep g url sent =
      then_Triple (reached-keep sent)
        (λ res. then_Triple (throw_if_keep _ _ (λ w h. h)) (λ _. or_throw_keep _ _ (λ w h. h)))

  pub get_user_by_email-keep :
      (g : Graph) (token email : Text) → Keeps P (get_user_by_email g token email)
  unfolding get_user_by_email
  get_user_by_email-keep g token email =
      then_Triple (graph_get-keep g _ _) (λ page. pure-Triple _ (λ w h. h))

  pub pre_provision-keep :
      (g : Graph) (token user_id : Text) → Keeps P (pre_provision_one_drive g token user_id)
  unfolding pre_provision_one_drive
  pre_provision-keep g token user_id =
      try_Triple (then_Triple (graph_get-keep g _ _) (λ _. pure-Triple true (λ w h. h)))
        (λ e. pure-Triple false (λ w h. h))
