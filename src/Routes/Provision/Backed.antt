-- ===== src/Routes/Provision/Backed.antt =====
-- The passwords that worker/src/routes/provision.ts keeps are those that Graph was given.
use mathlib.Core.Path.{subst}
use entra_shift.Common.{
  ℕ, ◌≡◌, ◌⊎◌, refl, inl, inr, true, not, List, [], ◌∷◌, Option, none, some, Text, All, All-imp,
}
use entra_shift.Contracts.{MigrationUser}
use entra_shift.Db.Credentials.{CredentialRow, is_pending}
use entra_shift.App.{World, App, ok}
use entra_shift.App.Actions.Keeps.{IsSteady, bill_keep, audit_keep}
use entra_shift.App.Triple.{
  Triple, Keeps, After-same, pure-Triple, bind-Triple, then_Triple, gets_keep, act_keep,
  modify-Triple, or_throw_keep, throw_if_keep, if_Triple, option_Triple, lift_Triple, try_Triple,
  weaken_Triple,
}
use entra_shift.Crypto.{generate_temp_password}
use entra_shift.Crypto.Classes.{IsStrong, generate_temp_password-IsStrong}
use entra_shift.Crypto.Classes.Plain.{strong-IsPlain}
use entra_shift.Crypto.Envelope.{Cipher, EnvelopeCiphertext, decrypt_secret}
use entra_shift.Crypto.Envelope.RoundTrip.{IsCipher}
use entra_shift.Crypto.Draws.{temp_password, password_of}
use entra_shift.Crypto.Draws.Opens.{encrypt-OpensTo}
use entra_shift.Graph.{Graph, ProvisionInput}
use entra_shift.Graph.Client.{provision_user}
use entra_shift.Graph.Client.Keeps.{pre_provision-keep}
use entra_shift.Routes.Provision.Keeps.{
  enrich-keep, provision_user-Triple, token_for-keep, source_token-keep,
}
use entra_shift.Routes.Provision.{
  input_of, store, create, give_up, provision_found, provision_one, provision_each, post_provision,
  target_upn_of,
}

-- Membership, with the place kept.
abbrev pub In : ProvisionInput → List ProvisionInput → Type 0
In a [] = ⊥
In a (b ∷ bs) = (a ≡ b) ⊎ In a bs

abbrev pub sealed : CredentialRow → EnvelopeCiphertext
sealed c = record { ciphertext = c.password_ciphertext; iv = c.password_iv }

-- The password behind a credential was given to an account of that name, and is a strong one.
pub record IsBacked (c : Cipher) (key : Text) (accounts : List ProvisionInput) (row : CredentialRow)
    : Type 0 where
  pub account : ProvisionInput
  pub made : In account accounts
  pub named : account.user_principal_name ≡ row.target_upn
  pub opens : decrypt_secret c key (sealed row) ≡ ok account.password
  pub strong : IsStrong 20 account.password

-- Of a credential that was downloaded the password is gone.
abbrev pub AreBacked : Cipher → World → Type 0
AreBacked c w =
    All (λ row. is_pending row ≡ true → IsBacked c w.vars.master_encryption_key w.accounts row)
      w.db.credentials

AreBacked-IsSteady : (c : Cipher) → IsSteady (AreBacked c)
AreBacked-IsSteady c = record { drawn = λ w n h. h; billed = λ w us h. h; logged = λ w log h. h }

more_accounts :
    (c : Cipher) (key : Text) (a : ProvisionInput) (accounts : List ProvisionInput)
    (row : CredentialRow)
    → IsBacked c key accounts row
    → IsBacked c key (a ∷ accounts) row
more_accounts c key a accounts row h = record {
  account = h.account;
  made = inr h.made;
  named = h.named;
  opens = h.opens;
  strong = h.strong;
}

password_of-IsStrong :
    (bytes : List ℕ) (o : Option (Text × List ℕ)) {password : Text}
    → generate_temp_password 20 bytes ≡ o
    → password_of o ≡ ok password
    → IsStrong 20 password
password_of-IsStrong bytes none e f = cc
password_of-IsStrong bytes (some (p, rest)) {password} e f =
    let same : p ≡ password = cc in
    subst (IsStrong 20) same (generate_temp_password-IsStrong 20 bytes p rest e)

module _ (c : Cipher) (laws : IsCipher c) where
  abbrev Safe : World → Type 0
  Safe = AreBacked c

  temp_password-Strong :
      Triple Safe Safe temp_password (λ password w. Safe w × IsStrong 20 password)
  unfolding temp_password
  temp_password-Strong = then_Triple (act_keep _ (λ w h. h)) (λ bytes.
      lift_Triple _ (λ w h. h) (λ password w e h. (h, password_of-IsStrong bytes _ refl e)))

  -- The account is there.
  abbrev Made : ProvisionInput → World → Type 0
  Made a w = Safe w × In a w.accounts

  Made-IsSteady : (a : ProvisionInput) → IsSteady (Made a)
  Made-IsSteady a = record { drawn = λ w n h. h; billed = λ w us h. h; logged = λ w log h. h }

  provision_user-Made :
      (g : Graph) (token : Text) (a : ProvisionInput)
      → Triple Safe Safe (provision_user g token a) (λ _. Made a)
  provision_user-Made g token a =
      provision_user-Triple Safe (Made a) g token a grown (λ w h. (grown w h, inl refl))
    where
      grown : (w : World) → Safe w → Safe (record w { accounts = a ∷ w.accounts })
      grown w h = All-imp _ _ w.db.credentials (λ row k p. more_accounts c _ a _ row (k p)) h

  store-Safe :
      (a : ProvisionInput) (user : MigrationUser) (id : Text)
      → IsStrong 20 a.password
      → Triple Safe (Made a) (store c user id a.user_principal_name a.password) (λ _. Safe)
  unfolding store
  store-Safe a user id strong =
      bind-Triple _
        (weaken_Triple
          (encrypt-OpensTo (Made-IsSteady a) c laws a.password
            (strong-IsPlain 20 a.password strong))
          (λ w h. h.0) (λ env w h. h))
        (λ enc. then_Triple (act_keep _ (λ w h. h)) (λ row_id. then_Triple (gets_keep _) (λ now.
          bind-Triple (λ _. Safe)
            (modify-Triple _ (λ w h. (
              (λ _. record {
                account = a;
                made = h.0.1;
                named = refl;
                opens = h.1;
                strong = strong;
              }),
              h.0.0,
            )))
            (λ _. modify-Triple _ (λ w h. h)))))

  create-Safe :
      (g : Graph) (actor dest_token : Text) (source_access : Option Text) (id : Text)
      (user : MigrationUser) (upn : Text)
      → Triple Safe Safe (create c g actor dest_token source_access id user upn) (λ _. Safe)
  unfolding create
  create-Safe g actor dest_token source_access id user upn =
      then_Triple (enrich-keep g source_access user) (λ names.
        bind-Triple _ temp_password-Strong (λ password. knowing (λ strong.
          let a = input_of upn names password in
          bind-Triple (λ _. Made a) (provision_user-Made g dest_token a)
            (λ created.
              then_Triple
                (weaken_Triple (pre_provision-keep {P = Made a} g dest_token created.id)
                  (λ w h. h.0) (λ _ w h. h))
                (λ _.
                  bind-Triple (λ _. Safe) (store-Safe a user id strong)
                    (λ _. then_Triple (bill_keep (AreBacked-IsSteady c) 2) (λ _.
                      then_Triple (audit_keep (AreBacked-IsSteady c) actor _ _ _) (λ _.
                        then_Triple (bill_keep (AreBacked-IsSteady c) 1)
                          (λ _. pure-Triple _ (λ w h. h))))))))))
    where
      knowing :
          {A F : Type 0} {m : App A}
          → (F → Triple Safe Safe m (λ _. Safe))
          → Triple Safe (λ w. Safe w × F) m (λ _. Safe)
      knowing k = record { at = λ w h. (k h.1).at w h.0 }

  provision_found-Safe :
      (g : Graph) (actor dest_token : Text) (source_access : Option Text) (id : Text)
      (user : MigrationUser)
      → Keeps Safe (provision_found c g actor dest_token source_access id user)
  unfolding provision_found give_up
  provision_found-Safe g actor dest_token source_access id user =
      if_Triple (not user.auto_create_target) (λ _. pure-Triple _ (λ w h. h))
        (λ _.
          option_Triple (target_upn_of user) (λ _. pure-Triple _ (λ w h. h))
            (λ upn _. try_Triple (create-Safe g actor dest_token source_access id user upn) (λ e.
              then_Triple (audit_keep (AreBacked-IsSteady c) actor _ _ _) (λ _.
                then_Triple (bill_keep (AreBacked-IsSteady c) 1) (λ _. pure-Triple _ (λ w h. h))))))

  provision_each-Safe :
      (g : Graph) (actor dest_token : Text) (source_access : Option Text) (ids : List Text)
      → Keeps Safe (provision_each c g actor dest_token source_access ids)
  unfolding provision_each provision_one
  provision_each-Safe g actor dest_token source_access [] = pure-Triple [] (λ w h. h)
  provision_each-Safe g actor dest_token source_access (id ∷ ids) =
      then_Triple
        (then_Triple (gets_keep _) (λ found.
          option_Triple found (λ _. pure-Triple _ (λ w h. h))
            (λ user _. provision_found-Safe g actor dest_token source_access id user)))
        (λ here.
          then_Triple (provision_each-Safe g actor dest_token source_access ids)
            (λ later. pure-Triple _ (λ w h. h)))

  post_provision-Safe :
      (g : Graph) (actor : Text) (ids : List Text) → Keeps Safe (post_provision c g actor ids)
  unfolding post_provision
  post_provision-Safe g actor ids = then_Triple (throw_if_keep _ _ (λ w h. h)) (λ _.
      then_Triple (then_Triple (gets_keep _) (λ m. or_throw_keep m _ (λ w h. h))) (λ material.
        then_Triple (token_for-keep c g material _) (λ token.
          then_Triple (gets_keep _) (λ source_material.
            then_Triple (source_token-keep c g source_material) (λ source_access.
              then_Triple (provision_each-Safe g actor _ source_access ids)
                (λ results. pure-Triple _ (λ w h. h)))))))

-- If behind each credential that waits for its download there is an account of its name that Graph
-- has created, with the password that the credential decrypts to, one of 20 characters and of all
-- classes, then this is so after a run, whatever Graph answers and wherever the run fails. It is
-- assumed that base64 can be undone and that AES-GCM opens what it has sealed.
pub post_provision-AreBacked :
    (c : Cipher)
    → IsCipher c
    → (g : Graph) (actor : Text) (ids : List Text) (w : World) → AreBacked c w
    → AreBacked c (post_provision c g actor ids w).1
post_provision-AreBacked c laws g actor ids w h =
    let r = post_provision c g actor ids w in
    After-same (AreBacked c) r.0 r.1 ((post_provision-Safe c laws g actor ids).at w h)
