-- ===== src/Auth/Login/Verified.antt =====
-- Who may finish a sign-in at GET /auth/callback of worker/src/routes/auth.ts.
use mathlib.Core.Path.{subst}
use entra_shift.Common.{ap, sym, ◌∙◌, ◌≡◌, refl, Option, some, Text, false, leb}
use entra_shift.Db.Sessions.{AuthFlowRecord, take_auth_flow}
use entra_shift.App.{lift, World, App, Result, ok, err}
use entra_shift.App.Triple.{
  Triple, After-ok, pure-Triple, bind-Triple, then_Triple, or_throw_then, act-Triple, gets-Triple,
  After, throw_if_then, modify_keep, throw_keep,
}
use entra_shift.Auth.Session.{Identity}
use entra_shift.Auth.Login.{Reply, present, finish, callback}

-- A sign-in that was begun, is still open, and that the identity provider has confirmed by its own
-- verifier and nonce.
pub record IsVerified (exchange : Text → Text → Text → Result Identity) (code state : Option Text)
    (w : World) : Type 0 where
  pub c : Text
  pub s : Text
  pub flow : AuthFlowRecord
  pub identity : Identity
  pub with_code : present code ≡ some c
  pub with_state : present state ≡ some s
  pub begun : (take_auth_flow s w.db.auth_flow).0 ≡ some flow
  pub in_time : leb flow.expires_at w.now ≡ false
  pub confirmed : exchange c flow.code_verifier flow.nonce ≡ ok identity

abbrev Any : World → Type 0
Any w = Unit

lift-Known : (r : Result Identity) → Triple Any Any (lift r) (λ i w. Any w × (r ≡ ok i))
lift-Known (ok i) = pure-Triple i (λ w h. (h, refl))
lift-Known (err e) = throw_keep e (λ w h. tt)

-- What does not depend on the world is known from there on.
known :
    {A F : Type 0} {P : World → Type 0} {m : App A} {R : A → World → Type 0}
    → (F → Triple Any Any m R)
    → Triple Any (λ w. P w × F) m R
known k = record { at = λ w h. (k h.1).at w tt }

always : {A : Type 0} {P : World → Type 0} {Q : Type 0} (m : App A) → Q → Triple Any P m (λ _ _. Q)
always {A} {P} {Q} m q = record { at = λ w h. go (m w).0 (m w).1 }
  where
    go : (r : Result A) (w : World) → After Any (λ _ _. Q) r w
    go (ok a) w = q
    go (err e) w = tt

module _ (exchange : Text → Text → Text → Result Identity) (code state : Option Text)
    (old : World) where
  abbrev Found : Text → Option AuthFlowRecord → World → Type 0
  Found s taken w = ((take_auth_flow s old.db.auth_flow).0 ≡ taken) × (w.now ≡ old.now)

  finish-IsVerified :
      (c s : Text)
      → present code ≡ some c
      → present state ≡ some s
      → Triple Any (λ w. w ≡ old) (finish exchange c s) (λ _ _. IsVerified exchange code state old)
  unfolding finish
  finish-IsVerified c s with_code with_state =
      bind-Triple (Found s)
        (act-Triple _ (λ w same.
          (ap (λ x. (take_auth_flow s x.db.auth_flow).0) (sym same), ap (λ x. x.now) same)))
        (λ taken. then_Triple (modify_keep _ (λ w h. h)) (λ _.
          or_throw_then taken _ (λ w h. tt)
            (λ flow begun.
              bind-Triple
                (λ now w.
                  Any w × (((take_auth_flow s old.db.auth_flow).0 ≡ taken) × (now ≡ old.now)))
                (gets-Triple _ (λ w h. (tt, h)))
                (λ now. known (λ (looked, same).
                  throw_if_then _ _ _ (λ w h. tt)
                    (λ in_time. bind-Triple _ (lift-Known _) (λ identity. known (λ confirmed.
                      always _ (record {
                        c = c;
                        s = s;
                        flow = flow;
                        identity = identity;
                        with_code = with_code;
                        with_state = with_state;
                        begun = looked ∙ begun;
                        in_time = subst (λ x. leb flow.expires_at x ≡ false) same in_time;
                        confirmed = confirmed;
                      })))))))))

  callback-Triple :
      Triple Any
        (λ w. w ≡ old)
        (callback exchange code state)
        (λ _ _. IsVerified exchange code state old)
  unfolding callback
  callback-Triple =
      or_throw_then _ _ (λ w h. tt)
        (λ c with_code.
          or_throw_then _ _ (λ w h. tt)
            (λ s with_state. finish-IsVerified c s with_code with_state))

-- A callback signs in only with the state of a sign-in that was begun here and is still in time, and
-- only if the exchange of its code, with the verifier and the nonce of that sign-in, gave an
-- identity.
pub callback-IsVerified :
    (exchange : Text → Text → Text → Result Identity) (code state : Option Text) (w : World)
    (reply : Reply)
    → (callback exchange code state w).0 ≡ ok reply
    → IsVerified exchange code state w
callback-IsVerified exchange code state w reply e =
    let r = callback exchange code state w in
    After-ok Any (λ _ _. IsVerified exchange code state w) r.0 r.1
      ((callback-Triple exchange code state w).at w refl) e
