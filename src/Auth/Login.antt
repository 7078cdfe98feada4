-- ===== src/Auth/Login.antt =====
-- worker/src/routes/auth.ts: signing in and out. What auth/oidc.ts makes of a code, by its calls of
-- the identity provider and its checks of the token, is a parameter of `callback`.
pub mod SingleUse
pub mod Bypass
pub mod Verified
use entra_shift.Common.{
  ℕ, ◌+◌, ◌*◌, ◌∷◌, [], Bool, true, false, not, ◌||◌, Option, none, some, Text, text_eq, units,
  starts_with, if◌then◌else◌, is_empty, or_else, leb, if◌then◌else◌,
}
use entra_shift.Numbers.{whole}
use entra_shift.Contracts.{sign_in, sign_out}
use entra_shift.Errors.{Thrown, raised, unauthorized, validation, csrf, unexpected}
use entra_shift.Db.Sessions.{AuthFlowRecord, create_auth_flow, take_auth_flow}
use entra_shift.App.{
  World, App, Result, ok, err, pure, throw, gets, act, or_throw, throw_if, lift, ◌>>=◌, ◌>>◌,
}
use entra_shift.App.Actions.{now_iso, opaque_token, write, bill_writes, audit}
use entra_shift.Auth.Session.{
  Identity, NewSession, open_session, resolve_session, destroy_session, iso_in_seconds,
}
use entra_shift.Auth.DevBypass.{dev_bypass_active, dev_identity}
use entra_shift.Middleware.Session.{csrf_matches}

-- `safeRedirect`, and the same test of the stored target.
unfoldable pub safe_redirect : Option Text → Text
unfolding units
safe_redirect none = units "/"
safe_redirect (some t) = if starts_with (units "/") t then t else units "/"

abbrev auth_flow_ttl_sec : ℕ
auth_flow_ttl_sec = 600

-- A redirect with the session's cookie, if one is set. The URL of the authorization request, which
-- `buildAuthorizeUrl` writes, is kept as the two values that the answer must match.
pub data Reply : Type 0 where
  signed_in : Text → Text → Reply
  authorize : Text → Text → Reply

-- The session and its entry in the audit log.
unfoldable pub mint : Identity → Option Text → Text → App Reply
mint identity detail target = do
  session ← open_session identity
  bill_writes 2
  audit identity.upn sign_in (some identity.upn) detail
  bill_writes 1
  pure (signed_in session.raw_token target)

-- The verifier that `createPkcePair` draws is random like the tokens.
unfoldable pub start_flow : Option Text → App Reply
start_flow redirect_to = do
  verifier ← opaque_token
  state ← opaque_token
  nonce ← opaque_token
  now ← now_iso
  made ← gets (λ w.
      create_auth_flow
        (record {
          state = state;
          code_verifier = verifier;
          nonce = nonce;
          redirect_to = some (safe_redirect redirect_to);
          created_at = now;
          expires_at = iso_in_seconds (whole auth_flow_ttl_sec) now;
        })
        w.db.auth_flow)
  flows ← or_throw made (unexpected (units "constraint failed"))
  write (λ db. record db { auth_flow = flows })
  bill_writes 1
  pure (authorize state nonce)

-- GET /auth/login, by the host of its URL and its `redirect_to`.
unfoldable pub login : Text → Option Text → App Reply
login host redirect_to = do
  bypass ← gets (λ w. dev_bypass_active w.vars host)
  if bypass
      then mint dev_identity (some (units "DEV_AUTH_BYPASS (localhost)"))
          (safe_redirect redirect_to)
      else start_flow redirect_to

abbrev pub present : Option Text → Option Text
present (some (c ∷ s)) = some (c ∷ s)
present _ = none

abbrev pub take_flow : Text → App (Option AuthFlowRecord)
take_flow state = act (λ w.
    let (flow, flows) = take_auth_flow state w.db.auth_flow in
    (flow, record w { db = record w.db { auth_flow = flows } }))

-- The callback's part behind the test for a code and a state.
unfoldable pub finish : (Text → Text → Text → Result Identity) → Text → Text → App Reply
finish exchange code state = do
  taken ← take_flow state
  bill_writes 1
  flow ← or_throw taken (raised unauthorized (units "Unknown or reused state"))
  now ← now_iso
  throw_if (leb flow.expires_at now)
      (raised unauthorized (units "Sign-in state expired; please retry"))
  identity ← lift (exchange code flow.code_verifier flow.nonce)
  mint identity none (or_else flow.redirect_to (units "/"))

-- GET /auth/callback without an `error`. The exchange is given the code, the verifier and the nonce.
unfoldable pub callback :
    (Text → Text → Text → Result Identity) → Option Text → Option Text → App Reply
callback exchange code state = do
  c ← or_throw (present code) (raised validation (units "Missing code or state"))
  s ← or_throw (present state) (raised validation (units "Missing code or state"))
  finish exchange c s

-- POST /auth/logout.
unfoldable pub logout : Option Text → Option Text → App (Unit {0})
logout cookie header = do
  found ← resolve_session cookie
  elim found [
    | none ↦ pure tt
    | some session ↦ do
      throw_if (not (csrf_matches header session))
          (raised csrf (units "Invalid or missing CSRF token"))
      destroy_session cookie
      audit session.actor_upn sign_out (some session.actor_upn) none
      bill_writes 2
  ]
