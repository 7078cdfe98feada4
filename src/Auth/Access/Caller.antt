-- ===== src/Auth/Access/Caller.antt =====
-- Who passes `validateAccessToken` of worker/src/auth/access.ts.
use entra_shift.Common.{◌≡◌, refl, ◌/◌, Option, some, Text}
use entra_shift.App.{World, ok}
use entra_shift.App.Triple.{Triple, After-ok, pure-Triple, bind-Triple, or_throw_then, gets_same}
use entra_shift.Auth.Jwt.{JwtClaims, Verifier}
use entra_shift.Auth.Jwt.Trusted.{IsTrusted, verify_rs256-IsTrusted}
use entra_shift.Auth.Access.{present, access_options, caller_of, require_access_token}

-- The header has a token that is trusted for the engine's plane and names the caller.
pub record IsCaller (v : Verifier) (header : Option Text) (w : World) (caller : Text) : Type 0 where
  pub token : Text
  pub claims : JwtClaims
  pub sent : present header ≡ some token
  pub trusted : IsTrusted v token (access_options w.vars) (w.now / 1000) claims
  pub named : caller ≡ caller_of claims

pub require-Triple :
    (v : Verifier) (header : Option Text) (old : World)
    → Triple
        (λ w. w ≡ old)
        (λ w. w ≡ old)
        (require_access_token v header)
        (λ caller w. (w ≡ old) × IsCaller v header old caller)
unfolding require_access_token
require-Triple v header old =
    or_throw_then _ _ (λ w h. h)
      (λ token sent. gets_same old _ _ (
        bind-Triple _ (verify_rs256-IsTrusted v token (access_options old.vars) old) (λ claims.
          pure-Triple (caller_of claims) (λ w h. (
            h.0,
            record { token = token; claims = claims; sent = sent; trusted = h.1; named = refl },
          )))))

-- The engine's plane is open only to a request with a token that is signed by a key of the team's
-- domain, in its time, for the application's audience and by that team; the caller is what the
-- token names.
pub require_access_token-IsCaller :
    (v : Verifier) (header : Option Text) (w : World) (caller : Text)
    → (require_access_token v header w).0 ≡ ok caller
    → IsCaller v header w caller
require_access_token-IsCaller v header w caller e =
    let r = require_access_token v header w in
    (After-ok _ (λ c w'. (w' ≡ w) × IsCaller v header w c) r.0 r.1
      ((require-Triple v header w).at w refl) e).1
