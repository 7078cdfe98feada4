-- ===== src/Auth/Access.antt =====
-- worker/src/auth/access.ts and worker/src/middleware/vm.ts: the engine's token.
pub mod Caller
use entra_shift.Common.{
  [], ◌∷◌, ◌++◌, Option, none, some, Text, units, or_else, coalesce, if◌then◌else◌, ◌==◌,
}
use entra_shift.Errors.{raised, unauthorized}
use entra_shift.App.{App, Vars, pure, gets, or_throw, ◌>>=◌}
use entra_shift.Auth.Jwt.{JwtClaims, Verifier, VerifyOptions, verify_rs256}

-- `replace(/\/$/, '')`.
unfoldable pub drop_last_slash : Text → Text
drop_last_slash [] = []
drop_last_slash (c ∷ []) = if c == b'/' then [] else c ∷ []
drop_last_slash (c ∷ d ∷ s) = c ∷ drop_last_slash (d ∷ s)

abbrev pub access_options : Vars → VerifyOptions
access_options vars =
    let team = drop_last_slash vars.cf_access_team_domain in
    record {
      jwks_uri = team ++ units "/cdn-cgi/access/certs";
      audience = vars.cf_access_aud;
      issuer = some team;
    }

abbrev pub present : Option Text → Option Text
present (some (c ∷ s)) = some (c ∷ s)
present _ = none

-- Who calls, by the first of three claims.
abbrev pub caller_of : JwtClaims → Text
caller_of c = or_else (coalesce c.common_name (coalesce c.email c.sub)) (units "vm-engine")

-- `validateAccessToken`: the caller, by the header of the request.
unfoldable pub require_access_token : Verifier → Option Text → App Text
require_access_token v header = do
  token ←
      or_throw (present header) (raised unauthorized (units "Missing Cloudflare Access assertion"))
  opts ← gets (λ w. access_options w.vars)
  claims ← verify_rs256 v token opts
  pure
      (or_else (coalesce claims.common_name (coalesce claims.email claims.sub)) (units "vm-engine"))
