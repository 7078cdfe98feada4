-- ===== src/Auth/Oidc.antt =====
-- `validateIdToken` of worker/src/auth/oidc.ts: what an identity token must say.
pub mod Member
use entra_shift.Common.{
  Bool, true, false, not, ◌||◌, List, [], ◌∷◌, ◌++◌, Option, none, some, Text, units, text_eq, any,
  or_else, coalesce, is_empty,
}
use entra_shift.Errors.{raised, unauthorized, forbidden}
use entra_shift.App.{World, App, Vars, pure, gets, throw_if, ◌>>=◌, ◌>>◌}
use entra_shift.Auth.Session.{Identity}
use entra_shift.Auth.Jwt.{JwtClaims, Verifier, VerifyOptions, verify_rs256}

abbrev pub authority : Vars → Text
authority vars = units "https://login.microsoftonline.com/" ++ vars.entra_tenant_id

abbrev pub id_token_options : Vars → VerifyOptions
id_token_options vars = record {
  jwks_uri = authority vars ++ units "/discovery/v2.0/keys";
  audience = vars.oidc_client_id;
  issuer = some (authority vars ++ units "/v2.0");
}

abbrev pub has_nonce : Text → Option Text → Bool
has_nonce expected none = false
has_nonce expected (some n) = text_eq n expected

-- `groups.includes(…)`, where groups that are no array are none.
abbrev pub is_member : Text → Option (List Text) → Bool
is_member group none = false
is_member group (some groups) = any (λ g. text_eq g group) groups

abbrev pub identity_of : JwtClaims → Identity
identity_of c = record {
  upn = or_else (coalesce c.preferred_username (coalesce c.upn c.email)) [];
  oid = or_else (coalesce c.oid c.sub) [];
  display_name = c.name;
  group_ok = true;
}

unfoldable pub validate_id_token : Verifier → Text → Text → App Identity
validate_id_token v token expected_nonce = do
  opts ← gets (λ w. id_token_options w.vars)
  claims ← verify_rs256 v token opts
  throw_if (not (has_nonce expected_nonce claims.nonce))
      (raised unauthorized (units "id_token nonce mismatch"))
  outside ← gets (λ w. not (is_member w.vars.allowed_group_id claims.groups))
  throw_if outside (raised forbidden (units "Not a member of the required MSP security group"))
  throw_if (is_empty (identity_of claims).upn || is_empty (identity_of claims).oid)
      (raised unauthorized (units "id_token missing subject/upn claims"))
  pure (identity_of claims)
