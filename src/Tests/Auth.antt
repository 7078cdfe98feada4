-- ===== src/Tests/Auth.antt =====
-- Examples for the theorems on sessions and signing in.
use entra_shift.Common.{
  ◌⊎◌, List, ◌++◌, true, ◌+◌, ◌*◌, ◌≡◌, ◌≤◌, refl, [], ◌∷◌, none, some, Text, units, text_eq, trim,
}
use entra_shift.Errors.{raised, unauthorized, csrf}
use entra_shift.Db.Sessions.{SessionRecord, AuthFlowRecord}
use entra_shift.Numbers.{parse_number}
use entra_shift.App.{World, Result, ok, err, ◌>>=◌}
use entra_shift.Auth.Session.{
  Identity, NewSession, open_session, resolve_session, ttl_seconds, new_record,
}
use entra_shift.Auth.Session.Lifetime.{open_session-live}
use entra_shift.Auth.Jwt.{JwtClaims, Jwk, Verifier, single, verify_rs256}
use entra_shift.Auth.Oidc.{identity_of, validate_id_token}
use entra_shift.Auth.Oidc.Member.{IsMember, validate_id_token-IsMember}
use entra_shift.Auth.Access.{drop_last_slash, require_access_token}
use entra_shift.Auth.Access.Caller.{IsCaller, require_access_token-IsCaller}
use entra_shift.Auth.DevBypass.{dev_identity}
use entra_shift.Auth.Login.{callback, finish, mint, login, signed_in}
use entra_shift.Auth.Login.Verified.{IsVerified, callback-IsVerified}
use entra_shift.Auth.Login.Bypass.{IsBypassed, login-IsBypassed}
use entra_shift.Db.Sessions.{take_auth_flow}
use entra_shift.App.Actions.{audit}
use entra_shift.Auth.Login.SingleUse.{callback-single_use}
use entra_shift.Middleware.Session.{require_session}
use entra_shift.Middleware.Session.Guard.{require_session-verdict}
use entra_shift.Db.Sessions.{create_session}
use entra_shift.Auth.Session.{resolve_token}
use entra_shift.Middleware.Session as Guards
use entra_shift.Middleware.RateLimit.{rate_limit, bucket_of, set_bucket, open_bucket, key_of}
use entra_shift.Middleware.BudgetGuard.{budget_guard}
use entra_shift.Routes.Gate.{Incoming, browser, admit, admit_browser}
use entra_shift.Routes.Gate.Admitted.{IsAdmitted, admit-caller}
use entra_shift.Web.Endpoints.{Encoding}
use entra_shift.Tests.Samples.{sample_world, sample_vars, sample_db}

abbrev opened : Result NewSession × World
opened = open_session dev_identity sample_world

abbrev new_session : NewSession
new_session = record { raw_token = b't' ∷ 0 ∷ []; csrf_token = b't' ∷ 1 ∷ []; expires_at = 160000 }

-- The setting of 60 seconds, a second before the end.
open_session-live_example :
    (160000 ≤ 100000 + 28800 * 1000)
    × ((resolve_session (some (b't' ∷ 0 ∷ [])) (record opened.1 { now = 159000 })).0
        ≡ ok (some (new_record dev_identity (b'#' ∷ b't' ∷ 0 ∷ []) (b't' ∷ 1 ∷ []) 100000 160000)))
unfolding open_session parse_number create_session text_eq trim ttl_seconds ◌>>=◌
open_session-live_example =
    open_session-live dev_identity sample_world opened.1 new_session refl refl 159000

abbrev session : SessionRecord
session = new_record dev_identity (b'#' ∷ b'c' ∷ []) (b's' ∷ []) 0 900000

abbrev session_world : World
session_world = record sample_world { db = record sample_db { sessions = session ∷ [] } }

-- A write whose header holds the wrong token.
require_session-verdict_example :
    (require_session (some (b'c' ∷ [])) (b'P' ∷ []) (some (b'x' ∷ [])) session_world).0
    ≡ err (raised csrf (units "Invalid or missing CSRF token"))
unfolding text_eq units
require_session-verdict_example =
    require_session-verdict (some (b'c' ∷ [])) (b'P' ∷ []) (some (b'x' ∷ [])) session_world

abbrev flow : AuthFlowRecord
flow = record {
  state = b's' ∷ [];
  code_verifier = b'v' ∷ [];
  nonce = b'n' ∷ [];
  redirect_to = none;
  created_at = 0;
  expires_at = 600000;
}

abbrev flow_world : World
flow_world = record sample_world { db = record sample_db { auth_flow = flow ∷ [] } }

abbrev exchange : Text → Text → Text → Result Identity
exchange code verifier nonce = ok dev_identity

abbrev called_back : World
called_back = (callback exchange (some (b'c' ∷ [])) (some (b's' ∷ [])) flow_world).1

callback-single_use_example :
    (callback exchange
      (some (b'd' ∷ []))
      (some (b's' ∷ []))
      (record called_back { now = 100001 })).0
    ≡ err (raised unauthorized (units "Unknown or reused state"))
callback-single_use_example = callback-single_use exchange b'c' b'd' b's' [] [] [] flow_world 100001

abbrev claims : JwtClaims
claims = record {
  iss = some (units "https://login.microsoftonline.com/e/v2.0");
  aud = some (single (b'i' ∷ []));
  exp = some 200;
  nbf = some 50;
  nonce = some (b'n' ∷ []);
  groups = some ((b'g' ∷ []) ∷ []);
  preferred_username = some (b'u' ∷ []);
  upn = none;
  email = none;
  oid = some (b'o' ∷ []);
  sub = none;
  name = none;
  common_name = none;
}

abbrev key_of_tenant : Jwk
key_of_tenant = record { kid = b'k' ∷ []; n = []; e = [] }

abbrev verifier : Verifier
verifier = record {
  decode = λ t. some (record { alg = units "RS256"; kid = some (b'k' ∷ []); claims = claims });
  fetch_jwks = λ uri. some (key_of_tenant ∷ []);
  is_signed = λ k t. true;
}

abbrev member_world : World
member_world = record sample_world { vars = record sample_vars { allowed_group_id = b'g' ∷ [] } }

validate_id_token-IsMember_example :
    IsMember verifier (b'T' ∷ []) (b'n' ∷ []) member_world (identity_of claims)
unfolding validate_id_token verify_rs256 text_eq units ◌>>=◌
validate_id_token-IsMember_example =
    validate_id_token-IsMember verifier (b'T' ∷ []) (b'n' ∷ []) member_world (identity_of claims)
      refl

-- A token of the engine, whose team domain is configured with a slash at its end.
abbrev engine_claims : JwtClaims
engine_claims = record claims {
  iss = some (b'd' ∷ []);
  aud = some (single (b'v' ∷ []));
  common_name = some (b'e' ∷ []);
}

abbrev engine_verifier : Verifier
engine_verifier = record verifier {
  decode =
      λ t. some (record { alg = units "RS256"; kid = some (b'k' ∷ []); claims = engine_claims });
}

abbrev engine_world : World
engine_world = record sample_world {
  vars = record sample_vars { cf_access_team_domain = b'd' ∷ b'/' ∷ [] };
}

require_access_token-IsCaller_example :
    IsCaller engine_verifier (some (b'T' ∷ [])) engine_world (b'e' ∷ [])
unfolding require_access_token drop_last_slash verify_rs256 text_eq units ◌>>=◌
require_access_token-IsCaller_example =
    require_access_token-IsCaller engine_verifier (some (b'T' ∷ [])) engine_world (b'e' ∷ []) refl

callback-IsVerified_example : IsVerified exchange (some (b'c' ∷ [])) (some (b's' ∷ [])) flow_world
unfolding callback finish mint open_session take_auth_flow create_session ◌>>=◌ text_eq audit units
    trim parse_number
callback-IsVerified_example =
    callback-IsVerified exchange (some (b'c' ∷ [])) (some (b's' ∷ [])) flow_world
      (signed_in (b't' ∷ 0 ∷ []) (b'/' ∷ [])) refl

login-IsBypassed_example :
    ((login (units "admin.example") none sample_world).1.db.sessions ≡ sample_world.db.sessions)
    ⊎ IsBypassed none (units "admin.example")
login-IsBypassed_example = login-IsBypassed (units "admin.example") none sample_world

-- A read of a member, with a session and nothing counted yet.
abbrev read_request : Incoming
read_request = record {
  path = units "/api/me";
  method = units "GET";
  cookie = some (b'c' ∷ []);
  csrf_token = none;
  assertion = none;
  address = none;
}

admit-caller_example : IsAdmitted verifier read_request [] session_world (browser session)
unfolding admit admit_browser require_session Guards.admit resolve_session resolve_token rate_limit
    bucket_of open_bucket set_bucket budget_guard key_of text_eq units ◌>>=◌
admit-caller_example = admit-caller verifier read_request [] session_world (browser session) refl

-- Ids that need no escape, and one that joins keys and values.
abbrev plain_encoding : Encoding
plain_encoding = record { component = λ t. t; query = joined }
  where
    joined : List (Text × Text) → Text
    joined [] = []
    joined ((k, v) ∷ rest) = k ++ b'=' ∷ v ++ b'&' ∷ joined rest
