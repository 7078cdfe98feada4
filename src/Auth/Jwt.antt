-- ===== src/Auth/Jwt.antt =====
-- worker/src/lib/jwt.ts: the checks of a signed token. Decoding, the keys of the issuer and the
-- signature are those of the runtime and the network, a parameter. The keys are asked for each time:
-- the cache of ten minutes is not modelled.
pub mod Trusted
use entra_shift.Common.{
  ℕ, ◌+◌, ◌/◌, Bool, true, false, not, ◌&&◌, List, [], ◌∷◌, ◌++◌, Option, none, some, Text, units,
  text_eq, any, find, ltb, is_empty, if◌then◌else◌,
}
use entra_shift.Errors.{Thrown, raised, unauthorized}
use entra_shift.App.{World, App, pure, gets, or_throw, throw_if, ◌>>=◌, ◌>>◌}

pub data Audience : Type 0 where
  single : Text → Audience
  several : List Text → Audience

-- The claims that the code reads; one that is missing or of another type is none.
pub record JwtClaims : Type 0 where
  pub iss : Option Text
  pub aud : Option Audience
  pub exp : Option ℕ
  pub nbf : Option ℕ
  pub nonce : Option Text
  pub groups : Option (List Text)
  pub preferred_username : Option Text
  pub upn : Option Text
  pub email : Option Text
  pub oid : Option Text
  pub sub : Option Text
  pub name : Option Text
  pub common_name : Option Text

pub record Jwt : Type 0 where
  pub alg : Text
  pub kid : Option Text
  pub claims : JwtClaims

pub record Jwk : Type 0 where
  pub kid : Text
  pub n : Text
  pub e : Text

-- `decodeJwt`, `fetchJwks` on an address, and the check of a signature: none where they throw.
pub record Verifier : Type 0 where
  pub decode : Text → Option Jwt
  pub fetch_jwks : Text → Option (List Jwk)
  pub is_signed : Jwk → Text → Bool

pub record VerifyOptions : Type 0 where
  pub jwks_uri : Text
  pub audience : Text
  pub issuer : Option Text

abbrev pub has_kid : Option Text → Jwk → Bool
has_kid none k = false
has_kid (some kid) k = text_eq k.kid kid

abbrev pub skew : ℕ
skew = 60

abbrev pub is_expired : ℕ → Option ℕ → Bool
is_expired now none = false
is_expired now (some exp) = ltb (exp + skew) now

abbrev pub is_early : ℕ → Option ℕ → Bool
is_early now none = false
is_early now (some nbf) = ltb (now + skew) nbf

-- `auds.includes(…)`; an empty text is no audience.
abbrev pub is_meant_for : Text → Option Audience → Bool
is_meant_for a none = false
is_meant_for a (some (single b)) = not (is_empty b) && text_eq b a
is_meant_for a (some (several bs)) = any (λ b. text_eq b a) bs

abbrev equals : Option Text → Text → Bool
equals none t = false
equals (some s) t = text_eq s t

-- The issuer is checked where one is given; an empty one counts as none.
abbrev pub is_issued_by : Option Text → Option Text → Bool
is_issued_by none iss = true
is_issued_by (some i) iss = if is_empty i then true else equals iss i

abbrev refused : Text → Thrown
refused message = raised unauthorized message

-- `verifyRs256`, with the skew that every caller leaves at its default.
unfoldable pub verify_rs256 : Verifier → Text → VerifyOptions → App JwtClaims
verify_rs256 v token opts = do
  jwt ← or_throw (v.decode token) (refused (units "Malformed JWT"))
  throw_if (not (text_eq jwt.alg (units "RS256")))
      (refused (units "Unsupported JWT alg: " ++ jwt.alg))
  keys ← or_throw (v.fetch_jwks opts.jwks_uri) (refused (units "Unable to fetch JWKS"))
  jwk ←
      or_throw (find (has_kid jwt.kid) keys) (refused (units "Signing key (kid) not found in JWKS"))
  throw_if (not (v.is_signed jwk token)) (refused (units "JWT signature verification failed"))
  now ← gets (λ w. w.now / 1000)
  throw_if (is_expired now jwt.claims.exp) (refused (units "JWT expired"))
  throw_if (is_early now jwt.claims.nbf) (refused (units "JWT not yet valid"))
  throw_if (not (is_meant_for opts.audience jwt.claims.aud))
      (refused (units "JWT audience mismatch"))
  throw_if (not (is_issued_by opts.issuer jwt.claims.iss)) (refused (units "JWT issuer mismatch"))
  pure jwt.claims
