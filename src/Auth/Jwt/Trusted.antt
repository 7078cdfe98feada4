-- ===== src/Auth/Jwt/Trusted.antt =====
-- What `verifyRs256` of worker/src/lib/jwt.ts has checked of a token that it accepts.
use entra_shift.Common.{
  ℕ, ◌/◌, ◌≡◌, refl, Bool, true, false, not, List, some, Text, units, text_eq, find,
}
use entra_shift.App.{World}
use entra_shift.App.Triple.{Triple, pure-Triple, or_throw_then, throw_if_then, gets_same}
use entra_shift.Auth.Jwt.{
  JwtClaims, Jwt, Jwk, Verifier, VerifyOptions, has_kid, is_expired, is_early, is_meant_for,
  is_issued_by, verify_rs256,
}

-- Signed by a key of the issuer that the token names, in its time, for this audience, by this issuer.
pub record IsTrusted (v : Verifier) (token : Text) (opts : VerifyOptions) (now : ℕ)
    (claims : JwtClaims) : Type 0 where
  pub jwt : Jwt
  pub keys : List Jwk
  pub jwk : Jwk
  pub decoded : v.decode token ≡ some jwt
  pub algorithm : text_eq jwt.alg (units "RS256") ≡ true
  pub fetched : v.fetch_jwks opts.jwks_uri ≡ some keys
  pub key : find (has_kid jwt.kid) keys ≡ some jwk
  pub signed : v.is_signed jwk token ≡ true
  pub unexpired : is_expired now jwt.claims.exp ≡ false
  pub started : is_early now jwt.claims.nbf ≡ false
  pub audience : is_meant_for opts.audience jwt.claims.aud ≡ true
  pub issuer : is_issued_by opts.issuer jwt.claims.iss ≡ true
  pub same_claims : claims ≡ jwt.claims

pub double_negation : (b : Bool) → not b ≡ false → b ≡ true
double_negation true e = refl
double_negation false e = cc

-- The world is the one before, all along.
module _ (v : Verifier) (token : Text) (opts : VerifyOptions) (old : World) where
  abbrev pub Same : World → Type 0
  Same w = w ≡ old

  pub verify_rs256-IsTrusted :
      Triple Same Same
        (verify_rs256 v token opts)
        (λ claims w. Same w × IsTrusted v token opts (old.now / 1000) claims)
  unfolding verify_rs256
  verify_rs256-IsTrusted =
      or_throw_then _ _ (λ w h. h)
        (λ jwt decoded.
          throw_if_then _ _ _ (λ w h. h)
            (λ algorithm.
              or_throw_then _ _ (λ w h. h)
                (λ keys fetched.
                  or_throw_then _ _ (λ w h. h)
                    (λ jwk key.
                      throw_if_then _ _ _ (λ w h. h)
                        (λ signed. gets_same old _ _ (
                          throw_if_then _ _ _ (λ w h. h)
                            (λ unexpired.
                              throw_if_then _ _ _ (λ w h. h)
                                (λ started.
                                  throw_if_then _ _ _ (λ w h. h)
                                    (λ audience.
                                      throw_if_then _ _ _ (λ w h. h)
                                        (λ issuer. pure-Triple jwt.claims (λ w h. (
                                          h,
                                          record {
                                            jwt = jwt;
                                            keys = keys;
                                            jwk = jwk;
                                            decoded = decoded;
                                            algorithm = double_negation _ algorithm;
                                            fetched = fetched;
                                            key = key;
                                            signed = double_negation _ signed;
                                            unexpired = unexpired;
                                            started = started;
                                            audience = double_negation _ audience;
                                            issuer = double_negation _ issuer;
                                            same_claims = refl;
                                          },
                                        ))))))))))))
