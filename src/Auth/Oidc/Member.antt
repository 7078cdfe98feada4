-- ===== src/Auth/Oidc/Member.antt =====
-- Who `validateIdToken` of worker/src/auth/oidc.ts lets in.
use entra_shift.Common.{◌/◌, ◌≡◌, refl, true, false, ◌||◌, Text, is_empty}
use entra_shift.App.{World, App, ok}
use entra_shift.App.Triple.{Triple, After-ok, pure-Triple, throw_if_then, gets_same, bind-Triple}
use entra_shift.Auth.Session.{Identity}
use entra_shift.Auth.Jwt.{JwtClaims, Verifier}
use entra_shift.Auth.Jwt.Trusted.{IsTrusted, double_negation, verify_rs256-IsTrusted}
use entra_shift.Auth.Oidc.{id_token_options, has_nonce, is_member, identity_of, validate_id_token}

-- The token was trusted, answers this sign-in, and names a member of the group with both names.
pub record IsMember (v : Verifier) (token nonce : Text) (w : World) (identity : Identity)
    : Type 0 where
  pub claims : JwtClaims
  pub trusted : IsTrusted v token (id_token_options w.vars) (w.now / 1000) claims
  pub same_nonce : has_nonce nonce claims.nonce ≡ true
  pub member : is_member w.vars.allowed_group_id claims.groups ≡ true
  pub named : (is_empty identity.upn || is_empty identity.oid) ≡ false
  pub of_claims : identity ≡ identity_of claims

module _ (v : Verifier) (token nonce : Text) (old : World) where
  abbrev Before : World → Type 0
  Before w = w ≡ old

  validate-Triple :
      Triple Before Before
        (validate_id_token v token nonce)
        (λ identity w. IsMember v token nonce old identity)
  unfolding validate_id_token
  validate-Triple = gets_same old _ _ (
      bind-Triple
        (λ claims w.
          Before w × IsTrusted v token (id_token_options old.vars) (old.now / 1000) claims)
        (verify_rs256-IsTrusted v token (id_token_options old.vars) old)
        (λ claims. lifted (λ trusted.
          throw_if_then _ _ _ (λ w h. h)
            (λ answers. gets_same old _ _ (
              throw_if_then _ _ _ (λ w h. h)
                (λ inside.
                  throw_if_then _ _ _ (λ w h. h)
                    (λ named. pure-Triple (identity_of claims) (λ w h. record {
                      claims = claims;
                      trusted = trusted;
                      same_nonce = double_negation _ answers;
                      member = double_negation _ inside;
                      named = named;
                      of_claims = refl;
                    }))))))))
    where
      lifted :
          {A F : Type 0} {m : App A} {R : A → World → Type 0}
          → (F → Triple Before Before m R)
          → Triple Before (λ w. Before w × F) m R
      lifted k = record { at = λ w h. (k h.1).at w h.0 }

-- An identity is accepted only from a token that is signed by a key of the tenant, in its time, for
-- this client and by this tenant, that carries the nonce of this sign-in and lists the group, and
-- whose names are not empty.
pub validate_id_token-IsMember :
    (v : Verifier) (token nonce : Text) (w : World) (identity : Identity)
    → (validate_id_token v token nonce w).0 ≡ ok identity
    → IsMember v token nonce w identity
validate_id_token-IsMember v token nonce w identity e =
    let r = validate_id_token v token nonce w in
    After-ok _ (λ i _. IsMember v token nonce w i) r.0 r.1
      ((validate-Triple v token nonce w).at w refl) e
