-- ===== src/Graph/Client/Consent.antt =====
-- What a test of a tenant's connection (worker/src/graph/client.ts) says.
use entra_shift.Common.{
  ◌≡◌, ◌↔◌, refl, ap, true, List, [], ◌∷◌, map, Text, All, select, is_empty, Bool-cases, inl, inr,
}
use entra_shift.Contracts.{TenantRole, source, destination}
use entra_shift.Errors.{Thrown}
use entra_shift.App.{World}
use entra_shift.App.Triple.{Triple, pure-Triple, then_Triple, try_Triple}
use entra_shift.Graph.{Graph}
use entra_shift.Graph.Client.{
  ScopeCheck, ConnectionTestResult, required_scopes, checks, missing, passed_test, refused_test,
  test_connection,
}
use entra_shift.Graph.Client.Keeps.{acquire_app_token-keep}

-- The permissions of the role were looked at, and none is missing exactly if all are granted.
pub record IsJudged (role : TenantRole) (result : ConnectionTestResult) : Type 0 where
  pub asked : map (λ s. s.scope) result.scopes ≡ required_scopes role
  pub complete_iff :
      (is_empty result.missing_consents ≡ true) ↔ All (λ s. s.granted ≡ true) result.scopes

asked_checks : (roles scopes : List Text) → map (λ s. s.scope) (checks roles scopes) ≡ scopes
asked_checks roles [] = refl
asked_checks roles (s ∷ scopes) = ap (λ rest. s ∷ rest) (asked_checks roles scopes)

missing_iff :
    (scopes : List ScopeCheck)
    → (is_empty (missing scopes) ≡ true) ↔ All (λ s. s.granted ≡ true) scopes
missing_iff [] = (λ e. tt, λ h. refl)
missing_iff (s ∷ scopes) = elim (Bool-cases s.granted) [
  | inl given ↦
      rw (given, select) (let ih = missing_iff scopes in (λ e. (refl, ih.0 e), λ h. ih.1 h.1))
  | inr lacking ↦ rw (lacking, select) (λ e. cc, λ h. cc (h.0))
]

refused-IsJudged :
    (role : TenantRole) (tenant_id : Text) (e : Thrown)
    → IsJudged role (refused_test role tenant_id e)
refused-IsJudged source tenant_id e = record {
  asked = refl;
  complete_iff = (λ e. cc, λ h. cc (h.0));
}
refused-IsJudged destination tenant_id e = record {
  asked = refl;
  complete_iff = (λ e. cc, λ h. cc (h.0));
}

passed-IsJudged :
    (g : Graph) (role : TenantRole) (tenant_id token : Text)
    → IsJudged role (passed_test g role tenant_id token)
passed-IsJudged g role tenant_id token = record {
  asked = asked_checks _ (required_scopes role);
  complete_iff = missing_iff _;
}

pub test_connection-IsJudged :
    {P : World → Type 0} (g : Graph) (tenant_id client_id secret : Text) (role : TenantRole)
    → Triple P P
        (test_connection g tenant_id client_id secret role)
        (λ result w. P w × IsJudged role result)
unfolding test_connection
test_connection-IsJudged g tenant_id client_id secret role =
    try_Triple
      (then_Triple (acquire_app_token-keep g _)
        (λ token. pure-Triple _ (λ w h. (h, passed-IsJudged g role tenant_id token.access_token))))
      (λ e. pure-Triple _ (λ w h. (h, refused-IsJudged role tenant_id e)))
