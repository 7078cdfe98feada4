-- ===== src/Db/Sessions.antt =====
-- worker/src/db/sessions.ts over the tables `sessions` and `auth_flow`.
use entra_shift.Common.{
  Bool, List, ◌∷◌, Option, none, some, Text, text_eq, if◌then◌else◌, ltb, any, find, delete,
}
use entra_shift.Contracts.{Instant}

pub record SessionRecord : Type 0 where
  pub id : Text
  pub actor_upn : Text
  pub actor_oid : Text
  pub display_name : Option Text
  pub group_ok : Bool
  pub csrf_token : Text
  pub created_at : Instant
  pub expires_at : Instant

abbrev pub has_id : Text → SessionRecord → Bool
has_id id s = text_eq s.id id

-- `createSession`; none if the id is taken, which breaks the primary key.
unfoldable pub create_session : SessionRecord → List SessionRecord → Option (List SessionRecord)
create_session s sessions = if any (has_id s.id) sessions then none else some (s ∷ sessions)

abbrev pub get_session : Text → List SessionRecord → Option SessionRecord
get_session hashed sessions = find (has_id hashed) sessions

abbrev pub delete_session : Text → List SessionRecord → List SessionRecord
delete_session hashed = delete (has_id hashed)

abbrev pub delete_expired_sessions : Instant → List SessionRecord → List SessionRecord
delete_expired_sessions now = delete (λ s. ltb s.expires_at now)

pub record AuthFlowRecord : Type 0 where
  pub state : Text
  pub code_verifier : Text
  pub nonce : Text
  pub redirect_to : Option Text
  pub created_at : Instant
  pub expires_at : Instant

abbrev pub has_state : Text → AuthFlowRecord → Bool
has_state state f = text_eq f.state state

-- `createAuthFlow`; none if the state is taken.
unfoldable pub create_auth_flow :
    AuthFlowRecord → List AuthFlowRecord → Option (List AuthFlowRecord)
create_auth_flow f flows = if any (has_state f.state) flows then none else some (f ∷ flows)

-- `takeAuthFlow`: the flow is deleted as it is read.
unfoldable pub take_auth_flow :
    Text → List AuthFlowRecord → Option AuthFlowRecord × List AuthFlowRecord
take_auth_flow state flows = elim (find (has_state state) flows) [
  | none ↦ (none, flows)
  | some f ↦ (some f, delete (has_state state) flows)
]
