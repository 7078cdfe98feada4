-- ===== src/Graph.antt =====
-- worker/src/graph/client.ts: what goes to Microsoft Graph and comes back. The network and the
-- functions of the runtime on addresses are a parameter.
pub mod Client
use entra_shift.Common.{ℕ, Bool, ◌&&◌, List, Option, Text, leb, ltb}

-- A body that was read both as text and as JSON; the latter is none where parsing throws.
pub record Response (A : Type 0) : Type 0 where
  pub status : ℕ
  pub text : Text
  pub json : Option A

-- `fetch` throws, with a message, or there is an answer.
pub data Fetched (A : Type 0) : Type 0 where
  unreachable : Text → Fetched A
  answered : Response A → Fetched A

-- `res.ok`.
abbrev pub is_ok : ℕ → Bool
is_ok status = leb 200 status && ltb status 300

pub record TokenBody : Type 0 where
  pub access_token : Option Text
  pub expires_in : Option ℕ
  pub error_description : Option Text
  pub error : Option Text

pub record GraphUser : Type 0 where
  pub id : Text
  pub display_name : Option Text
  pub given_name : Option Text
  pub surname : Option Text
  pub user_principal_name : Text
  pub mail : Option Text
  pub account_enabled : Bool

pub record GraphUserList : Type 0 where
  pub value : List GraphUser
  pub next_link : Option Text

pub record ProvisionInput : Type 0 where
  pub user_principal_name : Text
  pub display_name : Text
  pub given_name : Option Text
  pub surname : Option Text
  pub mail_nickname : Text
  pub password : Text

pub record CreatedUser : Type 0 where
  pub id : Text
  pub user_principal_name : Text

-- The form that asks for a token.
pub record TokenForm : Type 0 where
  pub tenant_id : Text
  pub client_id : Text
  pub client_secret : Text
  pub scope : Text

-- The answers: to a form at the token endpoint; to GET of a list of users and of a drive, by token
-- and address; to POST of a new user, by the accounts that there are already. Then the claim `roles`
-- of a token (none if it cannot be decoded or has no such list), `URLSearchParams.toString`, the
-- parameter `$skiptoken` and the path of an address, and `encodeURIComponent`.
pub record Graph : Type 0 where
  pub post_token : TokenForm → Fetched TokenBody
  pub get_users : Text → Text → Fetched GraphUserList
  pub get_drive : Text → Text → Fetched (Unit {0})
  pub post_user : List ProvisionInput → Text → ProvisionInput → Fetched CreatedUser
  pub roles : Text → Option (List Text)
  pub query_string : List (Text × Text) → Text
  pub skip_token : Text → Option Text
  pub path_name : Text → Text
  pub encode_component : Text → Text
