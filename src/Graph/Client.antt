-- ===== src/Graph/Client.antt =====
-- The calls of worker/src/graph/client.ts.
pub mod Keeps
pub mod Consent
use entra_shift.Common.{
  ℕ, ◌+◌, ◌-◌, ◌*◌, Bool, true, false, not, ◌&&◌, ◌||◌, List, [], ◌∷◌, ◌++◌, map, Option, none,
  some, Text, units, text_eq, any, select, take, or_else, coalesce, is_empty, if◌then◌else◌, ◌==◌,
}
use entra_shift.Csv.{decimal}
use entra_shift.Contracts.{Instant, TenantRole, source, destination}
use entra_shift.Errors.{Thrown, api, syntax_error, unexpected, ErrorCode, graph_error, token_error}
use entra_shift.App.{
  World, App, Result, ok, err, pure, throw, gets, act, or_throw, throw_if, try_catch, modify, ◌>>=◌,
  ◌>>◌,
}
use entra_shift.Graph.{
  Response, Fetched, unreachable, answered, is_ok, TokenBody, GraphUser, GraphUserList,
  ProvisionInput, CreatedUser, TokenForm, Graph,
}

abbrev graph_url : Text
graph_url = units "https://graph.microsoft.com/v1.0"

abbrev pub default_scope : Text
default_scope = units "https://graph.microsoft.com/.default"

-- `REQUIRED_SCOPES`.
abbrev pub required_scopes : TenantRole → List Text
required_scopes source =
    units "User.Read.All"
    ∷ units "MailboxItem.Export.All"
    ∷ units "MailboxFolder.Read.All"
    ∷ units "MailboxSettings.Read"
    ∷ units "Files.Read.All"
    ∷ []
required_scopes destination =
    units "User.ReadWrite.All"
    ∷ units "MailboxItem.ImportExport.All"
    ∷ units "MailboxFolder.ReadWrite.All"
    ∷ units "Files.ReadWrite.All"
    ∷ units "Sites.FullControl.All"
    ∷ []

pub record AppToken : Type 0 where
  pub access_token : Text
  pub expires_at : Instant

-- `await fetch(…)`.
abbrev pub reached : {A : Type 0} → Fetched A → App (Response A)
reached (unreachable message) = throw (unexpected message)
reached (answered r) = pure r

abbrev raised_with : ErrorCode → Text → Text → Thrown
raised_with code message detail =
    api (record { code = code; message = message; detail = some detail })

abbrev http_status : ℕ → Text
http_status status = units "HTTP " ++ decimal status

-- An empty text is false in the source.
abbrev pub non_empty : Option Text → Option Text
non_empty none = none
non_empty (some []) = none
non_empty (some (c ∷ s)) = some (c ∷ s)

abbrev pub token_of : ℕ → TokenBody → Option Text
token_of status body = if is_ok status then non_empty body.access_token else none

abbrev refused_token : ℕ → TokenBody → Thrown
refused_token status body =
    raised_with token_error (units "Graph client-credentials token acquisition failed")
      (or_else (coalesce body.error_description body.error) (http_status status))

-- `now + (expires_in - 60) * 1000`, for instants from 1970 on.
abbrev pub expiry : Instant → Option ℕ → Instant
expiry now expires_in = now + or_else expires_in 3600 * 1000 - 60 * 1000

unfoldable pub acquire_app_token : Graph → TokenForm → App AppToken
acquire_app_token g form = do
  res ← reached (g.post_token form)
  body ← or_throw res.json syntax_error
  token ← or_throw (token_of res.status body) (refused_token res.status body)
  now ← gets (λ w. w.now)
  pure (record { access_token = token; expires_at = expiry now body.expires_in })

unfoldable pub granted_roles : Graph → Text → List Text
granted_roles g token = or_else (g.roles token) []

pub record ScopeCheck : Type 0 where
  pub scope : Text
  pub granted : Bool

pub record ConnectionTestResult : Type 0 where
  pub token_acquired : Bool
  pub tenant_id : Text
  pub scopes : List ScopeCheck
  pub missing_consents : List Text
  pub error : Option Text

-- `roles.includes(scope)`.
abbrev pub includes : List Text → Text → Bool
includes roles scope = any (λ r. text_eq r scope) roles

abbrev pub checks : List Text → List Text → List ScopeCheck
checks roles = map (λ scope. record { scope = scope; granted = includes roles scope })

abbrev pub missing : List ScopeCheck → List Text
missing scopes = map (λ s. s.scope) (select (λ s. not s.granted) scopes)

-- `e.message`.
abbrev pub message_of : Thrown → Text
message_of (api e) = e.message
message_of syntax_error = units "Unexpected end of JSON input"
message_of (unexpected message) = message

abbrev pub refused_test : TenantRole → Text → Thrown → ConnectionTestResult
refused_test role tenant_id e = record {
  token_acquired = false;
  tenant_id = tenant_id;
  scopes = map (λ scope. record { scope = scope; granted = false }) (required_scopes role);
  missing_consents = required_scopes role;
  error = some (message_of e);
}

abbrev pub passed_test : Graph → TenantRole → Text → Text → ConnectionTestResult
passed_test g role tenant_id token =
    let scopes = checks (granted_roles g token) (required_scopes role) in
    record {
      token_acquired = true;
      tenant_id = tenant_id;
      scopes = scopes;
      missing_consents = missing scopes;
      error = none;
    }

unfoldable pub test_connection : Graph → Text → Text → Text → TenantRole → App ConnectionTestResult
test_connection g tenant_id client_id secret role =
    try_catch
      (do
        token ← acquire_app_token g (record {
          tenant_id = tenant_id;
          client_id = client_id;
          client_secret = secret;
          scope = default_scope;
        })
        pure (passed_test g role tenant_id token.access_token))
      (λ e. pure (refused_test role tenant_id e))

-- `graphGet`.
unfoldable pub graph_get : {A : Type 0} → Graph → Text → Fetched A → App A
graph_get g url sent = do
  res ← reached sent
  throw_if (not (is_ok res.status)) (
      raised_with graph_error
        (units "Graph GET "
          ++ g.path_name url
          ++ units " failed ("
          ++ decimal res.status
          ++ units ")")
        (take 500 res.text))
  or_throw res.json syntax_error

abbrev user_select : Text
user_select = units "id,displayName,givenName,surname,userPrincipalName,mail,accountEnabled"

-- `replace(/'/g, "''")`.
unfoldable pub quoted : Text → Text
quoted [] = []
quoted (c ∷ s) = if c == b'\'' then b'\'' ∷ b'\'' ∷ quoted s else c ∷ quoted s

abbrev starts : Text → Text → Text
starts field s = units "startswith(" ++ field ++ units ",'" ++ s ++ units "')"

abbrev search_filter : Text → Text
search_filter s =
    starts (units "displayName") s
    ++ units " or "
    ++ starts (units "userPrincipalName") s
    ++ units " or "
    ++ starts (units "mail") s

abbrev with_search : Option Text → List (Text × Text)
with_search none = []
with_search (some s) = (units "$filter", search_filter (quoted s)) ∷ []

abbrev with_cursor : Option Text → List (Text × Text)
with_cursor none = []
with_cursor (some c) = (units "$skiptoken", c) ∷ []

-- The address that `discoverUsers` asks, with the page size that its caller leaves at its default.
abbrev pub discovery_url : Graph → Option Text → Option Text → Text
discovery_url g search cursor =
    graph_url
    ++ units "/users?"
    ++ g.query_string (
        (units "$select", user_select)
        ∷ (units "$top", units "25")
        ∷ (with_search (non_empty search) ++ with_cursor (non_empty cursor)))

abbrev next_cursor : Graph → Option Text → Option Text
next_cursor g next = elim (non_empty next) [ none ↦ none | some link ↦ g.skip_token link ]

unfoldable pub discover_users :
    Graph → Text → Option Text → Option Text → App (List GraphUser × Option Text)
discover_users g token search cursor = do
  let url = discovery_url g search cursor
  page ← graph_get g url (g.get_users token url)
  pure (page.value, next_cursor g page.next_link)

abbrev lookup_url : Text → Text
lookup_url email =
    let s = quoted email in
    graph_url
    ++ units "/users?$select="
    ++ user_select
    ++ units "&$filter=mail eq '"
    ++ s
    ++ units "' or userPrincipalName eq '"
    ++ s
    ++ units "'&$top=1"

abbrev first : {A : Type 0} → List A → Option A
first [] = none
first (a ∷ as') = some a

unfoldable pub get_user_by_email : Graph → Text → Text → App (Option GraphUser)
get_user_by_email g token email = do
  page ← graph_get g (lookup_url email) (g.get_users token (lookup_url email))
  pure (first page.value)

-- An account that was created is among `accounts`, whatever becomes of the answer.
abbrev pub created : Response CreatedUser → ProvisionInput → World → World
created res input w = record w {
  accounts = if is_ok res.status then input ∷ w.accounts else w.accounts;
}

unfoldable pub provision_user : Graph → Text → ProvisionInput → App CreatedUser
provision_user g token input = do
  sent ← gets (λ w. g.post_user w.accounts token input)
  res ← reached sent
  modify (created res input)
  throw_if (not (is_ok res.status)) (
      raised_with graph_error
        (units "Provisioning "
          ++ input.user_principal_name
          ++ units " failed ("
          ++ decimal res.status
          ++ units ")")
        (take 500 res.text))
  or_throw res.json syntax_error

unfoldable pub pre_provision_one_drive : Graph → Text → Text → App Bool
pre_provision_one_drive g token user_id =
    let url = graph_url ++ units "/users/" ++ g.encode_component user_id ++ units "/drive/root" in
    try_catch (do graph_get g url (g.get_drive token url); pure true) (λ e. pure false)
