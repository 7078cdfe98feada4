-- ===== src/Web/Client.antt =====
-- The request core of web/src/lib/api.ts.
pub mod Rules
pub mod Finishes
pub mod Depth
pub mod Count
pub mod Announces
use entra_shift.Common.{
  ℕ, zero, suc, Bool, true, false, not, ◌&&◌, List, [], ◌∷◌, ◌++◌, Option, none, some, Text, units,
  text_eq, starts_with, is_empty, is_some, or_else, coalesce, if◌then◌else◌, ◌==◌,
}
use entra_shift.Graph.{is_ok}
use entra_shift.Web.Page.{
  ApiErrorCode, ApiError, Method, get, post, patch, delete, is_unsafe, Sent, Response, Fetched,
  aborted, unreachable, answered, Browser, Page, Outcome, returned, raised, Ending, ended, abort,
  broken, out_of_fuel, Client, pure, end, modify, only_if, ◌>>=◌, ◌>>◌,
}

-- `httpToCode`.
abbrev pub http_to_code : ℕ → ApiErrorCode
http_to_code status =
    if status == 401
    then units "unauthorized"
    else if status == 403
    then units "forbidden"
    else if status == 404
    then units "not_found"
    else if status == 429
    then units "rate_limited"
    else units "unknown"

-- An empty text is false in the source.
abbrev pub non_empty : Option Text → Option Text
non_empty none = none
non_empty (some []) = none
non_empty (some (c ∷ s)) = some (c ∷ s)

-- An outcome that `catch` passes over.
abbrev pub swallow : {A : Type 0} → Outcome A → Client (Unit {0})
swallow (ended out_of_fuel) p = (ended out_of_fuel, p)
swallow _ p = (returned tt, p)

abbrev pub quietly : {A : Type 0} → Client A → Client (Unit {0})
quietly m p = swallow (m p).0 (m p).1

abbrev json_header : Option Text → List (Text × Text)
json_header none = []
json_header (some b) = (units "Content-Type", units "application/json") ∷ []

abbrev pub csrf_header : Option Text → List (Text × Text)
csrf_header none = []
csrf_header (some token) = (units "X-CSRF-Token", token) ∷ []

abbrev pub headers_of : Method → Option Text → Option Text → List (Text × Text)
headers_of method body token =
    (units "Accept", units "application/json")
    ∷ (json_header body ++ (if is_unsafe method then csrf_header (non_empty token) else []))

-- `/api/me`, and the paths that begin so.
abbrev pub me_path : Text
me_path = units "/api/me"

-- `await fetch(…)`.
abbrev pub reached : Fetched → Outcome Response
reached (answered res) = returned res
reached aborted = ended abort
reached unreachable = ended (
    raised (record {
      code = units "network";
      message = units "Could not reach the control plane.";
      status = 0;
      detail = none;
    }))

module _ (b : Browser) where
  -- What is sent, with the token that the page holds then.
  abbrev pub message : Method → Text → Option Text → Page → Sent
  message method path body p = record {
    url = b.api_base ++ path;
    method = method;
    headers = headers_of method body p.csrf_token;
    body = body;
  }

  unfoldable pub send : Method → Text → Option Text → Client Response
  send method path body p =
      let m = message method path body p in
      (reached (b.fetch p.sent m), record p { sent = m ∷ p.sent })

  -- `text ? safeJson(text) : undefined`.
  abbrev pub parsed : Text → Option b.Json
  parsed [] = none
  parsed (c ∷ s) = b.parse (c ∷ s)

  abbrev pub read_from : {A : Type 0} → (b.Json → Option A) → Option b.Json → Option A
  read_from f none = none
  read_from f (some j) = f j

  abbrev pub error_of : Response → Option b.Json → ApiError
  error_of res envelope = record {
    code = or_else (read_from b.error_code envelope) (http_to_code res.status);
    message = or_else (read_from b.error_message envelope) res.status_text;
    status = res.status;
    detail = read_from b.error_detail envelope;
  }

  abbrev pub is_stale : Bool → Method → ApiError → Bool
  is_stale is_retry method e = text_eq e.code (units "csrf") && not is_retry && is_unsafe method

  abbrev pub is_sign_out : Text → ApiError → Bool
  is_sign_out path e = text_eq e.code (units "unauthorized") && not (starts_with path me_path)

  -- The page after the event, if there is one.
  abbrev pub refused : Text → ApiError → Page → Page
  refused path e p = record p {
    announced = if is_sign_out path e then suc p.announced else p.announced;
  }

  unfoldable pub refuse : {A : Type 0} → Text → ApiError → Client A
  refuse path e p = (ended (raised e), refused path e p)

  -- An answer's text, where `refresh` and `retry` are what is done about a token that went stale.
  abbrev pub read :
      Client (Unit {0})
      → Client (Option b.Json)
      → Bool
      → Method
      → Text
      → Response
      → Option Text
      → Client (Option b.Json)
  read refresh retry is_retry method path res none = end broken
  read refresh retry is_retry method path res (some text) =
      let envelope = parsed text in
      if is_ok res.status
      then pure envelope
      else let e = error_of res envelope in
        if is_stale is_retry method e
        then (do modify (λ p. record p { csrf_token = none }); refresh; retry)
        else refuse path e

  abbrev pub handle :
      Client (Unit {0})
      → Client (Option b.Json)
      → Bool
      → Method
      → Text
      → Response
      → Client (Option b.Json)
  handle refresh retry is_retry method path res =
      if res.status == 204 then pure none else read refresh retry is_retry method path res res.text

  abbrev pub lacks : Bool → Method → Page → Bool
  lacks is_retry method p =
      is_unsafe method && not (is_some (non_empty p.csrf_token)) && not is_retry

  -- `getMe` after its request.
  abbrev pub remember : Client (Option b.Json) → Client (Option b.Json)
  remember m = do
    me ← m
    modify
        (λ p. record p { csrf_token = coalesce (non_empty (read_from b.csrf_of me)) p.csrf_token })
    pure me

  -- `request`, and with it `getMe`; the fuel bounds how deep they call each other.
  unfoldable pub request : ℕ → Bool → Method → Text → Option Text → Client (Option b.Json)
  request zero is_retry method path body = end out_of_fuel
  request (suc fuel) is_retry method path body = do
    let refresh = quietly (remember (request fuel false get me_path none))
    let retry = request fuel true method path body
    (λ p. only_if (lacks is_retry method p) refresh p)
    res ← send method path body
    handle refresh retry is_retry method path res

  -- `getMe`.
  unfoldable pub get_me : Client (Option b.Json)
  get_me = remember (request 1 false get me_path none)

  -- `signOut`.
  unfoldable pub sign_out : Client (Unit {0})
  sign_out = do
    request 2 false post (units "/auth/logout") none
    modify (λ p. record p { csrf_token = none })
