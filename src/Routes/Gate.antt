-- ===== src/Routes/Gate.antt =====
-- worker/src/routes/index.ts and worker/src/index.ts: the guards that a request to `/api/…` passes
-- before its handler, and the answer that becomes of it.
pub mod Admitted
use entra_shift.Common.{
  ℕ, Bool, true, false, not, ◌&&◌, ◌||◌, ◌++◌, List, [], ◌∷◌, Option, none, some, Text, text_eq,
  units, starts_with, is_empty, or_else, if◌then◌else◌,
}
use entra_shift.Errors.{ErrorResponse, Thrown, raised, rate_limited, on_error}
use entra_shift.Db.Sessions.{SessionRecord}
use entra_shift.App.{World, App, Result, ok, err, pure, throw, gets, ◌>>=◌, ◌>>◌}
use entra_shift.App.Actions.{now_iso}
use entra_shift.Auth.Jwt.{Verifier}
use entra_shift.Auth.Access.{require_access_token}
use entra_shift.Middleware.Session.{require_session}
use entra_shift.Middleware.BudgetGuard.{budget_guard, count_worker_request}
use entra_shift.Middleware.RateLimit.{Buckets, Answer, pass, retry_after, rate_limit, key_of}

-- What the guards read of a request.
pub record Incoming : Type 0 where
  pub path : Text
  pub method : Text
  pub cookie : Option Text
  pub csrf_token : Option Text
  pub assertion : Option Text
  pub address : Option Text

abbrev pub vm_prefix : Text
vm_prefix = units "/api/vm"

-- The pattern `/vm/*` below `/api`: the path itself, and what goes on with a slash.
abbrev pub is_vm_path : Text → Bool
is_vm_path path = text_eq path vm_prefix || starts_with path (vm_prefix ++ units "/")

-- The paths that the guard of the browser's plane lets go on.
abbrev pub is_exempt : Text → Bool
is_exempt path = starts_with path vm_prefix || text_eq path (units "/api/app-info")

abbrev too_many : Thrown
too_many = raised rate_limited (units "Per-session request cap (120/min) exceeded")

abbrev limited : Answer → App (Unit {0})
limited pass = pure tt
limited (retry_after seconds) = throw too_many

-- The key of the limiter, where a session has been set.
abbrev pub session_key : SessionRecord → Incoming → Text
session_key s req = key_of (some s.id) req.address

-- Session and CSRF, then the rate limit, then the budget.
unfoldable pub admit_browser : Incoming → Buckets → App SessionRecord
admit_browser req buckets = do
  session ← require_session req.cookie req.method req.csrf_token
  answer ← gets (λ w. (rate_limit (session_key session req) w.now buckets).0)
  limited answer
  budget_guard req.method
  pure session

unfoldable pub admit_engine : Verifier → Incoming → App Text
admit_engine v req = do
  subject ← require_access_token v req.assertion
  budget_guard req.method
  pure subject

-- Whom a handler is run for.
pub data Caller : Type 0 where
  browser : SessionRecord → Caller
  engine : Text → Caller
  anyone : Caller

-- All guards.
unfoldable pub admit : Verifier → Incoming → Buckets → App Caller
admit v req buckets =
    if is_vm_path req.path
    then (do subject ← admit_engine v req; pure (engine subject))
    else if is_exempt req.path
    then pure anyone
    else (do session ← admit_browser req buckets; pure (browser session))

-- The buckets behind a request: it is counted once its session is known to be good.
unfoldable pub buckets_after : Incoming → Buckets → World → Buckets
buckets_after req buckets w =
    if is_vm_path req.path || is_exempt req.path
    then buckets
    else elim (require_session req.cookie req.method req.csrf_token w).0 [
      | err e ↦ buckets
      | ok s ↦ (rate_limit (session_key s req) w.now buckets).1
    ]

pub data Response (A : Type 0) : Type 0 where
  success : A → Response A
  failure : ErrorResponse → Response A

abbrev responded : {A : Type 0} → Result A → Response A
responded (ok a) = success a
responded (err e) = failure (on_error e)

-- A request from the count of it to its response.
unfoldable pub serve_api :
    {A : Type 0} → Verifier → Incoming → Buckets → (Caller → App A) → World → Response A × World
serve_api v req buckets handler w =
    let (r, w') = count_worker_request (admit v req buckets >>= handler) w in (responded r, w')

pub record AppInfo : Type 0 where
  pub project_name : Text
  pub product : Text

-- GET /api/app-info, by the setting `PROJECT_NAME`.
unfoldable pub app_info : Text → AppInfo
app_info project_name = record {
  project_name = if is_empty project_name then units "EntraShift" else project_name;
  product = units "EntraShift";
}

pub record Me : Type 0 where
  pub upn : Text
  pub display_name : Option Text
  pub group_ok : Bool
  pub csrf_token : Text

-- GET /api/me.
unfoldable pub me : SessionRecord → Me
me s = record {
  upn = s.actor_upn;
  display_name = s.display_name;
  group_ok = s.group_ok;
  csrf_token = s.csrf_token;
}
