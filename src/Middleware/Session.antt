-- ===== src/Middleware/Session.antt =====
-- `requireSession` of worker/src/middleware/session.ts.
pub mod Guard
use entra_shift.Common.{
  Bool, true, false, not, ◌&&◌, Option, none, some, Text, text_eq, units, is_empty,
}
use entra_shift.Errors.{raised, unauthorized, forbidden, csrf}
use entra_shift.Db.Sessions.{SessionRecord}
use entra_shift.App.{World, App, pure, gets, or_throw, throw_if, ◌>>=◌, ◌>>◌}
use entra_shift.Auth.Session.{resolve_session}
use entra_shift.Middleware.BudgetGuard.{is_write}

-- The header repeats the session's token; an empty one counts as missing.
abbrev pub csrf_matches : Option Text → SessionRecord → Bool
csrf_matches none s = false
csrf_matches (some provided) s = not (is_empty provided) && text_eq provided s.csrf_token

-- The tests behind `resolveSession`.
unfoldable pub admit : Text → Option Text → Option SessionRecord → App SessionRecord
admit method header found = do
  session ← or_throw found (raised unauthorized (units "No valid session"))
  throw_if (not session.group_ok)
      (raised forbidden (units "Not a member of the required MSP security group"))
  upper ← gets (λ w. w.runtime.to_upper method)
  throw_if (is_write upper && not (csrf_matches header session))
      (raised csrf (units "Invalid or missing CSRF token"))
  pure session

unfoldable pub require_session : Option Text → Text → Option Text → App SessionRecord
require_session cookie method header = do found ← resolve_session cookie; admit method header found
