-- ===== src/Auth/DevBypass.antt =====
-- worker/src/auth/devbypass.ts, on the host name of the request's URL.
use entra_shift.Common.{Bool, true, false, ◌&&◌, ◌||◌, Option, none, some, Text, text_eq, units}
use entra_shift.App.{Vars}
use entra_shift.Auth.Session.{Identity}

abbrev pub is_local_request : Text → Bool
is_local_request host =
    text_eq host (units "localhost")
    || text_eq host (units "127.0.0.1")
    || text_eq host (units "[::1]")
    || text_eq host (units "::1")

abbrev pub is_true : Option Text → Bool
is_true none = false
is_true (some v) = text_eq v (units "true")

unfoldable pub dev_bypass_active : Vars → Text → Bool
dev_bypass_active vars host = is_true vars.dev_auth_bypass && is_local_request host

abbrev pub dev_identity : Identity
dev_identity = record {
  upn = units "dev@localhost";
  oid = units "dev-local-bypass";
  display_name = some (units "Local Dev (SSO bypassed)");
  group_ok = true;
}
