-- ===== src/Middleware/Session/Guard.antt =====
-- What `requireSession` of worker/src/middleware/session.ts lets through.
use entra_shift.Common.{
  ◌≡◌, ◌∙◌, refl, ap, Bool, true, false, not, ◌&&◌, Option, none, some, Text, units, if◌then◌else◌,
}
use entra_shift.Errors.{Thrown, raised, unauthorized, forbidden, csrf}
use entra_shift.Db.Sessions.{SessionRecord}
use entra_shift.App.{World, Result, pure, gets, throw_if, ok, err, ◌>>=◌}
use entra_shift.App.Steps.{bind-ok}
use entra_shift.Auth.Session.{resolve_session}
use entra_shift.Auth.Session.Lifetime.{live_cookie, resolve_session-live, resolve_session-runtime}
use entra_shift.Middleware.BudgetGuard.{is_write}
use entra_shift.Middleware.Session.{csrf_matches, admit, require_session}

-- The verdict on a session, by whether the request changes state.
abbrev pub verdict : Bool → Option Text → Option SessionRecord → Result SessionRecord
verdict writes header none = err (raised unauthorized (units "No valid session"))
verdict writes header (some s) =
    if not s.group_ok
    then err (raised forbidden (units "Not a member of the required MSP security group"))
    else if writes && not (csrf_matches header s)
    then err (raised csrf (units "Invalid or missing CSRF token"))
    else ok s

last_test :
    (forged : Bool) (e : Thrown) (s : SessionRecord) (w : World)
    → ((throw_if forged e >>= λ _. pure s) w).0 ≡ (if forged then err e else ok s)
unfolding ◌>>=◌
last_test true e s w = refl
last_test false e s w = refl

two_tests :
    (outside : Bool) (upper : World → Text) (forged : Text → Bool) (e f : Thrown)
    (s : SessionRecord) (w : World)
    → ((throw_if outside e >>= λ _. gets upper >>= λ u. throw_if (forged u) f >>= λ _. pure s) w).0
      ≡ (if outside then err e else if forged (upper w) then err f else ok s)
unfolding ◌>>=◌
two_tests true upper forged e f s w = refl
two_tests false upper forged e f s w = last_test (forged (upper w)) f s w

admit-verdict :
    (method : Text) (header : Option Text) (found : Option SessionRecord) (w : World)
    → (admit method header found w).0 ≡ verdict (is_write (w.runtime.to_upper method)) header found
unfolding admit ◌>>=◌
admit-verdict method header none w = refl
admit-verdict method header (some s) w =
    two_tests (not s.group_ok) (λ w. w.runtime.to_upper method)
      (λ upper. is_write upper && not (csrf_matches header s))
      (raised forbidden (units "Not a member of the required MSP security group"))
      (raised csrf (units "Invalid or missing CSRF token")) s w

-- The guard lets a request through, with a session, exactly if the cookie stands for a session that
-- is live and of a member of the group, and a request that changes state repeats its CSRF token;
-- else it throws the first of the three errors that applies.
pub require_session-verdict :
    (cookie : Option Text) (method : Text) (header : Option Text) (w : World)
    → (require_session cookie method header w).0
      ≡ verdict (is_write (w.runtime.to_upper method)) header (live_cookie cookie w)
unfolding require_session
require_session-verdict cookie method header w =
    ap (λ r. r.0)
      (bind-ok (resolve_session cookie) (admit method header) w (resolve_session-live cookie w))
    ∙ admit-verdict method header (live_cookie cookie w) (resolve_session cookie w).1
    ∙ rw (resolve_session-runtime cookie w) refl
