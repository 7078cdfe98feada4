-- ===== src/Auth/Session.antt =====
-- worker/src/auth/session.ts: the cookie carries a random token, the table only its hash.
pub mod Lifetime
use entra_shift.Common.{
  ℕ, ◌+◌, ◌*◌, ◌/◌, Bool, true, false, List, Option, none, some, Text, units, if◌then◌else◌,
  is_empty, ltb, leb, ◌==◌, Text,
}
use entra_shift.Numbers.{Number, whole, parse_number}
use entra_shift.Contracts.{Instant}
use entra_shift.Errors.{unexpected}
use entra_shift.Db.Sessions.{
  SessionRecord, get_session, create_session, delete_session, delete_expired_sessions,
}
use entra_shift.App.{World, App, Vars, pure, gets, or_throw, ◌>>=◌, ◌>>◌}
use entra_shift.App.Actions.{now_iso, opaque_token, write}

abbrev pub max_ttl_seconds : ℕ
max_ttl_seconds = 28800

-- A configured time of 0 or none at all means the ceiling, and so does one beyond it.
unfoldable pub ttl_seconds : Vars → Number
ttl_seconds vars = elim (parse_number vars.session_ttl_seconds) [
  | none ↦ whole max_ttl_seconds
  | some n ↦
      if n.numer == 0
      then whole max_ttl_seconds
      else if ltb (max_ttl_seconds * n.denom) n.numer
      then whole max_ttl_seconds
      else n
]

-- `isoInSeconds`; a part of a millisecond is dropped.
abbrev pub iso_in_seconds : Number → Instant → Instant
iso_in_seconds n now = now + n.numer * 1000 / n.denom

pub record NewSession : Type 0 where
  pub raw_token : Text
  pub csrf_token : Text
  pub expires_at : Instant

pub record Identity : Type 0 where
  pub upn : Text
  pub oid : Text
  pub display_name : Option Text
  pub group_ok : Bool

abbrev pub new_record : Identity → Text → Text → Instant → Instant → SessionRecord
new_record identity id csrf created expires = record {
  id = id;
  actor_upn = identity.upn;
  actor_oid = identity.oid;
  display_name = identity.display_name;
  group_ok = identity.group_ok;
  csrf_token = csrf;
  created_at = created;
  expires_at = expires;
}

-- `createSession`, the clean-up of expired rows included.
unfoldable pub open_session : Identity → App NewSession
open_session identity = do
  raw ← opaque_token
  id ← gets (λ w. w.runtime.sha256_hex raw)
  csrf ← opaque_token
  created ← now_iso
  expires ← gets (λ w. iso_in_seconds (ttl_seconds w.vars) w.now)
  made ← gets (λ w. create_session (new_record identity id csrf created expires) w.db.sessions)
  sessions ← or_throw made (unexpected (units "constraint failed"))
  write (λ db. record db { sessions = delete_expired_sessions created sessions })
  pure (record { raw_token = raw; csrf_token = csrf; expires_at = expires })

-- `resolveSession` behind the test for a missing token.
unfoldable pub resolve_token : Text → App (Option SessionRecord)
resolve_token raw = do
  id ← gets (λ w. w.runtime.sha256_hex raw)
  found ← gets (λ w. get_session id w.db.sessions)
  now ← now_iso
  elim found [
    | none ↦ pure none
    | some s ↦
        if leb s.expires_at now
        then write (λ db. record db { sessions = delete_session id db.sessions }) >> pure none
        else pure (some s)
  ]

-- `resolveSession`: a missing or empty cookie resolves to none.
unfoldable pub resolve_session : Option Text → App (Option SessionRecord)
resolve_session none = pure none
resolve_session (some raw) = if is_empty raw then pure none else resolve_token raw

-- `destroySession`.
unfoldable pub destroy_session : Option Text → App (Unit {0})
destroy_session none = pure tt
destroy_session (some raw) = if is_empty raw then pure tt else (do
  id ← gets (λ w. w.runtime.sha256_hex raw)
  write (λ db. record db { sessions = delete_session id db.sessions }))
