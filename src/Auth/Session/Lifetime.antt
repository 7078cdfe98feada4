-- ===== src/Auth/Session/Lifetime.antt =====
-- How long the sessions of worker/src/auth/session.ts live.
use entra_shift.Common.{
  ◌+◌, ◌*◌, ◌/◌, ◌≤◌, ◌≡◌, refl, ◌∙◌, false, List, ◌∷◌, Option, none, some, arith, Text,
  text_eq_refl, select, is_empty, inl, inr, Bool-cases, Option-cases, find, leb, ltb, if◌then◌else◌,
  ◌==◌,
}
use entra_shift.Contracts.{Instant}
use entra_shift.Db.Sessions.{SessionRecord, get_session, delete_expired_sessions, create_session}
use entra_shift.Numbers.{Number, parse_number}
use entra_shift.App.{World, Vars, ok, ◌>>=◌}
use native.Mathlib.Nat.{div-le_of_le-mul}
use entra_shift.App.Triple.{After}
use entra_shift.Auth.Session.{
  Identity, NewSession, open_session, resolve_token, resolve_session, ttl_seconds, iso_in_seconds,
  max_ttl_seconds, new_record,
}

abbrev stored : Text → World → Option SessionRecord
stored raw w = get_session (w.runtime.sha256_hex raw) w.db.sessions

-- What a token stands for: the row under its hash, if its time is not over.
abbrev pub live : Text → World → Option SessionRecord
live raw w = elim (stored raw w) [
  | none ↦ none
  | some s ↦ if leb s.expires_at w.now then none else some s
]

pub resolve_token-live : (raw : Text) (w : World) → (resolve_token raw w).0 ≡ ok (live raw w)
unfolding resolve_token ◌>>=◌
resolve_token-live raw w = elim (Option-cases (stored raw w)) [
  | inl missing ↦ rw (missing, live)
  | inr (s, found) ↦ elim (Bool-cases (leb s.expires_at w.now)) [
    | inl over ↦ rw (found, over, live)
    | inr good ↦ rw (found, good, live)
  ]
]

ttl_seconds-le :
    (vars : Vars) → (ttl_seconds vars).numer ≤ max_ttl_seconds * (ttl_seconds vars).denom
unfolding ttl_seconds
ttl_seconds-le vars = elim (Option-cases (parse_number vars.session_ttl_seconds)) [
  | inl unread ↦ rw (unread, ttl_seconds) (omega arith)
  | inr (n, e) ↦ elim (Bool-cases (n.numer == 0)) [
    | inl zero ↦ rw (e, zero, ttl_seconds) (omega arith)
    | inr set ↦ elim (Bool-cases (ltb (max_ttl_seconds * n.denom) n.numer)) [
      | inl big ↦ rw (e, set, big, ttl_seconds) (omega arith)
      | inr small ↦ rw (e, set, small, ttl_seconds) (ground arith)
    ]
  ]
]

-- What opening a session leaves behind.
record IsOpened (identity : Identity) (w : World) (new : NewSession) (w' : World) : Type 0 where
  ceiling : new.expires_at ≤ w.now + max_ttl_seconds * 1000
  row :
      stored new.raw_token w'
      ≡ some (
          new_record identity
            (w.runtime.sha256_hex new.raw_token)
            new.csrf_token
            w.now
            new.expires_at)

iso_in_seconds-le :
    (n : Number) (now : Instant)
    → n.numer ≤ max_ttl_seconds * n.denom
    → iso_in_seconds n now ≤ now + max_ttl_seconds * 1000
iso_in_seconds-le n now h =
    let part : n.numer * 1000 / n.denom ≤ max_ttl_seconds * 1000 =
      div-le_of_le-mul n.denom (omega arith) in
    omega arith

fresh_row :
    (s : SessionRecord) (sessions : List SessionRecord) (now : Instant) {rows : List SessionRecord}
    → create_session s sessions ≡ some rows
    → ltb s.expires_at now ≡ false
    → get_session s.id (delete_expired_sessions now rows) ≡ some s
unfolding create_session
fresh_row s sessions now {rows} made alive =
    let added : rows ≡ s ∷ sessions = ground arith in
    rw (added, alive, select, text_eq_refl s.id, find)

open_session-IsOpened :
    (identity : Identity) (w : World)
    → let (r, w') = open_session identity w in
      After (λ _. Unit) (λ new w'. IsOpened identity w new w') r w'
unfolding open_session ◌>>=◌
open_session-IsOpened identity w = elim (Option-cases (create_session row w.db.sessions)) [
  | inl taken ↦ rw (taken, After) tt
  | inr (rows, made) ↦
      rw (made, After)
        (record {
          ceiling = iso_in_seconds-le (ttl_seconds w.vars) w.now (ttl_seconds-le w.vars);
          row = fresh_row row w.db.sessions w.now made (ground arith);
        })
]
  where
    row : SessionRecord
    row =
        new_record identity (w.runtime.sha256_hex (w.runtime.token w.draws))
          (w.runtime.token (w.draws + 1)) w.now (iso_in_seconds (ttl_seconds w.vars) w.now)

-- A session that has just been opened is found by its token until its time is over, which is at
-- most eight hours later, whatever the setting; an empty token is ruled out.
pub open_session-live :
    (identity : Identity) (w w' : World) (new : NewSession)
    → open_session identity w ≡ (ok new, w')
    → is_empty new.raw_token ≡ false
    → (later : Instant)
    → let row =
        new_record identity
          (w.runtime.sha256_hex new.raw_token)
          new.csrf_token
          w.now
          new.expires_at in
      (new.expires_at ≤ w.now + max_ttl_seconds * 1000)
      × ((resolve_session (some new.raw_token) (record w' { now = later })).0
          ≡ ok (if leb new.expires_at later then none else some row))
unfolding resolve_session ◌>>=◌
open_session-live identity w w' new e filled later =
    let o : IsOpened identity w new w' = rw e at (open_session-IsOpened identity w) in
    (
      o.ceiling,
      rw (filled, resolve_session)
          (resolve_token-live new.raw_token (record w' { now = later }) ∙ rw (o.row, live)),
    )

-- Without a token, or with an empty one, there is no session.
abbrev pub live_cookie : Option Text → World → Option SessionRecord
live_cookie none w = none
live_cookie (some raw) w = if is_empty raw then none else live raw w

pub resolve_session-live :
    (cookie : Option Text) (w : World) → (resolve_session cookie w).0 ≡ ok (live_cookie cookie w)
unfolding resolve_session ◌>>=◌
resolve_session-live none w = refl
resolve_session-live (some raw) w = elim (Bool-cases (is_empty raw)) [
  | inl blank ↦ rw blank refl
  | inr filled ↦ rw filled (resolve_token-live raw w)
]

resolve_token-runtime : (raw : Text) (w : World) → (resolve_token raw w).1.runtime ≡ w.runtime
unfolding resolve_token ◌>>=◌
resolve_token-runtime raw w = elim (Option-cases (stored raw w)) [
  | inl missing ↦ rw missing refl
  | inr (s, found) ↦ elim (Bool-cases (leb s.expires_at w.now)) [
    | inl over ↦ rw (found, over) refl
    | inr good ↦ rw (found, good) refl
  ]
]

pub resolve_session-runtime :
    (cookie : Option Text) (w : World) → (resolve_session cookie w).1.runtime ≡ w.runtime
unfolding resolve_session ◌>>=◌
resolve_session-runtime none w = refl
resolve_session-runtime (some raw) w = elim (Bool-cases (is_empty raw)) [
  | inl blank ↦ rw blank refl
  | inr filled ↦ rw filled (resolve_token-runtime raw w)
]
