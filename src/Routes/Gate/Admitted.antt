-- ===== src/Routes/Gate/Admitted.antt =====
-- Whom the guards of worker/src/routes/index.ts let through to a handler.
use mathlib.Core.Path.{subst}
use entra_shift.Common.{
  ◌≡◌, refl, sym, ◌∙◌, ◌⊎◌, inl, inr, Bool, true, false, ◌&&◌, ◌||◌, Option, none, some, Text,
  text_eq_iff, units, starts_with, leb, Bool-cases,
}
use entra_shift.Db.Sessions.{SessionRecord}
use entra_shift.Budget.{is_hard_exhausted}
use entra_shift.App.{World, App, Result, modify, ok, err, pure, ◌>>=◌}
use entra_shift.App.Triple.{
  Triple, After, After-ok, pure-Triple, bind-Triple, throw_if-Triple, throw_keep, if_Triple,
  option_Triple, then_Triple, gets_keep, modify-Triple, or_throw_then, throw_if_keep, gets_same,
}
use entra_shift.Auth.Jwt.{Verifier}
use entra_shift.Auth.Access.Caller.{IsCaller, require-Triple}
use entra_shift.Auth.Session.{resolve_token, resolve_session}
use entra_shift.Auth.Session.Lifetime.{live_cookie}
use entra_shift.Middleware.BudgetGuard.{is_write, budget_guard}
use entra_shift.Middleware.Session.{admit, require_session}
use entra_shift.Middleware.Session.Guard.{verdict, require_session-verdict}
use entra_shift.Middleware.RateLimit.{Buckets, Answer, pass, retry_after, rate_limit}
use entra_shift.Routes.Gate.{
  Incoming, Caller, browser, engine, anyone, is_vm_path, is_exempt, session_key, admit_browser,
  admit_engine, limited,
}
use entra_shift.Routes.Gate

-- The budget has room for what the request may do.
abbrev pub IsAffordable : Incoming → World → Type 0
IsAffordable req w =
    (is_write (w.runtime.to_upper req.method) && is_hard_exhausted w.now w.db) ≡ false

-- The session is live, of a member, and a write repeats its token; the limiter passes it; the budget
-- has room.
pub record IsBrowser (req : Incoming) (buckets : Buckets) (w : World) (s : SessionRecord)
    : Type 0 where
  pub good :
      verdict (is_write (w.runtime.to_upper req.method)) req.csrf_token (live_cookie req.cookie w)
      ≡ ok s
  pub within_rate : (rate_limit (session_key s req) w.now buckets).0 ≡ pass
  pub affordable : IsAffordable req w

abbrev pub IsAdmitted : Verifier → Incoming → Buckets → World → Caller → Type 0
IsAdmitted v req buckets w (browser s) = IsBrowser req buckets w s
IsAdmitted v req buckets w (engine subject) =
    IsCaller v req.assertion w subject × IsAffordable req w
IsAdmitted v req buckets w anyone =
    (req.path ≡ units "/api/app-info")
    ⊎ ((starts_with req.path (units "/api/vm") ≡ true) × (is_vm_path req.path ≡ false))

abbrev Any : World → Type 0
Any w = Unit

exemption :
    (path : Text)
    → is_exempt path ≡ true
    → is_vm_path path ≡ false
    → (path ≡ units "/api/app-info")
      ⊎ ((starts_with path (units "/api/vm") ≡ true) × (is_vm_path path ≡ false))
exemption path e other = elim (Bool-cases (starts_with path (units "/api/vm"))) [
  | inl vm ↦ inr (vm, other)
  | inr plain ↦ inl ((text_eq_iff path (units "/api/app-info")).0 (second _ _ plain e))
]
  where
    second : (a b : Bool) → a ≡ false → (a || b) ≡ true → b ≡ true
    second true b e f = cc
    second false b e f = f

-- Nothing is claimed of a world that a throw leaves.
unerring :
    {A : Type 0} {E P : World → Type 0} {m : App A} {Q : A → World → Type 0}
    → Triple E P m Q
    → Triple Any P m Q
unerring {A} {E} {m} {Q} t = record { at = λ w h. go (m w).0 (m w).1 (t.at w h) }
  where
    go : (r : Result A) (w : World) → After E Q r w → After Any Q r w
    go (ok a) w h = h
    go (err e) w h = tt

module _ (old : World) where
  abbrev Same : World → Type 0
  Same w = w ≡ old

  -- What does not depend on the world is known from there on.
  on :
      {A F : Type 0} {m : App A} {R : A → World → Type 0}
      → (F → Triple Any Same m R)
      → Triple Any (λ w. Same w × F) m R
  on k = record { at = λ w h. (k h.1).at w h.0 }

  -- A cookie that stands for a session changes nothing.
  abbrev Found : Option SessionRecord → World → Type 0
  Found none w = Unit
  Found (some s) w = Same w

  forgotten :
      (f : World → World)
      → Triple Any Same (modify f >>= λ _. pure {A = Option SessionRecord} none) Found
  forgotten f =
      bind-Triple (λ _. Any) (modify-Triple f (λ w h. tt)) (λ _. pure-Triple none (λ w h. tt))

  resolve_token-Found : (raw : Text) → Triple Any Same (resolve_token raw) Found
  unfolding resolve_token
  resolve_token-Found raw = then_Triple (gets_keep _) (λ id. then_Triple (gets_keep _) (λ found.
      then_Triple (gets_keep _) (λ now.
        option_Triple found (λ _. pure-Triple none (λ w h. tt))
          (λ s _.
            if_Triple (leb s.expires_at now) (λ _. forgotten _)
              (λ _. pure-Triple (some s) (λ w h. h))))))

  resolve_session-Found : (cookie : Option Text) → Triple Any Same (resolve_session cookie) Found
  unfolding resolve_session
  resolve_session-Found none = pure-Triple none (λ w h. tt)
  resolve_session-Found (some raw) =
      if_Triple _ (λ _. pure-Triple none (λ w h. tt)) (λ _. resolve_token-Found raw)

  admit-Same :
      (method : Text) (header : Option Text) (found : Option SessionRecord)
      → Triple Any (Found found) (admit method header found) (λ _. Same)
  unfolding admit
  admit-Same method header none = or_throw_then none _ (λ w h. tt) (λ s e. cc)
  admit-Same method header (some s) =
      or_throw_then (some s) _ (λ w h. tt)
        (λ s' e. then_Triple (throw_if_keep _ _ (λ w h. tt)) (λ _.
          then_Triple (gets_keep _) (λ upper.
            then_Triple (throw_if_keep _ _ (λ w h. tt)) (λ _. pure-Triple s' (λ w h. h)))))

  require_session-Same :
      (cookie : Option Text) (method : Text) (header : Option Text)
      → Triple Any Same (require_session cookie method header) (λ _. Same)
  unfolding require_session
  require_session-Same cookie method header =
      bind-Triple Found (resolve_session-Found cookie) (λ found. admit-Same method header found)

  budget_guard-Affordable :
      (req : Incoming)
      → Triple Any Same (budget_guard req.method) (λ _ w. Same w × IsAffordable req old)
  unfolding budget_guard
  budget_guard-Affordable req =
      gets_same old _ _ (throw_if-Triple _ _ (λ w h. tt) (λ w e h. (h, e)))

  limited-Triple :
      (req : Incoming) (s : SessionRecord) (a : Answer)
      → Triple Any Same (limited a) (λ _ w. Same w × (a ≡ pass))
  limited-Triple req s pass = pure-Triple tt (λ w h. (h, refl))
  limited-Triple req s (retry_after n) = throw_keep _ (λ w h. tt)

  -- What the guard of sessions has established.
  abbrev Good : Incoming → SessionRecord → Type 0
  Good req s =
      verdict (is_write (old.runtime.to_upper req.method)) req.csrf_token
        (live_cookie req.cookie old)
      ≡ ok s

  require_session-Good :
      (req : Incoming)
      → Triple Any Same
          (require_session req.cookie req.method req.csrf_token)
          (λ s w. Same w × Good req s)
  require_session-Good req = record {
    at = λ w h.
        subst (λ x. After Any Post (guarded x).0 (guarded x).1) (sym h)
          (known (guarded old).0 (guarded old).1 refl
            ((require_session-Same req.cookie req.method req.csrf_token).at old refl));
  }
    where
      guarded : App SessionRecord
      guarded = require_session req.cookie req.method req.csrf_token

      Post : SessionRecord → World → Type 0
      Post s w = Same w × Good req s

      known :
          (r : Result SessionRecord) (w : World)
          → (guarded old).0 ≡ r
          → After Any (λ _. Same) r w
          → After Any Post r w
      known (ok s) w e h =
          (h, sym (require_session-verdict req.cookie req.method req.csrf_token old) ∙ e)
      known (err x) w e h = tt

  admit_browser-IsBrowser :
      (req : Incoming) (buckets : Buckets)
      → Triple Any Same (admit_browser req buckets) (λ s _. IsBrowser req buckets old s)
  unfolding admit_browser
  admit_browser-IsBrowser req buckets = bind-Triple _ (require_session-Good req) (λ session.
      on (λ good. gets_same old _ _ (
        bind-Triple _ (limited-Triple req session _) (λ _. on (λ within.
          bind-Triple _ (budget_guard-Affordable req) (λ _. on (λ room.
            pure-Triple session
              (λ w h. record { good = good; within_rate = within; affordable = room }))))))))

  admit_engine-IsCaller :
      (v : Verifier) (req : Incoming)
      → Triple Any Same
          (admit_engine v req)
          (λ subject _. IsCaller v req.assertion old subject × IsAffordable req old)
  unfolding admit_engine
  admit_engine-IsCaller v req =
      bind-Triple _ (unerring (require-Triple v req.assertion old)) (λ subject. on (λ called.
        bind-Triple _ (budget_guard-Affordable req)
          (λ _. on (λ room. pure-Triple subject (λ w h. (called, room))))))

  admit-IsAdmitted :
      (v : Verifier) (req : Incoming) (buckets : Buckets)
      → Triple Any Same (Gate.admit v req buckets) (λ caller _. IsAdmitted v req buckets old caller)
  unfolding Gate.admit
  admit-IsAdmitted v req buckets =
      if_Triple (is_vm_path req.path)
        (λ _.
          bind-Triple _ (admit_engine-IsCaller v req)
            (λ subject. pure-Triple (engine subject) (λ w h. h)))
        (λ other.
          if_Triple (is_exempt req.path)
            (λ exempt. pure-Triple anyone (λ w h. exemption req.path exempt other))
            (λ _.
              bind-Triple _ (admit_browser-IsBrowser req buckets)
                (λ session. pure-Triple (browser session) (λ w h. h))))

-- A handler behind the guards runs for a browser only if its session is live and of a member of the
-- group, a request that changes state repeats the session's CSRF token, the limiter has let it pass,
-- and, if it changes state, no daily cap is reached; for the engine only if its token is trusted,
-- with the same condition on the cap. Without any of this only `/api/app-info` passes, and paths
-- that begin with `/api/vm` and go on with another character than a slash.
pub admit-caller :
    (v : Verifier) (req : Incoming) (buckets : Buckets) (w : World) (caller : Caller)
    → (Gate.admit v req buckets w).0 ≡ ok caller
    → IsAdmitted v req buckets w caller
admit-caller v req buckets w caller e =
    let r = Gate.admit v req buckets w in
    After-ok Any (λ c _. IsAdmitted v req buckets w c) r.0 r.1
      ((admit-IsAdmitted w v req buckets).at w refl) e
