-- ===== src/Web/Client/Announces.antt =====
-- When `request` of web/src/lib/api.ts announces that the session has ended.
use entra_shift.Common.{
  ℕ, zero, suc, ◌+◌, Bool, true, false, not, ◌&&◌, Option, none, Text, units, text_eq, starts_with,
  ◌≡◌, refl, arith, if◌then◌else◌,
}
use entra_shift.Web.Page.{
  ApiError, Method, get, Fetched, aborted, unreachable, answered, Browser, Page, Ending, raised,
  abort, broken, out_of_fuel, Outcome, returned, ended, Client,
}
use entra_shift.Web.Client.{
  quietly, send, reached, is_sign_out, refused, remember, request, me_path, message,
}
use entra_shift.Web.Client.Rules.{
  After, Triple, bind-Triple, pure-Triple, modify-Triple, quietly-Triple, handle-Triple,
  lacks-Triple,
}

-- An ending that signs the page out is an `ApiError` `unauthorized`, unless `/api/me` raised it.
abbrev pub marks : Browser → Text → Ending → ℕ
marks b path (raised e) = if is_sign_out b path e then 1 else 0
marks b path _ = 0

abbrev pub marked : {A : Type 0} → Browser → Text → Outcome A → ℕ
marked b path (returned a) = 0
marked b path (ended x) = marks b path x

module _ (b : Browser) (n : ℕ) where
  abbrev Still : Page → Type 0
  Still p = p.announced ≡ n

  abbrev Marked : Text → Ending → Page → Type 0
  Marked path x p = p.announced ≡ n + marks b path x

  abbrev Announces : {A : Type 0} → Text → Client A → Type 0
  Announces path m = Triple (Marked path) Still m (λ _. Still)

  send-Announces :
      (method : Method) (path : Text) (body : Option Text)
      → Announces path (send b method path body)
  unfolding send text_eq units
  send-Announces method path body = record {
    at = λ p h. go (b.fetch p.sent (message b method path body p)) _ h;
  }
    where
      go : (f : Fetched) (p : Page) → Still p → After (Marked path) (λ _. Still) (reached f) p
      go aborted p h = omega (arith, h)
      go unreachable p h = omega (arith, h)
      go (answered res) p h = h

  -- `getMe` announces nothing.
  marks-me : (x : Ending) → marks b me_path x ≡ 0
  unfolding units
  marks-me (raised e) = safe (text_eq e.code (units "unauthorized"))
    where
      safe : (c : Bool) → ◌≡◌ {A = ℕ} (if c && not (starts_with me_path me_path) then 1 else 0) 0
      safe true = refl
      safe false = refl
  marks-me abort = refl
  marks-me broken = refl
  marks-me out_of_fuel = refl

  raised_marks :
      (path : Text) (e : ApiError) (p : Page)
      → Still p
      → Marked path (raised e) (refused b path e p)
  raised_marks path e p h = go (is_sign_out b path e)
    where
      go : (c : Bool) → (if c then suc p.announced else p.announced) ≡ n + (if c then 1 else 0)
      go true = omega (arith, h)
      go false = omega (arith, h)

  refresh-Announces :
      {m : Client (Option b.Json)} (path : Text)
      → Announces me_path m
      → Announces path (quietly (remember b m))
  refresh-Announces path t =
      quietly-Triple {F = Marked me_path} {Q = λ _. Still}
        (bind-Triple (λ _. Still) t
          (λ me.
            bind-Triple (λ _. Still) (modify-Triple _ (λ p h. h)) (λ _. pure-Triple me (λ p h. h))))
        (λ a p h. h) (λ x p d h. omega (arith, h, marks-me x)) (λ p h. h)

  request-Announces :
      (fuel : ℕ) (is_retry : Bool) (method : Method) (path : Text) (body : Option Text)
      → Announces path (request b fuel is_retry method path body)
  unfolding request
  request-Announces zero is_retry method path body = record { at = λ p h. omega (arith, h) }
  request-Announces (suc fuel) is_retry method path body =
      bind-Triple (λ _. Still)
        (lacks-Triple b _ is_retry method (λ p h. h)
          (λ r u. refresh-Announces path (request-Announces fuel false get me_path none)))
        (λ _.
          bind-Triple (λ _. Still) (send-Announces method path body)
            (λ res.
              handle-Triple b _ _ is_retry method path res (λ j p h. h) (λ p h. omega (arith, h))
                (λ e p h. raised_marks path e p h)
                (λ e s.
                  bind-Triple (λ _. Still) (modify-Triple _ (λ p h. h))
                    (λ _.
                      bind-Triple (λ _. Still)
                        (refresh-Announces path (request-Announces fuel false get me_path none))
                        (λ _. request-Announces fuel true method path body)))))

-- Every `request` ends in one way only that signs the page out, and announces just that one: an
-- error `unauthorized` that it raises, for a path other than `/api/me`.
pub request-announces :
    (b : Browser) (fuel : ℕ) (is_retry : Bool) (method : Method) (path : Text) (body : Option Text)
    (p : Page)
    → let (o, q) = request b fuel is_retry method path body p in
      q.announced ≡ p.announced + marked b path o
request-announces b fuel is_retry method path body p =
    let r = request b fuel is_retry method path body p in
    go r.0 r.1 ((request-Announces b p.announced fuel is_retry method path body).at p refl)
  where
    go :
        (o : Outcome (Option b.Json)) (q : Page)
        → After (Marked b p.announced path) (λ _. Still b p.announced) o q
        → q.announced ≡ p.announced + marked b path o
    go (returned a) q h = omega (arith, h)
    go (ended x) q h = h
