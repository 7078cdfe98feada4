-- ===== src/Web/Client/Depth.antt =====
-- How deep `request` of web/src/lib/api.ts calls itself.
use entra_shift.Common.{
  ℕ, suc, Bool, true, false, Option, none, some, Text, ◌≡◌, refl, ap, arith, if◌then◌else◌, ◌==◌,
}
use mathlib.Core.Path.{ap₂, fun_ext}
use entra_shift.Graph.{is_ok}
use entra_shift.Web.Page.{
  Method, is_unsafe, get, Response, Browser, Client, pure, modify, ◌>>=◌, ◌>>◌,
}
use entra_shift.Web.Client.{
  quietly, send, is_stale, parsed, error_of, refuse, read, handle, lacks, remember, request,
  me_path,
}

if_same :
    {A : Type 0} {x x' : A} (y : A) (c : Bool)
    → (c ≡ true → x ≡ x')
    → (if c then x else y) ≡ (if c then x' else y)
if_same y true same = same refl
if_same y false same = refl

module _ (b : Browser) where
  handle_same :
      (refresh refresh' : Client (Unit {0})) (retry retry' : Client (Option b.Json))
      (is_retry : Bool) (method : Method) (path : Text) (res : Response)
      → (is_retry ≡ false → is_unsafe method ≡ true → (refresh ≡ refresh') × (retry ≡ retry'))
      → handle b refresh retry is_retry method path res
        ≡ handle b refresh' retry' is_retry method path res
  handle_same refresh refresh' retry retry' is_retry method path res same =
      ap (λ m. if res.status == 204 then pure none else m) (go res.text)
    where
      again : Client (Unit {0}) → Client (Option b.Json) → Client (Option b.Json)
      again x y = modify (λ p. record p { csrf_token = none }) >> (x >> y)

      go :
          (o : Option Text)
          → read b refresh retry is_retry method path res o
            ≡ read b refresh' retry' is_retry method path res o
      go none = refl
      go (some text) =
          ap (λ m. if is_ok res.status then pure (parsed b text) else m)
            (if_same (refuse b path (error_of b res (parsed b text)))
              (is_stale b is_retry method (error_of b res (parsed b text)))
              (λ e. let s = same (ground arith) (ground arith) in ap₂ again s.0 s.1))

  abbrev refresh_at : ℕ → Client (Unit {0})
  refresh_at n = quietly (remember b (request b n false get me_path none))

  -- One level, where the calls below are the same if there are any.
  request_same :
      (n m : ℕ) (is_retry : Bool) (method : Method) (path : Text) (body : Option Text)
      → (is_retry ≡ false
          → is_unsafe method ≡ true
          → (refresh_at n ≡ refresh_at m)
            × (request b n true method path body ≡ request b m true method path body))
      → request b (suc n) is_retry method path body ≡ request b (suc m) is_retry method path body
  unfolding request
  request_same n m is_retry method path body same =
      ap₂ both
        (fun_ext (λ p.
          ap (λ act. act p)
            (if_same (pure tt) (lacks b is_retry method p)
              (λ e. (same (ground arith) (ground arith)).0))))
        (fun_ext (λ res. handle_same _ _ _ _ is_retry method path res same))
    where
      both : Client (Unit {0}) → (Response → Client (Option b.Json)) → Client (Option b.Json)
      both first then' = first >> (send b method path body >>= then')

  -- More fuel than two levels changes nothing: a token that is missing or stale is asked for by a
  -- call that asks for none, and the retry is never tried again.
  pub request-depth :
      (n : ℕ) (is_retry : Bool) (method : Method) (path : Text) (body : Option Text)
      → request b (suc (suc n)) is_retry method path body ≡ request b 2 is_retry method path body
  request-depth n is_retry method path body =
      request_same (suc n) 1 is_retry method path body (λ r m. (
        ap (λ me. quietly (remember b me)) (request_same n 0 false get me_path none (λ r' m'. cc)),
        request_same n 0 true method path body (λ r' m'. cc),
      ))
