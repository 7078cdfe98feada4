-- ===== src/Web/Client/Finishes.antt =====
-- The calls that `request` of web/src/lib/api.ts makes of itself come to an end.
use entra_shift.Common.{ℕ, suc, Bool, true, false, Option, none, Text, ◌≡◌, ◌≢◌, refl, arith}
use entra_shift.Web.Page.{
  Method, get, is_unsafe, Response, Fetched, aborted, unreachable, answered, Browser, Page, Ending,
  out_of_fuel, ended, Client,
}
use entra_shift.Web.Client.{quietly, send, reached, handle, remember, request, me_path, message}
use entra_shift.Web.Client.Rules.{
  After, Triple, bind-Triple, pure-Triple, modify-Triple, quietly-Triple, handle-Triple,
  lacks-Triple, After-ended,
}

abbrev Ends : Ending → Page → Type 0
Ends x p = x ≢ out_of_fuel

abbrev Always : Page → Type 0
Always p = Unit

abbrev Finishes : {A : Type 0} → Client A → Type 0
Finishes m = Triple Ends Always m (λ _. Always)

module _ (b : Browser) where
  send-Finishes :
      (method : Method) (path : Text) (body : Option Text) → Finishes (send b method path body)
  unfolding send
  send-Finishes method path body = record {
    at = λ p _. go (b.fetch p.sent (message b method path body p)) _;
  }
    where
      go : (f : Fetched) (p : Page) → After Ends (λ _. Always) (reached f) p
      go aborted p = λ e. cc
      go unreachable p = λ e. cc
      go (answered res) p = tt

  handle-Finishes :
      (refresh : Client (Unit {0})) (retry : Client (Option b.Json)) (is_retry : Bool)
      (method : Method) (path : Text) (res : Response)
      → (is_retry ≡ false → is_unsafe method ≡ true → Finishes refresh × Finishes retry)
      → Finishes (handle b refresh retry is_retry method path res)
  handle-Finishes refresh retry is_retry method path res k =
      handle-Triple b refresh retry is_retry method path res (λ j p _. tt) (λ p _ e. cc)
        (λ e p _ d. cc)
        (λ e stale.
          let parts = k (ground arith) (ground arith) in
          bind-Triple (λ _. Always) (modify-Triple _ (λ p _. tt))
            (λ _. bind-Triple (λ _. Always) parts.0 (λ _. parts.1)))

  abbrev Parts : ℕ → Text → Option Text → Method → Type 0
  Parts n path body method =
      Finishes (quietly (remember b (request b n false get me_path none)))
      × Finishes (request b n true method path body)

  -- One level, where the calls below finish if there are any.
  request-level :
      (n : ℕ) (is_retry : Bool) (method : Method) (path : Text) (body : Option Text)
      → (is_retry ≡ false → is_unsafe method ≡ true → Parts n path body method)
      → Finishes (request b (suc n) is_retry method path body)
  unfolding request
  request-level n is_retry method path body k =
      bind-Triple (λ _. Always) (lacks-Triple b _ is_retry method (λ p _. tt) (λ r m. (k r m).0))
        (λ _.
          bind-Triple (λ _. Always) (send-Finishes method path body)
            (λ res. handle-Finishes _ _ is_retry method path res k))

  -- `getMe`, at any depth.
  me-Finishes : (n : ℕ) → Finishes (quietly (remember b (request b (suc n) false get me_path none)))
  me-Finishes n =
      quietly-Triple {Q = λ _. Always}
        (bind-Triple (λ _. Always) (request-level n false get me_path none (λ r m. cc))
          (λ me.
            bind-Triple (λ _. Always) (modify-Triple _ (λ p _. tt))
              (λ _. pure-Triple me (λ p _. tt))))
        (λ a p _. tt) (λ x p d _. tt) (λ p d. d)

  -- With fuel for two levels of calls, or more, `request` always comes to an end of its own: it
  -- returns, raises an `ApiError`, or ends as the fetch did.
  pub request-finishes :
      (n : ℕ) (is_retry : Bool) (method : Method) (path : Text) (body : Option Text) (p : Page)
      → (request b (suc (suc n)) is_retry method path body p).0 ≢ ended out_of_fuel
  request-finishes n is_retry method path body p e =
      let level =
        request-level (suc n) is_retry method path body
          (λ r m. (me-Finishes n, request-level n true method path body (λ r' m'. cc))) in
      After-ended Ends (λ (_ : Option b.Json). Always) _ _ (level.at p tt) e refl
