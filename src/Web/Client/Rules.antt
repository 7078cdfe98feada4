-- ===== src/Web/Client/Rules.antt =====
-- Rules for the actions of web/src/lib/api.ts, one for each way to build one: a condition on the page
-- before, one on what is returned and the page after, and one for a call that returns nothing.
use entra_shift.Common.{
  Bool, true, false, Option, none, some, ◌≡◌, refl, arith, if◌then◌else◌, ◌==◌, ◌≢◌, Text,
}
use mathlib.Core.Path.{subst}
use entra_shift.Graph.{is_ok}
use entra_shift.Web.Page.{
  ApiError, Method, Response, Browser, Page, Ending, raised, abort, broken, out_of_fuel, Outcome,
  returned, ended, Client, continue, pure, modify, only_if, is_unsafe, ◌>>=◌, ◌>>◌,
}
use entra_shift.Web.Client.{
  swallow, quietly, parsed, error_of, is_stale, refuse, refused, read, handle, lacks,
}

abbrev pub After :
    {A : Type 0} → (Ending → Page → Type 0) → (A → Page → Type 0) → Outcome A → Page → Type 0
After E Q (returned a) p = Q a p
After E Q (ended x) p = E x p

pub record Triple {A : Type 0} (E : Ending → Page → Type 0) (P : Page → Type 0) (m : Client A)
    (Q : A → Page → Type 0) : Type 0 where
  pub at : (p : Page) → P p → After E Q (m p).0 (m p).1

module _ {E : Ending → Page → Type 0} {P : Page → Type 0} where
  pub bind-Triple :
      {A B : Type 0} (Q : A → Page → Type 0) {R : B → Page → Type 0} {m : Client A}
      {f : A → Client B}
      → Triple E P m Q
      → ((a : A) → Triple E (Q a) (f a) R)
      → Triple E P (m >>= f) R
  unfolding ◌>>=◌
  bind-Triple {A} {B} Q {R} {m} {f} t k = record { at = λ p h. go (m p).0 (m p).1 (t.at p h) }
    where
      go :
          (o : Outcome A) (p : Page)
          → After E Q o p
          → After E R (continue o f p).0 (continue o f p).1
      go (returned a) p h = (k a).at p h
      go (ended x) p h = h

  pub pure-Triple :
      {A : Type 0} {Q : A → Page → Type 0} (a : A)
      → ((p : Page) → P p → Q a p)
      → Triple E P (pure a) Q
  unfolding pure
  pure-Triple a h = record { at = h }

  pub modify-Triple :
      {Q : Unit {0} → Page → Type 0} (f : Page → Page)
      → ((p : Page) → P p → Q tt (f p))
      → Triple E P (modify f) Q
  modify-Triple f h = record { at = h }

  pub if_Triple :
      {A : Type 0} {Q : A → Page → Type 0} {m n : Client A} (c : Bool)
      → (c ≡ true → Triple E P m Q)
      → (c ≡ false → Triple E P n Q)
      → Triple E P (if c then m else n) Q
  if_Triple true on off = on refl
  if_Triple false on off = off refl

  -- What `catch` passes over leaves the page as the condition `R` says.
  pub quietly-Triple :
      {A : Type 0} {F : Ending → Page → Type 0} {Q : A → Page → Type 0} {R : Page → Type 0}
      {m : Client A}
      → Triple F P m Q
      → ((a : A) (p : Page) → Q a p → R p)
      → ((x : Ending) (p : Page) → x ≢ out_of_fuel → F x p → R p)
      → ((p : Page) → F out_of_fuel p → E out_of_fuel p)
      → Triple E P (quietly m) (λ _. R)
  quietly-Triple {A} {F} {Q} {R} {m} t on caught out = record {
    at = λ p h. go (m p).0 (m p).1 (t.at p h);
  }
    where
      go :
          (o : Outcome A) (p : Page)
          → After F Q o p
          → After E (λ _. R) (swallow o p).0 (swallow o p).1
      go (returned a) p h = on a p h
      go (ended (raised e)) p h = caught (raised e) p (λ d. cc) h
      go (ended abort) p h = caught abort p (λ d. cc) h
      go (ended broken) p h = caught broken p (λ d. cc) h
      go (ended out_of_fuel) p h = out p h

  module _ (b : Browser) where
    -- A missing token is asked for only before an unsafe call that is no retry.
    pub lacks-Triple :
        {R : Page → Type 0} (refresh : Client (Unit {0})) (is_retry : Bool) (method : Method)
        → ((p : Page) → P p → R p)
        → (is_retry ≡ false → is_unsafe method ≡ true → Triple E P refresh (λ _. R))
        → Triple E P (λ p. only_if (lacks b is_retry method p) refresh p) (λ _. R)
    unfolding pure
    lacks-Triple {R} refresh is_retry method skip k = record {
      at = λ p h. go p h (lacks b is_retry method p) refl;
    }
      where
        go :
            (p : Page)
            → P p
            → (c : Bool) → lacks b is_retry method p ≡ c
            → After E (λ _. R) (only_if c refresh p).0 (only_if c refresh p).1
        go p h true e = (k (ground arith) (ground arith)).at p h
        go p h false e = skip p h

    -- The ways out of an answer.
    pub handle-Triple :
        {Q : Option b.Json → Page → Type 0} (refresh : Client (Unit {0}))
        (retry : Client (Option b.Json)) (is_retry : Bool) (method : Method) (path : Text)
        (res : Response)
        → ((j : Option b.Json) (p : Page) → P p → Q j p)
        → ((p : Page) → P p → E broken p)
        → ((e : ApiError) (p : Page) → P p → E (raised e) (refused b path e p))
        → ((e : ApiError)
            → is_stale b is_retry method e ≡ true
            → Triple E P (modify (λ p. record p { csrf_token = none }) >> (refresh >> retry)) Q)
        → Triple E P (handle b refresh retry is_retry method path res) Q
    unfolding refuse
    handle-Triple {Q} refresh retry is_retry method path res fine cut refused' stale =
        if_Triple (res.status == 204) (λ _. pure-Triple none (fine none)) (λ _. go res.text)
      where
        go : (o : Option Text) → Triple E P (read b refresh retry is_retry method path res o) Q
        go none = record { at = cut }
        go (some text) =
            if_Triple (is_ok res.status) (λ _. pure-Triple (parsed b text) (fine _))
              (λ _.
                if_Triple (is_stale b is_retry method (error_of b res (parsed b text)))
                  (stale (error_of b res (parsed b text)))
                  (λ _. record { at = refused' (error_of b res (parsed b text)) }))

pub After-ended :
    {A : Type 0} (E : Ending → Page → Type 0) (Q : A → Page → Type 0) (o : Outcome A) (p : Page)
    {x : Ending}
    → After E Q o p
    → o ≡ ended x
    → E x p
After-ended E Q (returned a) p h e = cc
After-ended E Q (ended y) p {x} h e = let same : y ≡ x = cc in subst (λ z. E z p) same h

pub After-same :
    {A : Type 0} (R : Page → Type 0) (o : Outcome A) (p : Page) → After (λ _. R) (λ _. R) o p → R p
After-same R (returned a) p h = h
After-same R (ended x) p h = h
