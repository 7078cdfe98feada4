-- ===== src/App/Triple.antt =====
-- Rules for handlers, one for each way to build an action: a condition on the world before, one on
-- the result and the world after, and an invariant for the world that a throw leaves.
use entra_shift.Common.{Bool, true, false, if◌then◌else◌, Option, none, some, ◌≡◌, refl, sym}
use mathlib.Core.Path.{subst}
use entra_shift.Errors.{Thrown}
use entra_shift.App.{
  World, Result, ok, err, App, pure, throw, gets, or_throw, act, throw_if, modify, continue,
  recover, try_catch, lift, ◌>>=◌,
}

abbrev pub After :
    {A : Type 0} → (World → Type 0) → (A → World → Type 0) → Result A → World → Type 0
After E Q (ok a) w = Q a w
After E Q (err e) w = E w

pub record Triple {A : Type 0} (E P : World → Type 0) (m : App A) (Q : A → World → Type 0)
    : Type 0 where
  pub at : (w : World) → P w → After E Q (m w).0 (m w).1

-- `m` keeps `P`, whether it returns or throws.
abbrev pub Keeps : {A : Type 0} → (World → Type 0) → App A → Type 0
Keeps P m = Triple P P m (λ _. P)

module _ {E P : World → Type 0} where
  pub pure-Triple :
      {A : Type 0} {Q : A → World → Type 0} (a : A)
      → ((w : World) → P w → Q a w)
      → Triple E P (pure a) Q
  unfolding pure
  pure-Triple a h = record { at = h }

  pub gets-Triple :
      {A : Type 0} {Q : A → World → Type 0} (f : World → A)
      → ((w : World) → P w → Q (f w) w)
      → Triple E P (gets f) Q
  unfolding gets
  gets-Triple f h = record { at = h }

  pub act-Triple :
      {A : Type 0} {Q : A → World → Type 0} (f : World → A × World)
      → ((w : World) → P w → Q (f w).0 (f w).1)
      → Triple E P (act f) Q
  unfolding act
  act-Triple f h = record { at = h }

  pub modify-Triple :
      {Q : Unit {0} → World → Type 0} (f : World → World)
      → ((w : World) → P w → Q tt (f w))
      → Triple E P (modify f) Q
  unfolding modify
  modify-Triple f h = record { at = h }

  pub or_throw-Triple :
      {A : Type 0} {Q : A → World → Type 0} (o : Option A) (e : Thrown)
      → ((w : World) → P w → E w)
      → ((a : A) (w : World) → o ≡ some a → P w → Q a w)
      → Triple E P (or_throw o e) Q
  unfolding or_throw
  or_throw-Triple none e out on = record { at = out }
  or_throw-Triple (some a) e out on = record { at = λ w h. on a w refl h }

  pub throw_if-Triple :
      {Q : Unit {0} → World → Type 0} (c : Bool) (e : Thrown)
      → ((w : World) → P w → E w)
      → ((w : World) → c ≡ false → P w → Q tt w)
      → Triple E P (throw_if c e) Q
  unfolding throw_if
  throw_if-Triple true e out on = record { at = out }
  throw_if-Triple false e out on = record { at = λ w h. on w refl h }

  pub bind-Triple :
      {A B : Type 0} (Q : A → World → Type 0) {R : B → World → Type 0} {m : App A} {f : A → App B}
      → Triple E P m Q
      → ((a : A) → Triple E (Q a) (f a) R)
      → Triple E P (m >>= f) R
  unfolding ◌>>=◌
  bind-Triple {A} {B} Q {R} {m} {f} t k = record { at = λ w h. go (m w).0 (m w).1 (t.at w h) }
    where
      go :
          (r : Result A) (w : World)
          → After E Q r w
          → After E R (continue r f w).0 (continue r f w).1
      go (ok a) w h = (k a).at w h
      go (err e) w h = h

  -- An action that keeps the condition in front of the rest.
  pub then_Triple :
      {A B : Type 0} {R : B → World → Type 0} {m : App A} {f : A → App B}
      → Triple E P m (λ _. P)
      → ((a : A) → Triple E P (f a) R)
      → Triple E P (m >>= f) R
  then_Triple {A} t k = bind-Triple (λ (_ : A). P) t k

  -- The actions that keep the condition.
  pub gets_keep : {A : Type 0} (f : World → A) → Triple E P (gets f) (λ _. P)
  gets_keep f = gets-Triple f (λ w h. h)

  pub act_keep :
      {A : Type 0} (f : World → A × World)
      → ((w : World) → P w → P (f w).1)
      → Triple E P (act f) (λ _. P)
  act_keep f h = act-Triple f h

  pub modify_keep :
      (f : World → World) → ((w : World) → P w → P (f w)) → Triple E P (modify f) (λ _. P)
  modify_keep f h = modify-Triple f h

  pub throw_if_keep :
      (c : Bool) (e : Thrown) → ((w : World) → P w → E w) → Triple E P (throw_if c e) (λ _. P)
  throw_if_keep c e out = throw_if-Triple c e out (λ w _ h. h)

  pub if_Triple :
      {A : Type 0} {Q : A → World → Type 0} {m n : App A} (c : Bool)
      → (c ≡ true → Triple E P m Q)
      → (c ≡ false → Triple E P n Q)
      → Triple E P (if c then m else n) Q
  if_Triple true on off = on refl
  if_Triple false on off = off refl

  pub option_Triple :
      {A B : Type 0} {Q : B → World → Type 0} {m : App B} {f : A → App B} (o : Option A)
      → (o ≡ none → Triple E P m Q)
      → ((a : A) → o ≡ some a → Triple E P (f a) Q)
      → Triple E P (elim o as (λ _. App B) [ none ↦ m | some a ↦ f a ]) Q
  option_Triple none none_case some_case = none_case refl
  option_Triple (some a) none_case some_case = some_case a refl

  pub or_throw_keep :
      {A : Type 0} (o : Option A) (e : Thrown)
      → ((w : World) → P w → E w)
      → Triple E P (or_throw o e) (λ _. P)
  or_throw_keep o e out = or_throw-Triple o e out (λ _ w _ h. h)

  pub throw_keep :
      {A : Type 0} {Q : A → World → Type 0} (e : Thrown)
      → ((w : World) → P w → E w)
      → Triple E P (throw e) Q
  unfolding throw
  throw_keep e out = record { at = out }

  -- Tests in front of the rest, which learns how they came out.
  pub or_throw_then :
      {A B : Type 0} {R : B → World → Type 0} (o : Option A) (e : Thrown) {f : A → App B}
      → ((w : World) → P w → E w)
      → ((a : A) → o ≡ some a → Triple E P (f a) R)
      → Triple E P (or_throw o e >>= f) R
  unfolding ◌>>=◌
  or_throw_then none e out k = record { at = out }
  or_throw_then (some a) e {f} out k = record { at = λ w h. (k a refl).at w h }

  pub throw_if_then :
      {B : Type 0} {R : B → World → Type 0} (c : Bool) (e : Thrown) (f : Unit {0} → App B)
      → ((w : World) → P w → E w)
      → (c ≡ false → Triple E P (f tt) R)
      → Triple E P (throw_if c e >>= f) R
  unfolding ◌>>=◌
  throw_if_then true e f out k = record { at = out }
  throw_if_then false e f out k = record { at = λ w h. (k refl).at w h }

-- Running a handler of errors: what a throw leaves is what the handler starts from.
pub try_Triple :
    {A : Type 0} {E F P : World → Type 0} {Q : A → World → Type 0} {m : App A} {h : Thrown → App A}
    → Triple F P m Q
    → ((e : Thrown) → Triple E F (h e) Q)
    → Triple E P (try_catch m h) Q
unfolding try_catch
try_Triple {A} {E} {F} {Q} {m} {h} t k = record { at = λ w p. go (m w).0 (m w).1 (t.at w p) }
  where
    go : (r : Result A) (w : World) → After F Q r w → After E Q (recover r h w).0 (recover r h w).1
    go (ok a) w q = q
    go (err e) w f = (k e).at w f

-- A weaker claim on the result, and on what a throw leaves.
pub weaken_Triple :
    {A : Type 0} {E F P : World → Type 0} {Q R : A → World → Type 0} {m : App A}
    → Triple E P m Q
    → ((w : World) → E w → F w)
    → ((a : A) (w : World) → Q a w → R a w)
    → Triple F P m R
weaken_Triple {A} {E} {F} {Q} {R} {m} t f g = record { at = λ w p. go (m w).0 (m w).1 (t.at w p) }
  where
    go : (r : Result A) (w : World) → After E Q r w → After F R r w
    go (ok a) w q = g a w q
    go (err e) w p = f w p

pub lift_Triple :
    {A : Type 0} {E P : World → Type 0} {Q : A → World → Type 0} (r : Result A)
    → ((w : World) → P w → E w)
    → ((a : A) (w : World) → r ≡ ok a → P w → Q a w)
    → Triple E P (lift r) Q
lift_Triple (ok a) out on = pure-Triple a (λ w h. on a w refl h)
lift_Triple (err e) out on = throw_keep e out

-- A look at a world that is known.
pub gets_same :
    {E : World → Type 0} {A B : Type 0} {R : B → World → Type 0} (old : World) (g : World → A)
    (f : A → App B)
    → Triple E (λ w. w ≡ old) (f (g old)) R
    → Triple E (λ w. w ≡ old) (gets g >>= f) R
unfolding ◌>>=◌
gets_same {E} {A} {B} {R} old g f t = record {
  at = λ w h. subst (λ x. After E R (f (g x) w).0 (f (g x) w).1) (sym h) (t.at w h);
}

-- What a triple says of an outcome that is known.
module _ {A : Type 0} where
  pub After-ok :
      (E : World → Type 0) (Q : A → World → Type 0) (r : Result A) (w : World) {a : A}
      → After E Q r w
      → r ≡ ok a
      → Q a w
  After-ok E Q (ok b) w {a} h e = let same : b ≡ a = cc in subst (λ x. Q x w) same h
  After-ok E Q (err x) w h e = cc

  pub After-err :
      (E : World → Type 0) (Q : A → World → Type 0) (r : Result A) (w : World) {x : Thrown}
      → After E Q r w
      → r ≡ err x
      → E w
  After-err E Q (ok a) w h e = cc
  After-err E Q (err x) w h e = h

  pub After-same : (P : World → Type 0) (r : Result A) (w : World) → After P (λ _. P) r w → P w
  After-same P (ok a) w h = h
  After-same P (err x) w h = h
