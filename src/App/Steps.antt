-- ===== src/App/Steps.antt =====
-- What the actions of App.antt return, step by step.
use entra_shift.Common.{◌≡◌, ◌⊎◌, inl, inr, refl, Bool, true, false, if◌then◌else◌}
use entra_shift.Errors.{Thrown}
use entra_shift.App.{World, Result, ok, err, App, throw_if, ◌>>=◌}

pub Result-cases :
    {A : Type 0} (r : Result A) → ((a : A) × (r ≡ ok a)) ⊎ ((e : Thrown) × (r ≡ err e))
Result-cases (ok a) = inl (a, refl)
Result-cases (err e) = inr (e, refl)

module _ {A B : Type 0} where
  pub bind-ok :
      (m : App A) (k : A → App B) (w : World) {a : A} → (m w).0 ≡ ok a → (m >>= k) w ≡ k a (m w).1
  unfolding ◌>>=◌
  bind-ok m k w e = rw (e) refl

  pub bind-err :
      (m : App A) (k : A → App B) (w : World) {e : Thrown}
      → (m w).0 ≡ err e
      → (m >>= k) w ≡ (err e, (m w).1)
  unfolding ◌>>=◌
  bind-err m k w e = rw (e) refl

pub throw_if-bind :
    {B : Type 0} (c : Bool) (e : Thrown) (k : Unit {0} → App B) (w : World)
    → (throw_if c e >>= k) w ≡ (if c then (err e, w) else k tt w)
unfolding ◌>>=◌
throw_if-bind true e k w = refl
throw_if-bind false e k w = refl
