-- ===== src/App.antt =====
-- What a request handler runs in: the bindings of worker/src/env.ts, the runtime, and a monad of
-- state and thrown errors. What was written before a throw stays written, as with D1 outside a
-- batch.
pub mod Actions
pub mod Triple
pub mod Steps
use entra_shift.Common.{
  ℕ, suc, Bool, true, false, List, [], ◌∷◌, Option, none, some, Text, if◌then◌else◌,
}
use entra_shift.Contracts.{Instant, JobDispatchMessage}
use entra_shift.Errors.{Thrown}
use entra_shift.Graph.{ProvisionInput}
use entra_shift.Db.{Database}
use entra_shift.Db.Budget.{Usage}

-- The functions of the Workers runtime that the code calls: the n-th draws of `randomUUID` and of
-- `opaqueToken`, the bytes that are there for the n-th draw of a nonce or of a temporary password,
-- SHA-256 in hexadecimal, `toLowerCase` and `toUpperCase`.
pub record Runtime : Type 0 where
  pub uuid : ℕ → Text
  pub token : ℕ → Text
  pub random_bytes : ℕ → List ℕ
  pub sha256_hex : Text → Text
  pub to_lower : Text → Text
  pub to_upper : Text → Text

-- The variables of `Env` that the modelled code reads.
pub record Vars : Type 0 where
  pub session_ttl_seconds : Text
  pub min_poll_interval_sec : Text
  pub allowed_group_id : Text
  pub dev_auth_bypass : Option Text
  pub entra_tenant_id : Text
  pub oidc_client_id : Text
  pub cf_access_team_domain : Text
  pub cf_access_aud : Text
  pub master_encryption_key : Text

-- `queue` holds the messages sent and `background` the uses handed to `waitUntil`, the newest
-- first. `accounts` are the users that Microsoft Graph has created on request, with their passwords,
-- the newest first. A request runs at one instant, `now`. `draws` counts the random values drawn.
pub record World : Type 0 where
  pub db : Database
  pub queue : List JobDispatchMessage
  pub background : List Usage
  pub accounts : List ProvisionInput
  pub now : Instant
  pub draws : ℕ
  pub runtime : Runtime
  pub vars : Vars

pub data Result (A : Type 0) : Type 0 where
  ok : A → Result A
  err : Thrown → Result A

abbrev pub App : Type 0 → Type 0
App A = World → Result A × World

module _ {A : Type 0} where
  pub pure : A → App A
  pure a w = (ok a, w)

  pub throw : Thrown → App A
  throw e w = (err e, w)

  pub gets : (World → A) → App A
  gets f w = (ok (f w), w)

  -- `if (!x) throw e`, handing on what is there.
  pub or_throw : Option A → Thrown → App A
  or_throw none e w = (err e, w)
  or_throw (some a) e w = (ok a, w)

  -- An action that changes the world and returns what it computes from it.
  pub act : (World → A × World) → App A
  act f w = let (a, w') = f w in (ok a, w')

-- A computation without effects that may throw.
abbrev pub lift : {A : Type 0} → Result A → App A
lift (ok a) = pure a
lift (err e) = throw e

-- `if (c) throw e`.
pub throw_if : Bool → Thrown → App (Unit {0})
throw_if true e w = (err e, w)
throw_if false e w = (ok tt, w)

pub modify : (World → World) → App (Unit {0})
modify f w = (ok tt, f w)

-- What comes behind an action: a throw skips it.
abbrev continue : {A B : Type 0} → Result A → (A → App B) → App B
continue (ok a) f w = f a w
continue (err e) f w = (err e, w)

-- Opening this opens the actions above too.
infixl 5 ◌>>=◌ ◌>>◌
unfoldable pub ◌>>=◌ : {A B : Type 0} → App A → (A → App B) → App B
unfolding pure throw gets or_throw act throw_if modify
◌>>=◌ m f w = let (r, w') = m w in continue r f w'

abbrev pub ◌>>◌ : {A B : Type 0} → App A → App B → App B
m >> k = m >>= λ _. k

abbrev recover : {A : Type 0} → Result A → (Thrown → App A) → App A
recover (ok a) h w = (ok a, w)
recover (err e) h w = h e w

-- `try { m } catch (e) { h(e) }`.
unfoldable pub try_catch : {A : Type 0} → App A → (Thrown → App A) → App A
try_catch m h w = let (r, w') = m w in recover r h w'
