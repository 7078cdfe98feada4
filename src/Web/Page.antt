-- ===== src/Web/Page.antt =====
-- The state of web/src/lib/api.ts, which is the page's: the cached token, with it what was sent and
-- the sign-outs announced. The network and the reading of JSON are a parameter.
use entra_shift.Common.{ℕ, Bool, true, false, List, Option, Text, if◌then◌else◌}

-- `ApiErrorCode`: the code comes from the envelope as it is, or from `http_to_code`.
abbrev pub ApiErrorCode : Type 0
ApiErrorCode = Text

pub record ApiError : Type 0 where
  pub code : ApiErrorCode
  pub message : Text
  pub status : ℕ
  pub detail : Option Text

-- The methods that the calls of the file write.
pub data Method : Type 0 where
  get post patch delete : Method

-- Membership in `UNSAFE_METHODS`.
abbrev pub is_unsafe : Method → Bool
is_unsafe get = false
is_unsafe _ = true

pub record Sent : Type 0 where
  pub url : Text
  pub method : Method
  pub headers : List (Text × Text)
  pub body : Option Text

-- A body that breaks off is `none`.
pub record Response : Type 0 where
  pub status : ℕ
  pub status_text : Text
  pub text : Option Text

pub data Fetched : Type 0 where
  aborted unreachable : Fetched
  answered : Response → Fetched

-- The network answers by all that the page has sent; the others read parsed JSON.
pub record Browser : Type 1 where
  pub Json : Type 0
  pub api_base : Text
  pub fetch : List Sent → Sent → Fetched
  pub parse : Text → Option Json
  pub error_code : Json → Option Text
  pub error_message : Json → Option Text
  pub error_detail : Json → Option Text
  pub csrf_of : Json → Option Text

-- `sent` has the newest request first; `announced` counts the `entrashift:unauthorized` events.
pub record Page : Type 0 where
  pub csrf_token : Option Text
  pub sent : List Sent
  pub announced : ℕ

-- How a call ends that returns nothing. An exception that is not the client's own is an abort, or a
-- body that broke off.
pub data Ending : Type 0 where
  raised : ApiError → Ending
  abort broken out_of_fuel : Ending

pub data Outcome (A : Type 0) : Type 0 where
  returned : A → Outcome A
  ended : Ending → Outcome A

abbrev pub Client : Type 0 → Type 0
Client A = Page → Outcome A × Page

module _ {A B : Type 0} where
  abbrev pub continue : Outcome A → (A → Client B) → Client B
  continue (returned a) f p = f a p
  continue (ended x) f p = (ended x, p)

  infixl 5 ◌>>=◌ ◌>>◌
  unfoldable pub ◌>>=◌ : Client A → (A → Client B) → Client B
  (m >>= f) p = continue (m p).0 f (m p).1

  abbrev pub ◌>>◌ : Client A → Client B → Client B
  m >> n = m >>= λ _. n

module _ {A : Type 0} where
  unfoldable pub pure : A → Client A
  pure a p = (returned a, p)

  abbrev pub end : Ending → Client A
  end x p = (ended x, p)

abbrev pub modify : (Page → Page) → Client (Unit {0})
modify f p = (returned tt, f p)

abbrev pub only_if : Bool → Client (Unit {0}) → Client (Unit {0})
only_if c m = if c then m else pure tt
