-- ===== src/Errors.antt =====
-- worker/src/lib/errors.ts and the error handler of worker/src/index.ts: what a request throws,
-- and the response that a thrown value becomes.
use entra_shift.Common.{ℕ, ◌∷◌, Option, none, some, Text, units}

pub data ErrorCode : Type 0 where
  unauthorized forbidden csrf rate_limited budget_exhausted not_found : ErrorCode
  validation graph_error token_error conflict internal : ErrorCode

abbrev pub status_by_code : ErrorCode → ℕ
status_by_code unauthorized = 401
status_by_code forbidden = 403
status_by_code csrf = 403
status_by_code rate_limited = 429
status_by_code budget_exhausted = 429
status_by_code not_found = 404
status_by_code validation = 400
status_by_code graph_error = 502
status_by_code token_error = 502
status_by_code conflict = 409
status_by_code internal = 500

pub record ApiError : Type 0 where
  pub code : ErrorCode
  pub message : Text
  pub detail : Option Text

pub record ErrorEnvelope : Type 0 where
  pub code : ErrorCode
  pub message : Text
  pub detail : Option Text

-- `...(this.detail ? { detail } : {})`: an empty detail is left out.
abbrev truthy : Option Text → Option Text
truthy (some (c ∷ s)) = some (c ∷ s)
truthy _ = none

abbrev pub to_envelope : ApiError → ErrorEnvelope
to_envelope e = record { code = e.code; message = e.message; detail = truthy e.detail }

-- What a handler throws: an `ApiError`, the `SyntaxError` of a malformed JSON body, or another
-- error, such as that of a violated database constraint.
pub data Thrown : Type 0 where
  api : ApiError → Thrown
  syntax_error : Thrown
  unexpected : Text → Thrown

-- The members of `err`, with no detail.
abbrev pub raised : ErrorCode → Text → Thrown
raised code message = api (record { code = code; message = message; detail = none })

pub record ErrorResponse : Type 0 where
  pub status : ℕ
  pub envelope : ErrorEnvelope

-- `app.onError`. The message of an unexpected error goes to the log only.
unfoldable pub on_error : Thrown → ErrorResponse
on_error (api e) = record { status = status_by_code e.code; envelope = to_envelope e }
on_error syntax_error = record {
  status = 400;
  envelope = record { code = validation; message = units "Malformed request body"; detail = none };
}
on_error (unexpected message) = record {
  status = 500;
  envelope = record { code = internal; message = units "Internal server error"; detail = none };
}
