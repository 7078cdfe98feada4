-- ===== src/Middleware/RateLimit.antt =====
-- worker/src/middleware/ratelimit.ts: a fixed window for each key, in the memory of one isolate.
pub mod Window
use entra_shift.Common.{
  ℕ, ◌+◌, ◌-◌, ◌/◌, ◌≤◌, ◌≡◌, Bool, true, false, not, List, [], ◌∷◌, Option, none, some, Text,
  text_eq, units, if◌then◌else◌, leb, ltb,
}
use entra_shift.Contracts.{Instant}

abbrev pub window_ms : ℕ
window_ms = 60000

abbrev pub max_per_window : ℕ
max_per_window = 120

pub record Bucket : Type 0 where
  pub count : ℕ
  pub reset_at : Instant

-- The entries of the map `buckets`.
abbrev pub Buckets : Type 0
Buckets = List (Text × Bucket)

unfoldable pub bucket_of : Text → Buckets → Option Bucket
bucket_of key [] = none
bucket_of key ((k, b) ∷ rest) = if text_eq k key then some b else bucket_of key rest

unfoldable pub set_bucket : Text → Bucket → Buckets → Buckets
set_bucket key b [] = (key, b) ∷ []
set_bucket key b ((k, c) ∷ rest) =
    if text_eq k key then (key, b) ∷ rest else (k, c) ∷ set_bucket key b rest

-- The key: the session's id, else the address of the client, else `anon`.
unfoldable pub key_of : Option Text → Option Text → Text
unfolding units
key_of (some id) address = id
key_of none (some address) = address
key_of none none = units "anon"

-- The bucket that a call at `now` counts in.
unfoldable pub open_bucket : Instant → Option Bucket → Bucket
open_bucket now none = record { count = 0; reset_at = now + window_ms }
open_bucket now (some b) =
    if leb b.reset_at now then record { count = 0; reset_at = now + window_ms } else b

-- What a call gets: it passes, or it is told to retry after some seconds.
pub data Answer : Type 0 where
  pass : Answer
  retry_after : ℕ → Answer

unfoldable pub rate_limit : Text → Instant → Buckets → Answer × Buckets
rate_limit key now buckets =
    let b = open_bucket now (bucket_of key buckets) in
    let counted : Bucket = record b { count = b.count + 1 } in
    (
      if ltb max_per_window counted.count
          then retry_after ((b.reset_at - now + 999) / 1000)
          else pass,
      set_bucket key counted buckets,
    )
