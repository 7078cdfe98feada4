-- ===== src/Middleware/RateLimit/Window.antt =====
-- How many calls the limiter of worker/src/middleware/ratelimit.ts lets through.
use entra_shift.Common.{
  ℕ, ◌+◌, ◌-◌, ◌<◌, ◌≡◌, refl, ◌∙◌, sym, ap, min, Bool, true, false, ◌&&◌, List, [], ◌∷◌, some,
  Text, text_eq, text_eq_refl, text_eq_iff, leb, ltb, arith, All, Bool-cases, inl, inr,
}
use entra_shift.Contracts.{Instant}
use entra_shift.Middleware.RateLimit.{
  window_ms, max_per_window, Bucket, Buckets, bucket_of, set_bucket, open_bucket, Answer, pass,
  retry_after, rate_limit,
}

bucket_of-set_same :
    (key : Text) (b : Bucket) (buckets : Buckets)
    → bucket_of key (set_bucket key b buckets) ≡ some b
unfolding bucket_of set_bucket
bucket_of-set_same key b [] = rw (text_eq_refl key, bucket_of) refl
bucket_of-set_same key b ((k, c) ∷ rest) = elim (Bool-cases (text_eq k key)) [
  | inl here ↦ rw (here, set_bucket, text_eq_refl key, bucket_of) refl
  | inr later ↦ rw (later, set_bucket, later, bucket_of) (bucket_of-set_same key b rest)
]

bucket_of-set_other :
    (key other : Text) (b : Bucket) (buckets : Buckets)
    → text_eq other key ≡ false
    → bucket_of key (set_bucket other b buckets) ≡ bucket_of key buckets
unfolding bucket_of set_bucket
bucket_of-set_other key other b [] apart = rw (apart, bucket_of) refl
bucket_of-set_other key other b ((k, c) ∷ rest) apart = elim (Bool-cases (text_eq k other)) [
  | inl here ↦
      let gone : text_eq k key ≡ false = ground (arith, text_eq_iff k other) in
      rw (here, set_bucket, apart, gone, bucket_of) refl
  | inr later ↦ ground (arith, bucket_of-set_other key other b rest apart)
]

abbrev is_pass : Answer → Bool
is_pass pass = true
is_pass (retry_after s) = false

abbrev one : Bool → ℕ
one true = 1
one false = 0

-- The calls under a key, and how many of them pass, in a sequence of calls under any keys.
abbrev pub calls_of : Text → List (Instant × Text) → ℕ
calls_of key [] = 0
calls_of key ((now, k) ∷ calls) = one (text_eq k key) + calls_of key calls

abbrev pub passed : Text → List (Instant × Text) → Buckets → ℕ
passed key [] buckets = 0
passed key ((now, k) ∷ calls) buckets =
    let (answer, buckets') = rate_limit k now buckets in
    one (text_eq k key && is_pass answer) + passed key calls buckets'

-- A call under another key leaves the bucket.
rate_limit-other :
    (key other : Text) (now : Instant) (buckets : Buckets)
    → text_eq other key ≡ false
    → bucket_of key (rate_limit other now buckets).1 ≡ bucket_of key buckets
unfolding rate_limit
rate_limit-other key other now buckets = bucket_of-set_other key other _ buckets

-- A call in an open window counts, and passes while fewer than 120 have.
rate_limit-same :
    (key : Text) (now : Instant) (buckets : Buckets) (b : Bucket)
    → open_bucket now (bucket_of key buckets) ≡ b
    → let (answer, buckets') = rate_limit key now buckets in
      (is_pass answer ≡ ltb b.count max_per_window)
      × (bucket_of key buckets' ≡ some (record b { count = b.count + 1 }))
unfolding rate_limit
rate_limit-same key now buckets b e = elim (Bool-cases (ltb max_per_window (b.count + 1))) [
  | inl over ↦
      rw (e, over, bucket_of-set_same key (record b { count = b.count + 1 }) buckets) (ground arith)
  | inr under ↦
      rw (e, under, bucket_of-set_same key (record b { count = b.count + 1 }) buckets)
        (ground arith)
]

-- Every call of the sequence comes before an instant.
abbrev Before : Instant → List (Instant × Text) → Type 0
Before end = All (λ (c : Instant × Text). c.0 < end)

open_bucket-open : (now : Instant) (b : Bucket) → now < b.reset_at → open_bucket now (some b) ≡ b
unfolding open_bucket
open_bucket-open now b h = elim (Bool-cases (leb b.reset_at now)) [
  | inl over ↦ ground arith
  | inr open_yet ↦ rw open_yet refl
]

passed_in_open_window :
    (key : Text) (calls : List (Instant × Text)) (buckets : Buckets) (b : Bucket)
    → bucket_of key buckets ≡ some b
    → Before b.reset_at calls
    → passed key calls buckets ≡ min (calls_of key calls) (max_per_window - b.count)
passed_in_open_window key [] buckets b e h = omega arith
passed_in_open_window key ((now, k) ∷ calls) buckets b e (soon, h) =
    elim (Bool-cases (text_eq k key)) [
      | inr other ↦
          let rest =
            passed_in_open_window key calls (rate_limit k now buckets).1 b
              (rate_limit-other key k now buckets other ∙ e) h in
          rw other (omega arith)
      | inl own ↦
          let same : k ≡ key = (text_eq_iff k key).0 own in
          let here : bucket_of k buckets ≡ some b = ap (λ x. bucket_of x buckets) same ∙ e in
          let opened : open_bucket now (bucket_of k buckets) ≡ b =
            rw here (open_bucket-open now b soon) in
          let (passes, there) = rate_limit-same k now buckets b opened in
          let rest =
            passed_in_open_window key calls (rate_limit k now buckets).1
              (record b { count = b.count + 1 })
              (ap (λ x. bucket_of x (rate_limit k now buckets).1) (sym same) ∙ there) h in
          rw (own, passes, rest) (ground arith)
    ]

-- A call under the key at `start`, when its bucket is missing or over, opens a window: of that call
-- and the later ones under the key before its end, whatever others come between, exactly the first
-- 120 pass.
pub passed_in_window :
    (key : Text) (start : Instant) (calls : List (Instant × Text)) (buckets : Buckets)
    → open_bucket start (bucket_of key buckets) ≡ record { count = 0; reset_at = start + window_ms }
    → Before (start + window_ms) calls
    → passed key ((start, key) ∷ calls) buckets ≡ min (1 + calls_of key calls) max_per_window
passed_in_window key start calls buckets fresh h =
    let (passes, there) = rate_limit-same key start buckets _ fresh in
    let rest =
      passed_in_open_window key calls (rate_limit key start buckets).1
        (record { count = 1; reset_at = start + window_ms }) there h in
    rw (text_eq_refl key, passes, rest) (ground arith)
