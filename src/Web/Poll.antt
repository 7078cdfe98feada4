-- ===== src/Web/Poll.antt =====
-- `poll` of web/src/lib/api.ts: the timer, the call in flight and the disposer as a state machine.
-- A callback returns, and may dispose of the poll; a timer may fire late, never early.
pub mod Pace
pub mod Paced
pub mod Alive
use entra_shift.Common.{
  ℕ, suc, ◌+◌, ◌-◌, ◌≤◌, Bool, true, false, List, [], ◌∷◌, Option, none, some, max, ◌≡◌, Text,
  if◌then◌else◌,
}
use entra_shift.Contracts.{Instant}
use entra_shift.Web.Settled.{Settled, resolved, rejected, aborted}

-- What the caller's callbacks were told.
pub data Call (A : Type 0) : Type 0 where
  on_result : A → Call A
  on_error : Text → Call A

-- `timer` is the moment of a timeout that is pending; `in_flight` counts the calls of `fn` that
-- have not settled; `starts` and `calls` are the history, the newest first.
pub record Polling (A : Type 0) : Type 0 where
  pub now : Instant
  pub stopped : Bool
  pub timer : Option Instant
  pub signal_aborted : Bool
  pub in_flight : ℕ
  pub starts : List Instant
  pub calls : List (Call A)

abbrev pub clamped : ℕ → ℕ
clamped interval_ms = max 30000 interval_ms

module _ {A : Type 0} where
  -- `tick` up to its `await`.
  unfoldable pub tick : Polling A → Polling A
  tick p = if p.stopped then p else record p {
    signal_aborted = false;
    in_flight = suc p.in_flight;
    starts = p.now ∷ p.starts;
  }

  -- The disposer.
  unfoldable pub stop : Polling A → Polling A
  stop p = record p { stopped = true; timer = none; signal_aborted = true }

  abbrev pub called : Call A → Polling A → Polling A
  called call p = record p { calls = call ∷ p.calls }

  abbrev pub told : Settled A → Polling A → Polling A
  told (resolved a) p = called (on_result a) p
  told (rejected e) p = called (on_error e) p
  told aborted p = p

  -- The callback that runs, and what it does about the poll.
  abbrev pub deliver : Settled A → Bool → Polling A → Polling A
  deliver outcome disposes p =
      if p.stopped then p else if disposes then stop (told outcome p) else told outcome p

  -- The `finally` block.
  abbrev pub arm : ℕ → Polling A → Polling A
  arm interval_ms p =
      if p.stopped then p else record p { timer = some (p.now + clamped interval_ms) }

  -- `tick` from its `await` on.
  unfoldable pub settle : ℕ → Settled A → Bool → Polling A → Polling A
  settle interval_ms outcome disposes p =
      arm interval_ms (deliver outcome disposes (record p { in_flight = p.in_flight - 1 }))

  abbrev pub fresh : Instant → Polling A
  fresh now = record {
    now = now;
    stopped = false;
    timer = none;
    signal_aborted = false;
    in_flight = 0;
    starts = [];
    calls = [];
  }

  -- `poll`.
  unfoldable pub start : Instant → Polling A
  start now = tick (fresh now)

  -- The moves of the clock, of a timer that is due, of `fn` and of the caller.
  pub data Step (interval_ms : ℕ) : Polling A → Polling A → Type 0 where
    wait : (d : ℕ) {p : Polling A} → Step interval_ms p (record p { now = p.now + d })
    fire :
        {p : Polling A} {t : Instant}
        → p.timer ≡ some t
        → t ≤ p.now
        → Step interval_ms p (tick (record p { timer = none }))
    answer :
        (outcome : Settled A) (disposes : Bool) {p : Polling A} {n : ℕ}
        → p.in_flight ≡ suc n
        → Step interval_ms p (settle interval_ms outcome disposes p)
    dispose : {p : Polling A} → Step interval_ms p (stop p)

  pub data Steps (interval_ms : ℕ) : Polling A → Polling A → Type 0 where
    done : {p : Polling A} → Steps interval_ms p p
    later :
        {p q r : Polling A} → Steps interval_ms p q → Step interval_ms q r → Steps interval_ms p r

  -- The states of a poll that was started.
  abbrev pub Reach : ℕ → Polling A → Type 0
  Reach interval_ms p = (now : Instant) × Steps interval_ms (start now) p
