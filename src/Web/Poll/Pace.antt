-- ===== src/Web/Poll/Pace.antt =====
-- The pace of `poll` of web/src/lib/api.ts, and the moves that keep it.
use entra_shift.Common.{
  ℕ, suc, ◌+◌, ◌-◌, ◌≤◌, Bool, true, false, List, [], ◌∷◌, Option, none, some, ◌≡◌, refl, sym,
  arith, if◌then◌else◌,
}
use mathlib.Core.Path.{subst}
use entra_shift.Contracts.{Instant}
use entra_shift.Web.Settled.{Settled, resolved, rejected, aborted}
use entra_shift.Web.Poll.{Polling, clamped, tick, stop, told, deliver, arm}

-- Each of the moments, the newest first, is at least `n` after the one before it.
abbrev pub Spaced : ℕ → List Instant → Type 0
Spaced n [] = Unit
Spaced n (b ∷ []) = Unit
Spaced n (b ∷ a ∷ as') = (a + n ≤ b) × Spaced n (a ∷ as')

-- No moment of the list, the newest first, comes within `n` before `t`.
abbrev pub Clear : ℕ → List Instant → Instant → Type 0
Clear n [] t = Unit
Clear n (a ∷ as') t = a + n ≤ t

abbrev pub pending : Option Instant → ℕ
pending none = 0
pending (some t) = 1

abbrev pub Due : ℕ → List Instant → Option Instant → Type 0
Due n starts none = Unit
Due n starts (some t) = Clear n starts t

-- At most one call is in flight or waiting for its timer, exactly one until the poll is disposed
-- of, and the starts are spaced, the one that waits included.
pub record IsPaced {A : Type 0} (n : ℕ) (p : Polling A) : Type 0 where
  pub one : p.in_flight + pending p.timer ≤ 1
  pub going : p.stopped ≡ false → p.in_flight + pending p.timer ≡ 1
  pub over : p.stopped ≡ true → p.timer ≡ none
  pub due : Due n p.starts p.timer
  pub past : Clear 0 p.starts p.now
  pub spaced : Spaced n p.starts

Spaced-cons :
    (n t now : ℕ) (starts : List Instant)
    → Clear n starts t
    → t ≤ now
    → Spaced n starts
    → Spaced n (now ∷ starts)
Spaced-cons n t now [] c l s = tt
Spaced-cons n t now (a ∷ as') c l s = (omega (arith, c), s)

pub Spaced-weaken :
    (n : ℕ) (starts : List Instant) → 30000 ≤ n → Spaced n starts → Spaced 30000 starts
Spaced-weaken n [] l s = tt
Spaced-weaken n (b ∷ []) l s = tt
Spaced-weaken n (b ∷ a ∷ as') l s = (omega (arith, s.0), Spaced-weaken n (a ∷ as') l s.1)

Clear-later :
    (n m d : ℕ) (starts : List Instant) → n ≤ d → Clear 0 starts m → Clear n starts (m + d)
Clear-later n m d [] l c = tt
Clear-later n m d (a ∷ as') l c = omega (arith, c)

pub Clear-self : (m : ℕ) → m + 0 ≤ m
Clear-self m = omega arith

module _ {A : Type 0} (i : ℕ) where
  pub wait-IsPaced :
      (d : ℕ) (p : Polling A) → IsPaced i p → IsPaced i (record p { now = p.now + d })
  wait-IsPaced d p h = record {
    one = h.one;
    going = h.going;
    over = h.over;
    due = h.due;
    past = Clear-later 0 p.now d p.starts (omega arith) h.past;
    spaced = h.spaced;
  }

  pub stop-IsPaced : (p : Polling A) → IsPaced i p → IsPaced i (stop p)
  unfolding stop
  stop-IsPaced p h = record {
    one = omega (arith, h.one);
    going = λ e. cc;
    over = λ _. refl;
    due = tt;
    past = h.past;
    spaced = h.spaced;
  }

  pub fire-IsPaced :
      (p : Polling A) (t : Instant)
      → p.timer ≡ some t
      → t ≤ p.now
      → IsPaced i p
      → IsPaced i (tick (record p { timer = none }))
  unfolding tick
  fire-IsPaced p t e l h = go p.stopped refl
    where
      old : Polling A
      old = record p { timer = none }

      idle : p.in_flight ≡ 0
      idle = let one = h.one in ground arith

      clear : Clear i p.starts t
      clear = subst (Due i p.starts) e h.due

      go :
          (b : Bool)
          → p.stopped ≡ b
          → IsPaced i (
              if b then old else record old {
                signal_aborted = false;
                in_flight = suc old.in_flight;
                starts = old.now ∷ old.starts;
              })
      go true b_eq = let off = h.over b_eq in cc
      go false b_eq = record {
        one = omega (arith, idle);
        going = λ _. omega (arith, idle);
        over = λ d. cc;
        due = tt;
        past = Clear-self p.now;
        spaced = Spaced-cons i t p.now p.starts clear l h.spaced;
      }

  -- Between an answer and the next timer nothing is in flight and nothing waits.
  pub record IsResting (p : Polling A) : Type 0 where
    pub idle : p.in_flight ≡ 0
    pub no_timer : p.timer ≡ none
    pub past : Clear 0 p.starts p.now
    pub spaced : Spaced i p.starts

  told-IsResting : (outcome : Settled A) (p : Polling A) → IsResting p → IsResting (told outcome p)
  told-IsResting (resolved a) p h = record {
    idle = h.idle;
    no_timer = h.no_timer;
    past = h.past;
    spaced = h.spaced;
  }
  told-IsResting (rejected e) p h = record {
    idle = h.idle;
    no_timer = h.no_timer;
    past = h.past;
    spaced = h.spaced;
  }
  told-IsResting aborted p h = h

  stop-IsResting : (p : Polling A) → IsResting p → IsResting (stop p)
  unfolding stop
  stop-IsResting p h = record { idle = h.idle; no_timer = refl; past = h.past; spaced = h.spaced }

  pub deliver-IsResting :
      (outcome : Settled A) (disposes : Bool) (p : Polling A)
      → IsResting p
      → IsResting (deliver outcome disposes p)
  deliver-IsResting outcome disposes p h = go p.stopped disposes
    where
      go :
          (b d : Bool)
          → IsResting (if b then p else if d then stop (told outcome p) else told outcome p)
      go true d = h
      go false true = stop-IsResting (told outcome p) (told-IsResting outcome p h)
      go false false = told-IsResting outcome p h

  pub answered-IsResting :
      (p : Polling A) (n : ℕ)
      → p.in_flight ≡ suc n
      → IsPaced i p
      → IsResting (record p { in_flight = p.in_flight - 1 })
  answered-IsResting p n e h = record {
    idle = omega (arith, h.one);
    no_timer = let one = h.one in none_of p.timer (omega arith);
    past = h.past;
    spaced = h.spaced;
  }
    where
      none_of : (o : Option Instant) → pending o ≡ 0 → o ≡ none
      none_of none _ = refl
      none_of (some t) z = absurd (omega arith)

pub arm-IsPaced :
    {A : Type 0} (interval_ms : ℕ) (p : Polling A)
    → IsResting (clamped interval_ms) p
    → IsPaced (clamped interval_ms) (arm interval_ms p)
arm-IsPaced {A} interval_ms p h = go p.stopped refl
  where
    i : ℕ
    i = clamped interval_ms

    go :
        (b : Bool)
        → p.stopped ≡ b
        → IsPaced i (if b then p else record p { timer = some (p.now + i) })
    go true e = record {
      one = subst (λ o. p.in_flight + pending o ≤ 1) (sym h.no_timer) (omega (arith, h.idle));
      going = λ f. cc;
      over = λ _. h.no_timer;
      due = subst (Due i p.starts) (sym h.no_timer) tt;
      past = h.past;
      spaced = h.spaced;
    }
    go false e = record {
      one = omega (arith, h.idle);
      going = λ _. omega (arith, h.idle);
      over = λ f. cc;
      due = Clear-later i p.now i p.starts (omega arith) h.past;
      past = h.past;
      spaced = h.spaced;
    }
