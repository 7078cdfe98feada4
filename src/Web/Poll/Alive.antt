-- ===== src/Web/Poll/Alive.antt =====
-- What becomes of a `poll` of web/src/lib/api.ts: it goes on until it is disposed of, then nothing.
use entra_shift.Common.{
  ℕ, zero, suc, ◌+◌, Bool, true, false, ◌∷◌, Option, none, some, ◌≡◌, refl, sym, length, inl, inr,
  arith, ap, ◌∙◌, ◌⊎◌,
}
use mathlib.Core.Path.{subst}
use entra_shift.Contracts.{Instant}
use entra_shift.Web.Settled.{Settled, resolved, rejected, aborted}
use entra_shift.Web.Poll.{
  Polling, clamped, tick, stop, settle, Step, wait, fire, answer, dispose, Steps, done, later,
  Reach,
}
use entra_shift.Web.Poll.Pace.{pending}
use entra_shift.Web.Poll.Paced.{Reach-IsPaced}

-- A statement about a poll of which it is known whether it is disposed of, written into its state.
going_as :
    {A : Type 0} {b : Bool} (P : Polling A → Type 0) (p : Polling A)
    → p.stopped ≡ b
    → P (record p { stopped = b })
    → P p
going_as P p e = subst (λ b. P (record p { stopped = b })) (sym e)

tick-going :
    {A : Type 0} (p : Polling A)
    → p.stopped ≡ false
    → ((tick p).stopped ≡ false) × ((tick p).starts ≡ p.now ∷ p.starts)
unfolding tick
tick-going p e =
    going_as (λ q. ((tick q).stopped ≡ false) × ((tick q).starts ≡ q.now ∷ q.starts)) p e
      (refl, refl)

one_or_timer :
    (n : ℕ) (o : Option Instant)
    → n + pending o ≡ 1
    → ((t : Instant) × (o ≡ some t)) ⊎ ((m : ℕ) × (n ≡ suc m))
one_or_timer n (some t) e = inl (t, refl)
one_or_timer zero none e = absurd (omega arith)
one_or_timer (suc m) none e = inr (m, refl)

module _ {A : Type 0} (interval_ms : ℕ) where
  -- A run from `p` in which the caller's function is called once more.
  abbrev pub GoesOn : Polling A → Type 0
  GoesOn p =
      (q : Polling A) × Steps interval_ms p q
      × (q.stopped ≡ false)
      × (length q.starts ≡ suc (length p.starts))

  -- With a timer that waits, time passes and it fires.
  timer-GoesOn : (p : Polling A) (t : Instant) → p.stopped ≡ false → p.timer ≡ some t → GoesOn p
  timer-GoesOn p t e timer =
      let late : Polling A = record p { now = p.now + t } in
      let next = tick-going (record late { timer = none }) e in
      (
        tick (record late { timer = none }),
        later (later done (wait t)) (fire timer (omega arith)),
        next.0,
        ap length next.1,
      )

  abbrev Armed : Settled A → Polling A → Type 0
  Armed outcome p =
      let q = settle interval_ms outcome false p in
      (q.stopped ≡ false) × (q.timer ≡ some (p.now + clamped interval_ms)) × (q.starts ≡ p.starts)

  settle-Armed : (outcome : Settled A) (p : Polling A) → p.stopped ≡ false → Armed outcome p
  unfolding settle
  settle-Armed (resolved a) p e = going_as (Armed (resolved a)) p e (refl, refl, refl)
  settle-Armed (rejected x) p e = going_as (Armed (rejected x)) p e (refl, refl, refl)
  settle-Armed aborted p e = going_as (Armed aborted) p e (refl, refl, refl)

  Steps-append :
      {p q r : Polling A} → Steps interval_ms p q → Steps interval_ms q r → Steps interval_ms p r
  Steps-append s done = s
  Steps-append s (later t x) = later (Steps-append s t) x

  -- A poll that is not disposed of goes on: whether it waits for an answer, and whatever that
  -- answer is, or for its timer, there is a run in which it calls the caller's function again.
  pub Reach-GoesOn :
      {p : Polling A} → Reach interval_ms p → (outcome : Settled A) → p.stopped ≡ false → GoesOn p
  Reach-GoesOn {p} r outcome e =
      elim (one_or_timer p.in_flight p.timer ((Reach-IsPaced r).going e)) [
        | inl x ↦ timer-GoesOn p x.0 e x.1
        | inr x ↦
            let armed = settle-Armed outcome p e in
            let go = timer-GoesOn (settle interval_ms outcome false p) _ armed.0 armed.1 in
            (
              go.0,
              Steps-append (later done (answer outcome false x.1)) go.1,
              go.2,
              go.3 ∙ ap (λ s. suc (length s)) armed.2,
            )
      ]

  -- Nothing that shows was done between the two, and nothing is to come.
  record IsSilent (p q : Polling A) : Type 0 where
    stopped : q.stopped ≡ true
    no_timer : q.timer ≡ none
    starts : q.starts ≡ p.starts
    calls : q.calls ≡ p.calls

  Step-IsSilent : {p q r : Polling A} → Step interval_ms q r → IsSilent p q → IsSilent p r
  unfolding settle stop
  Step-IsSilent (wait d) h = record {
    stopped = h.stopped;
    no_timer = h.no_timer;
    starts = h.starts;
    calls = h.calls;
  }
  Step-IsSilent (fire e l) h = absurd (let off = h.no_timer in cc)
  Step-IsSilent {p} (answer outcome disposes {p = q} e) h =
      going_as (λ x. IsSilent p (settle interval_ms outcome disposes x)) q h.stopped
        (record { stopped = refl; no_timer = h.no_timer; starts = h.starts; calls = h.calls })
  Step-IsSilent (dispose) h = record {
    stopped = refl;
    no_timer = refl;
    starts = h.starts;
    calls = h.calls;
  }

  Steps-IsSilent : {p q r : Polling A} → Steps interval_ms q r → IsSilent p q → IsSilent p r
  Steps-IsSilent done h = h
  Steps-IsSilent (later s x) h = Step-IsSilent x (Steps-IsSilent s h)

  -- Once disposed of, a poll calls neither the caller's function nor its callbacks again, even
  -- when the call that was in flight is answered.
  pub stop-Steps :
      (p : Polling A) {q : Polling A}
      → Steps interval_ms (stop p) q
      → (q.starts ≡ p.starts) × (q.calls ≡ p.calls)
  unfolding stop
  stop-Steps p s =
      let h =
        Steps-IsSilent {p = p} s
          (record { stopped = refl; no_timer = refl; starts = refl; calls = refl }) in
      (h.starts, h.calls)
