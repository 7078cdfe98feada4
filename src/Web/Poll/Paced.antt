-- ===== src/Web/Poll/Paced.antt =====
-- The pace of `poll` of web/src/lib/api.ts, in every state it can reach.
use entra_shift.Common.{ℕ, refl, arith}
use entra_shift.Web.Poll.{
  Polling, clamped, tick, settle, start, Step, wait, fire, answer, dispose, Steps, done, later,
  Reach,
}
use entra_shift.Web.Poll.Pace.{
  IsPaced, wait-IsPaced, stop-IsPaced, fire-IsPaced, deliver-IsResting, answered-IsResting,
  arm-IsPaced, Clear-self,
}

start-IsPaced : {A : Type 0} (i now : ℕ) → IsPaced {A = A} i (start now)
unfolding start tick
start-IsPaced i now = record {
  one = omega arith;
  going = λ _. refl;
  over = λ e. cc;
  due = tt;
  past = Clear-self now;
  spaced = tt;
}

module _ {A : Type 0} {interval_ms : ℕ} where
  Step-IsPaced :
      {p q : Polling A}
      → Step interval_ms p q
      → IsPaced (clamped interval_ms) p
      → IsPaced (clamped interval_ms) q
  unfolding settle
  Step-IsPaced (wait d {p}) h = wait-IsPaced _ d p h
  Step-IsPaced (fire {p} {t} e l) h = fire-IsPaced _ p t e l h
  Step-IsPaced (answer outcome disposes {p} {n} e) h =
      arm-IsPaced interval_ms _
        (deliver-IsResting _ outcome disposes _ (answered-IsResting _ p n e h))
  Step-IsPaced (dispose {p}) h = stop-IsPaced _ p h

  Steps-IsPaced :
      {p q : Polling A}
      → Steps interval_ms p q
      → IsPaced (clamped interval_ms) p
      → IsPaced (clamped interval_ms) q
  Steps-IsPaced done h = h
  Steps-IsPaced (later r s) h = Step-IsPaced s (Steps-IsPaced r h)

  pub Reach-IsPaced : {p : Polling A} → Reach interval_ms p → IsPaced (clamped interval_ms) p
  Reach-IsPaced r = Steps-IsPaced r.1 (start-IsPaced _ r.0)
