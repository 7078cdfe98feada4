-- ===== src/Web/Settled.antt =====
-- How a promise of web/src/lib ends.
use entra_shift.Common.{Text}

-- A rejection by an aborted signal has a name of its own, which the code tests.
pub data Settled (A : Type 0) : Type 0 where
  resolved : A → Settled A
  rejected : Text → Settled A
  aborted : Settled A
