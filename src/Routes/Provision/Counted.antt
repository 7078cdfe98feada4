-- ===== src/Routes/Provision/Counted.antt =====
-- How many credentials a run of worker/src/routes/provision.ts stores.
use entra_shift.Common.{ℕ, ◌+◌, ◌≤◌, ◌≡◌, Bool, true, false, List, [], ◌∷◌, Text, length}
use entra_shift.App.{World}
use entra_shift.App.Triple.{Triple}
use entra_shift.Graph.{Graph}
use entra_shift.Routes.Provision.{Outcome, ProvisionResult, summary}

-- `k` credentials are stored, and at least `a` accounts have been created.
pub record Holds (k a : ℕ) (w : World) : Type 0 where
  pub credentials : length w.db.credentials ≡ k
  pub accounts : a ≤ length w.accounts

abbrev Any : World → Type 0
Any w = Unit

abbrev one : Bool → ℕ
one true = 1
one false = 0

-- What one round of the loop adds.
abbrev Adds : ℕ → ℕ → Outcome → World → Type 0
Adds k a r w = Holds (k + one r.is_done) (a + one r.is_done) w

-- How many of the rounds succeeded.
abbrev pub done : List Outcome → ℕ
done [] = 0
done (r ∷ rs) = one r.is_done + done rs

abbrev AddsAll : ℕ → ℕ → ℕ → List Outcome → World → Type 0
AddsAll k a n rs w = Holds (k + done rs) (a + done rs) w × (length rs ≡ n)

-- The answer counts every outcome, and those that succeeded.
record IsSummed (rs : List Outcome) : Type 0 where
  succeeded : length (summary rs).provisioned ≡ done rs
  total : length (summary rs).provisioned + length (summary rs).failed ≡ length rs

-- What a run adds to the tables: a credential for each user that the answer names as provisioned and
-- for no other, and at least as many accounts.
pub record IsCounted (ids : List Text) (w w' : World) (result : ProvisionResult) : Type 0 where
  pub stored : length w'.db.credentials ≡ length w.db.credentials + length result.provisioned
  pub created : length w.accounts + length result.provisioned ≤ length w'.accounts
  pub answered : length result.provisioned + length result.failed ≡ length ids
