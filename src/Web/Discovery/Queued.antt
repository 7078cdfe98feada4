-- ===== src/Web/Discovery/Queued.antt =====
-- What web/src/screens/UserDiscovery.tsx sends, and what worker/src/routes/users.ts makes of it.
use entra_shift.Common.{true, false, List, [], ◌∷◌, is_empty, ◌≡◌}
use entra_shift.Contracts.{MigrationUser, unmapped}
use entra_shift.App.{World}
use entra_shift.App.Triple.{Triple}
use entra_shift.Routes.Jobs.{workloads_of}
use entra_shift.Web.Discovery.Tidy.{IsTidy}
use entra_shift.Web.Discovery.{DiscoveredUser, Selections, is_selected}

-- The directory's users have principal names.
abbrev pub AreNamed : List DiscoveredUser → Type 0
AreNamed [] = Unit
AreNamed (u ∷ us) = (is_empty u.user_principal_name ≡ false) × AreNamed us

abbrev AreChosen : Selections → Type 0
AreChosen [] = Unit
AreChosen ((k, s) ∷ rest) = IsTidy s × (is_selected s ≡ true) × AreChosen rest

-- A row of the queue that has something to migrate, the archive only with the mailbox, and is
-- still to be mapped.
pub record IsQueued (u : MigrationUser) : Type 0 where
  pub works : is_empty (workloads_of u) ≡ false
  pub with_mailbox : u.include_archive ≡ true → u.migrate_exchange ≡ true
  pub unmapped_yet : u.mapping_status ≡ unmapped

abbrev pub AreQueued : List MigrationUser → Type 0
AreQueued [] = Unit
AreQueued (u ∷ us) = IsQueued u × AreQueued us

abbrev Never : World → Type 0
Never w = ⊥

abbrev Always : World → Type 0
Always w = Unit
