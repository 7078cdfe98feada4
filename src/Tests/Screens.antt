-- ===== src/Tests/Screens.antt =====
-- The screens at concrete inputs: web/src/screens.
use entra_shift.Common.{Text, Option, true, false, [], ◌∷◌, none, ◌≡◌}
use entra_shift.Contracts.{cancelled}
use entra_shift.App.{World}
use entra_shift.Web.Discovery.{DiscoveredUser, Selection, Screen, initial, toggle_row, show_page}
use entra_shift.Db.Jobs.{JobRow}
use entra_shift.Routes.Mapping.{patch_mapping}
use entra_shift.Web.Mapping.{set_auto_create, auto_create_count}
use entra_shift.Web.Mapping.AutoCreate.{switches, set_auto_create-switches}
use entra_shift.Tests.Samples.{sample_world, sample_db, sample_job, sample_user}

abbrev found_user : DiscoveredUser
found_user = record {
  id = b'u' ∷ [];
  display_name = b'U' ∷ [];
  user_principal_name = b'u' ∷ b'@' ∷ b's' ∷ [];
  mail = none;
  account_enabled = true;
}

abbrev listed_screen : Screen
listed_screen = show_page (found_user ∷ []) none initial

abbrev chosen_screen : Screen
chosen_screen = record listed_screen { selection = toggle_row (b'u' ∷ []) listed_screen.selection }

abbrev both : Selection
both = record { exchange = true; onedrive = true; archive = false }

-- A search for someone else, with the first user still selected.
abbrev lost_screen : Screen
lost_screen = show_page [] none chosen_screen

-- A job that was cancelled.
abbrev cancelled_job : JobRow
cancelled_job = record sample_job { status = cancelled }

abbrev cancelled_world : World
cancelled_world = record sample_world { db = record sample_db { jobs = cancelled_job ∷ [] } }

-- The directory that finds nobody.
abbrev finds_nobody : Text → Option Text
finds_nobody email = none

set_auto_create-switches_example :
    let w' =
      (patch_mapping finds_nobody []
        (b'm' ∷ [])
        (set_auto_create sample_user true)
        sample_world).1 in
    (switches w'.db.users ≡ (b'm' ∷ [], false) ∷ [])
    × (auto_create_count w'.db.users ≡ auto_create_count sample_world.db.users)
set_auto_create-switches_example =
    set_auto_create-switches finds_nobody [] sample_user true sample_world
