-- ===== src/Web/Endpoints/Guarded.antt =====
-- The calls of web/src/lib/api.ts and the guards of worker/src/routes/index.ts.
use entra_shift.Common.{false, Text, ◌≡◌}
use entra_shift.Db.Sessions.{SessionRecord}
use entra_shift.App.{World, App, ◌>>=◌}
use entra_shift.App.Triple.{Triple}
use entra_shift.Routes.Gate.{Caller, browser, is_vm_path, is_exempt}
use entra_shift.Web.Endpoints

abbrev Any : World → Type 0
Any w = Unit

abbrev Browsing : Caller → World → Type 0
Browsing c w = (s : SessionRecord) × (c ≡ browser s)

-- Neither guard of the engine's plane, nor the exemption.
abbrev IsGuarded : Text → Type 0
IsGuarded path = (is_vm_path path ≡ false) × (is_exempt path ≡ false)
