-- ===== src/Web/Discovery.antt =====
-- web/src/screens/UserDiscovery.tsx: the state of the screen, what its controls do, and the list that
-- it sends. The toasts are left out, and the server
-- answers an addition before anything else happens on the screen.
pub mod Adds
pub mod Tidy
pub mod Queued
use entra_shift.Common.{
  ℕ, Bool, true, false, not, ◌&&◌, ◌||◌, List, [], ◌∷◌, ◌++◌, Option, none, some, Text, text_eq,
  units, find, select, any, is_empty, is_some, or_else, if◌then◌else◌, map, ◌≡◌,
}
use entra_shift.Contracts.{unmapped}
use entra_shift.Routes.Users.{PartialUser}
use entra_shift.Web.Page.{ApiErrorCode}

pub record DiscoveredUser : Type 0 where
  pub id : Text
  pub display_name : Text
  pub user_principal_name : Text
  pub mail : Option Text
  pub account_enabled : Bool

pub record Selection : Type 0 where
  pub exchange : Bool
  pub onedrive : Bool
  pub archive : Bool

pub data Key : Type 0 where
  exchange onedrive archive : Key

-- `selection`, by the ids of the users, in the order in which they were first touched.
abbrev pub Selections : Type 0
Selections = List (Text × Selection)

pub record Screen : Type 0 where
  pub users : List DiscoveredUser
  pub cursor : Option Text
  pub loading : Bool
  pub load_error : Option Text
  pub selection : Selections
  pub adding : Bool

abbrev nothing : Selection
nothing = record { exchange = false; onedrive = false; archive = false }

unfoldable pub lookup : Text → Selections → Option Selection
lookup id [] = none
lookup id ((k, s) ∷ rest) = let found = lookup id rest in if text_eq k id then some s else found

-- `{ ...prev, [id]: next }`.
unfoldable pub put : Text → Selection → Selections → Selections
put id next [] = (id, next) ∷ []
put id next ((k, s) ∷ rest) =
    let later = put id next rest in if text_eq k id then (k, next) ∷ rest else (k, s) ∷ later

abbrev pub flip : Key → Selection → Selection
flip exchange s = record s { exchange = not s.exchange }
flip onedrive s = record s { onedrive = not s.onedrive }
flip archive s = record s { archive = not s.archive }

-- Without the mailbox there is no archive.
abbrev pub tidy : Key → Selection → Selection
tidy exchange s = if s.exchange then s else record s { archive = false }
tidy _ s = s

unfoldable pub toggle : Text → Key → Selections → Selections
toggle id key prev = put id (tidy key (flip key (or_else (lookup id prev) nothing))) prev

abbrev pub is_selected : Selection → Bool
is_selected s = s.exchange || s.onedrive

abbrev is_on : Option Selection → Bool
is_on none = false
is_on (some s) = is_selected s

-- The check box of a row.
unfoldable pub toggle_row : Text → Selections → Selections
toggle_row id prev =
    let on = not (is_on (lookup id prev)) in
    put id (record { exchange = on; onedrive = on; archive = false }) prev

-- Whether the control of a row is enabled: the archive's only with the mailbox.
abbrev pub is_enabled : Key → Option Selection → Bool
is_enabled archive none = false
is_enabled archive (some s) = s.exchange
is_enabled _ _ = true

abbrev pub selected_rows : Selections → Selections
selected_rows = select (λ r. is_selected r.1)

-- `users.find((x) => x.id === id)`.
abbrev pub listed : Text → List DiscoveredUser → Option DiscoveredUser
listed id = find (λ u. text_eq u.id id)

abbrev pub payload_row : DiscoveredUser → Selection → PartialUser
payload_row u s = record {
  id = none;
  source_email = some u.user_principal_name;
  target_email = none;
  target_upn = none;
  migrate_exchange = some s.exchange;
  migrate_one_drive = some s.onedrive;
  auto_create_target = some false;
  include_archive = some s.archive;
  mapping_status = some unmapped;
}

abbrev cons_row :
    Selection → Option DiscoveredUser → Option (List PartialUser) → Option (List PartialUser)
cons_row s (some u) (some rest) = some (payload_row u s ∷ rest)
cons_row s _ _ = none

-- `selectedRows.map(…)`, which throws where a selected user is not listed.
unfoldable pub payload : List DiscoveredUser → Selections → Option (List PartialUser)
payload users [] = some []
payload users ((id, s) ∷ rows) = cons_row s (listed id users) (payload users rows)

-- The screen after `usersApi.add`, by whether it succeeded.
abbrev pub answered : Bool → Screen → Screen
answered true s = record s { selection = []; adding = false }
answered false s = record s { adding = false }

abbrev pub sending : (List PartialUser → Bool) → Option (List PartialUser) → Screen → Screen
sending add none s = s
sending add (some rows) s = answered (add rows) s

-- `addSelected`, where `add` says whether the server takes the list. A throw in the payload leaves
-- the function before its `try`.
unfoldable pub add_selected : (List PartialUser → Bool) → Screen → Screen
add_selected add s =
    let rows = selected_rows s.selection in
    if is_empty rows then s else sending add (payload s.users rows) (record s { adding = true })

-- The start of a search.
unfoldable pub start_search : Screen → Screen
start_search s = record s { loading = true; load_error = none }

-- A page of a new search, and one that follows.
unfoldable pub show_page : List DiscoveredUser → Option Text → Screen → Screen
show_page items cursor s = record s { users = items; cursor = cursor; loading = false }

abbrev pub has_more : Option Text → Bool
has_more (some (_ ∷ _)) = true
has_more _ = false

unfoldable pub load_more : List DiscoveredUser → Option Text → Screen → Screen
load_more items cursor s =
    if has_more s.cursor then record s { users = s.users ++ items; cursor = cursor } else s

-- A search that failed.
unfoldable pub show_error : Option ApiErrorCode → Screen → Screen
show_error code s = record s {
  users = [];
  loading = false;
  load_error = some (
      if text_eq (or_else code []) (units "not_found")
      then units "Connect and verify a source tenant before discovering users."
      else units "Could not reach the directory. Verify the source tenant connection.");
}

unfoldable pub initial : Screen
initial = record {
  users = [];
  cursor = none;
  loading = true;
  load_error = none;
  selection = [];
  adding = false;
}

-- What the engineer and the server do to the screen.
pub data Step : Screen → Screen → Type 0 where
  toggled :
      (id : Text) (key : Key) {s : Screen}
      → is_enabled key (lookup id s.selection) ≡ true
      → Step s (record s { selection = toggle id key s.selection })
  row_toggled :
      (id : Text) {s : Screen} → Step s (record s { selection = toggle_row id s.selection })
  added : (add : List PartialUser → Bool) {s : Screen} → Step s (add_selected add s)
  searched : {s : Screen} → Step s (start_search s)
  paged :
      (items : List DiscoveredUser) (cursor : Option Text) {s : Screen}
      → Step s (show_page items cursor s)
  continued :
      (items : List DiscoveredUser) (cursor : Option Text) {s : Screen}
      → Step s (load_more items cursor s)
  refused : (code : Option ApiErrorCode) {s : Screen} → Step s (show_error code s)

pub data Reach : Screen → Type 0 where
  opened : Reach initial
  later : {s t : Screen} → Reach s → Step s t → Reach t
