-- ===== src/Web/Discovery/Tidy.antt =====
-- What every state of web/src/screens/UserDiscovery.tsx keeps.
use entra_shift.Common.{
  Bool, true, false, not, List, [], ◌∷◌, ◌++◌, Option, none, some, Text, is_empty, ◌≡◌, refl,
  if◌then◌else◌, text_eq, or_else,
}
use mathlib.Core.Path.{subst}
use entra_shift.Routes.Users.{PartialUser}
use entra_shift.Web.Discovery.{
  DiscoveredUser, Selection, Key, exchange, onedrive, archive, Selections, Screen, lookup, put,
  flip, tidy, toggle, toggle_row, is_enabled, selected_rows, payload, add_selected, answered,
  sending, show_page, start_search, searched, load_more, has_more, show_error, initial, toggled,
  row_toggled, added, paged, continued, refused, Reach, opened, later,
}

-- An archive goes only with its mailbox.
abbrev pub IsTidy : Selection → Type 0
IsTidy s = s.archive ≡ true → s.exchange ≡ true

abbrev pub AreTidy : Selections → Type 0
AreTidy [] = Unit
AreTidy ((k, s) ∷ rest) = IsTidy s × AreTidy rest

put-AreTidy :
    (id : Text) (next : Selection) (l : Selections)
    → IsTidy next
    → AreTidy l
    → AreTidy (put id next l)
unfolding put
put-AreTidy id next [] n h = (n, tt)
put-AreTidy id next ((k, s) ∷ rest) n h = go (put-AreTidy id next rest n h.1) (text_eq k id)
  where
    go :
        AreTidy (put id next rest)
        → (b : Bool) → AreTidy (if b then (k, next) ∷ rest else (k, s) ∷ put id next rest)
    go kept true = (n, h.1)
    go kept false = (h.0, kept)

lookup-IsTidy :
    (id : Text) (l : Selections) (s : Selection) → AreTidy l → lookup id l ≡ some s → IsTidy s
unfolding lookup
lookup-IsTidy id [] s h e = cc
lookup-IsTidy id ((k, t) ∷ rest) s h e = go (lookup-IsTidy id rest s h.1) (text_eq k id) e
  where
    go :
        (lookup id rest ≡ some s → IsTidy s)
        → (b : Bool) → (if b then some t else lookup id rest) ≡ some s
        → IsTidy s
    go kept true e' = let same : t ≡ s = cc in subst IsTidy same h.0
    go kept false e' = kept e'

tidy-IsTidy :
    (key : Key) (o : Option Selection)
    → ((s : Selection) → o ≡ some s → IsTidy s)
    → is_enabled key o ≡ true
    → IsTidy (
        tidy key
          (flip key (or_else o (record { exchange = false; onedrive = false; archive = false }))))
tidy-IsTidy exchange none h e a = cc
tidy-IsTidy exchange (some s) h e a = go s.exchange a
  where
    go :
        (x : Bool)
        → IsTidy (
            if not x
            then record s { exchange = not x }
            else record { exchange = not x; onedrive = s.onedrive; archive = false })
    go true a = cc
    go false a = refl
tidy-IsTidy onedrive none h e a = cc
tidy-IsTidy onedrive (some s) h e a = h s refl a
tidy-IsTidy archive none h e a = cc
tidy-IsTidy archive (some s) h e a = e

toggle-AreTidy :
    (id : Text) (key : Key) (l : Selections)
    → is_enabled key (lookup id l) ≡ true
    → AreTidy l
    → AreTidy (toggle id key l)
unfolding toggle
toggle-AreTidy id key l on h =
    put-AreTidy id _ l (tidy-IsTidy key (lookup id l) (λ s e. lookup-IsTidy id l s h e) on) h

toggle_row-AreTidy : (id : Text) (l : Selections) → AreTidy l → AreTidy (toggle_row id l)
unfolding toggle_row
toggle_row-AreTidy id l h = put-AreTidy id _ l (λ a. cc) h

add_selected-AreTidy :
    (add : List PartialUser → Bool) (s : Screen)
    → AreTidy s.selection
    → AreTidy (add_selected add s).selection
unfolding add_selected
add_selected-AreTidy add s h =
    go (is_empty (selected_rows s.selection)) (payload s.users (selected_rows s.selection))
  where
    busy : Screen
    busy = record s { adding = true }

    go :
        (b : Bool) (o : Option (List PartialUser))
        → AreTidy (if b then s else sending add o busy).selection
    go true o = h
    go false none = h
    go false (some rows) = over (add rows)
      where
        over : (c : Bool) → AreTidy (answered c busy).selection
        over true = tt
        over false = h

load_more-AreTidy :
    (items : List DiscoveredUser) (cursor : Option Text) (s : Screen)
    → AreTidy s.selection
    → AreTidy (load_more items cursor s).selection
unfolding load_more
load_more-AreTidy items cursor s h = go (has_more s.cursor)
  where
    go :
        (b : Bool)
        → AreTidy
            (if b then record s { users = s.users ++ items; cursor = cursor } else s).selection
    go true = h
    go false = h

pub Reach-AreTidy : {s : Screen} → Reach s → AreTidy s.selection
unfolding initial start_search show_page show_error
Reach-AreTidy opened = tt
Reach-AreTidy (later r (toggled id key {s} on)) =
    toggle-AreTidy id key s.selection on (Reach-AreTidy r)
Reach-AreTidy (later r (row_toggled id {s})) = toggle_row-AreTidy id s.selection (Reach-AreTidy r)
Reach-AreTidy (later r (added add {s})) = add_selected-AreTidy add s (Reach-AreTidy r)
Reach-AreTidy (later r searched) = Reach-AreTidy r
Reach-AreTidy (later r (paged items cursor)) = Reach-AreTidy r
Reach-AreTidy (later r (continued items cursor {s})) =
    load_more-AreTidy items cursor s (Reach-AreTidy r)
Reach-AreTidy (later r (refused code)) = Reach-AreTidy r
