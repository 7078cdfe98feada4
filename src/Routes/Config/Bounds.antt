-- ===== src/Routes/Config/Bounds.antt =====
-- The bounds of what PATCH /api/config (worker/src/routes/config.ts) stores.
use entra_shift.Common.{
  arith, ◌≡◌, refl, sym, ap, ◌∙◌, Bool, true, false, [], ◌∷◌, Option, none, some, Text, text_eq,
  text_eq_iff, find, Bool-cases, inl, inr, ◌||◌, if◌then◌else◌,
}
use entra_shift.Numbers.{Number, number_text}
use entra_shift.Db.ConfigTable.{ConfigMap, lookup, set_config_value}
use entra_shift.App.{World}
use entra_shift.Routes.Config.{Tunable, numeric_keys, is_below}

-- What the list of tunables says of a key.
abbrev pub bounds_of : Text → Option Tunable
bounds_of key = find (λ t. text_eq t.key key) numeric_keys

-- The text of a number within the bounds.
pub record Fits (t : Tunable) (stored : Text) : Type 0 where
  pub value : Number
  pub printed : number_text value ≡ stored
  pub above : is_below value t.least ≡ false
  pub below : is_below t.most value ≡ false

abbrev pub AreBounded : ConfigMap → Type 0
AreBounded rows =
    (key stored : Text) (t : Tunable)
    → bounds_of key ≡ some t
    → lookup key rows ≡ some stored
    → Fits t stored

abbrev IsListed : Tunable → Type 0
IsListed t = bounds_of t.key ≡ some t

set_same :
    (b c : Bool) (v v' : Text) (o : Option Text)
    → b ≡ c
    → (if b then some v else o) ≡ (if c then some v else (if b then some v' else o))
set_same b c v v' o e = ground arith

set_other :
    (b c : Bool) (v v' : Text) (o p : Option Text)
    → (b ≡ true → c ≡ true → ⊥)
    → o ≡ (if c then some v else p)
    → (if b then some v' else o) ≡ (if c then some v else (if b then some v' else p))
set_other true true v v' o p h e = absurd (h refl refl)
set_other true false v v' o p h e = refl
set_other false c v v' o p h e = e

pub lookup-set_config_value :
    (key k v : Text) (rows : ConfigMap)
    → lookup key (set_config_value k v rows) ≡ (if text_eq k key then some v else lookup key rows)
unfolding lookup set_config_value
lookup-set_config_value key k v [] = refl
lookup-set_config_value key k v ((k', v') ∷ rows) = elim (Bool-cases (text_eq k' k)) [
  | inl e ↦
      let same : text_eq k' key ≡ text_eq k key =
        ap (λ x. text_eq x key) ((text_eq_iff k' k).0 e) in
      rw e (set_same (text_eq k' key) (text_eq k key) v v' (lookup key rows) same)
  | inr e ↦ rw e (
      set_other (text_eq k' key) (text_eq k key) v v' _ (lookup key rows)
        (λ there here.
          let same : k' ≡ k = (text_eq_iff k' key).0 there ∙ sym ((text_eq_iff k key).0 here) in
          let yes = (text_eq_iff k' k).1 same in cc)
        (lookup-set_config_value key k v rows))
]

pub kept :
    (b c : Bool) (m n : Number)
    → (elim (b || c) as (λ _. Option Number) [ true ↦ none | false ↦ some m ]) ≡ some n
    → (m ≡ n) × (b ≡ false) × (c ≡ false)
kept true c m n e = cc
kept false true m n e = cc
kept false false m n e = (cc, refl, refl)

-- The settings of a world.
abbrev pub Bounded : World → Type 0
Bounded w = AreBounded w.db.config
