-- ===== src/Routes/Config/Stored.antt =====
-- What PATCH /api/config (worker/src/routes/config.ts) has stored when it returns.
use entra_shift.Common.{
  ◌≡◌, refl, sym, ap, ◌∙◌, List, [], ◌∷◌, Option, none, some, Text, text_eq, text_eq_iff,
  text_eq_refl, All, Bool-cases, inl, inr,
}
use entra_shift.Contracts.{EngineConfig}
use entra_shift.Numbers.{Number, number_text}
use entra_shift.Db.ConfigTable.{ConfigMap, lookup, set_config_value}
use entra_shift.App.{World, App, Result, ok, err}
use entra_shift.App.Actions.{audit}
use entra_shift.App.Triple.{
  Triple, After, After-ok, pure-Triple, bind-Triple, then_Triple, gets_keep, act_keep, modify_keep,
  modify-Triple, throw_if_keep, throw_keep, option_Triple,
}
use entra_shift.Routes.Config.{
  Tunable, numeric_keys, Patch, field, is_below, in_bounds, change, change_all, get_config,
  patch_config,
}
use entra_shift.Routes.Config.Bounds.{kept, lookup-set_config_value}

-- A key that the body holds has a number in it, and the text of that number is stored.
pub record IsStored (body : Patch) (rows : ConfigMap) (t : Tunable) : Type 0 where
  pub stored :
      (value : Option Number)
      → field t.key body ≡ some value
      → (n : Number) × (value ≡ some n) × (lookup t.key rows ≡ some (number_text n))

in_bounds-same :
    (t : Tunable) (o : Option Number) (n : Number) → in_bounds t o ≡ some n → o ≡ some n
in_bounds-same t none n e = cc
in_bounds-same t (some m) n e =
    let (same, _, _) = kept (is_below m t.least) (is_below t.most m) m n e in ap some same

abbrev Any : World → Type 0
Any w = Unit

and_Triple :
    {A : Type 0} {P P' : World → Type 0} {m : App A} {Q Q' : A → World → Type 0}
    → Triple Any P m Q
    → Triple Any P' m Q'
    → Triple Any (λ w. P w × P' w) m (λ a w. Q a w × Q' a w)
and_Triple {A} {m} {Q} {Q'} s t = record {
  at = λ w h. go (m w).0 (m w).1 (s.at w h.0) (t.at w h.1);
}
  where
    go :
        (r : Result A) (w : World)
        → After Any Q r w
        → After Any Q' r w
        → After Any (λ a w. Q a w × Q' a w) r w
    go (ok a) w h k = (h, k)
    go (err e) w h k = tt

with_Triple :
    {A : Type 0} {P : World → Type 0} {m : App A} {Q Q' : World → Type 0}
    → Triple Any P m (λ _. Q)
    → ((w : World) → Q w → Q' w)
    → Triple Any P m (λ _. Q')
with_Triple {A} {m} {Q} {Q'} t f = record { at = λ w h. go (m w).0 (m w).1 (t.at w h) }
  where
    go : (r : Result A) (w : World) → After Any (λ _. Q) r w → After Any (λ _. Q') r w
    go (ok a) w h = f w h
    go (err e) w h = tt

module _ (body : Patch) where
  absent-IsStored :
      (t : Tunable) (rows : ConfigMap) → field t.key body ≡ none → IsStored body rows t
  absent-IsStored t rows absent = record { stored = λ value f. cc }

  set-IsStored :
      (t t' : Tunable) (n' : Number) (rows : ConfigMap)
      → field t'.key body ≡ some (some n')
      → IsStored body rows t
      → IsStored body (set_config_value t'.key (number_text n') rows) t
  set-IsStored t t' n' rows e h = record {
    stored = λ value f. elim (Bool-cases (text_eq t'.key t.key)) [
      | inl same ↦
          let here : some (some n') ≡ some value =
            sym e ∙ ap (λ k. field k body) ((text_eq_iff t'.key t.key).0 same) ∙ f in
          (n', cc, lookup-set_config_value t.key t'.key _ rows ∙ rw same refl)
      | inr other ↦
          let (n, g, l) = h.stored value f in
          (n, g, lookup-set_config_value t.key t'.key _ rows ∙ rw other l)
    ];
  }

  new-IsStored :
      (t : Tunable) (n : Number) (rows : ConfigMap)
      → field t.key body ≡ some (some n)
      → IsStored body (set_config_value t.key (number_text n) rows) t
  new-IsStored t n rows e = record {
    stored = λ value f.
        let same : value ≡ some n = cc in
        (n, same, lookup-set_config_value t.key t.key _ rows ∙ rw (text_eq_refl t.key) refl);
  }

  abbrev Has : Tunable → World → Type 0
  Has t w = IsStored body w.db.config t

  change-keeps :
      (t t' : Tunable) (value : Option Number)
      → field t'.key body ≡ some value
      → Triple Any (Has t) (change t' value) (λ _. Has t)
  unfolding change
  change-keeps t t' value f =
      option_Triple (in_bounds t' value) (λ _. throw_keep _ (λ w h. tt))
        (λ n e.
          then_Triple
            (modify_keep _ (λ w h.
              set-IsStored t t' n w.db.config (f ∙ ap some (in_bounds-same t' value n e)) h))
            (λ _. pure-Triple _ (λ w h. h)))

  change-sets :
      (t : Tunable) (value : Option Number)
      → field t.key body ≡ some value
      → Triple Any Any (change t value) (λ _. Has t)
  unfolding change
  change-sets t value f =
      option_Triple (in_bounds t value) (λ _. throw_keep _ (λ w h. tt))
        (λ n e.
          bind-Triple (λ _. Has t)
            (modify-Triple _
              (λ w h. new-IsStored t n w.db.config (f ∙ ap some (in_bounds-same t value n e))))
            (λ _. pure-Triple _ (λ w h. h)))

  change_all-keeps :
      (t : Tunable) (ts : List Tunable) → Triple Any (Has t) (change_all ts body) (λ _. Has t)
  unfolding change_all
  change_all-keeps t [] = pure-Triple [] (λ w h. h)
  change_all-keeps t (t' ∷ ts) =
      option_Triple (field t'.key body) (λ _. change_all-keeps t ts)
        (λ value f.
          then_Triple (change-keeps t t' value f)
            (λ here. then_Triple (change_all-keeps t ts) (λ later. pure-Triple _ (λ w h. h))))

  abbrev HasAll : List Tunable → World → Type 0
  HasAll ts w = All (IsStored body w.db.config) ts

  change_all-sets : (ts : List Tunable) → Triple Any Any (change_all ts body) (λ _. HasAll ts)
  unfolding change_all
  change_all-sets [] = pure-Triple [] (λ w h. tt)
  change_all-sets (t ∷ ts) =
      option_Triple (field t.key body)
        (λ absent.
          with_Triple (change_all-sets ts) (λ w h. (absent-IsStored t w.db.config absent, h)))
        (λ value f.
          bind-Triple (λ _. Has t) (change-sets t value f)
            (λ here.
              bind-Triple (λ _ w. Has t w × HasAll ts w)
                (record {
                  at =
                      λ w h. (and_Triple (change_all-keeps t ts) (change_all-sets ts)).at w (h, tt);
                })
                (λ later. pure-Triple _ (λ w h. h))))

  patch_config-Triple :
      (actor : Text) → Triple Any Any (patch_config actor body) (λ _. HasAll numeric_keys)
  unfolding patch_config get_config audit
  patch_config-Triple actor =
      bind-Triple (λ _. HasAll numeric_keys) (change_all-sets numeric_keys)
        (λ changed. then_Triple (throw_if_keep _ _ (λ w h. tt)) (λ _.
          then_Triple (modify_keep _ (λ w h. h)) (λ _.
            then_Triple
              (then_Triple (act_keep _ (λ w h. h))
                (λ _. then_Triple (gets_keep _) (λ now. modify_keep _ (λ w h. h))))
              (λ _. then_Triple (modify_keep _ (λ w h. h)) (λ _. gets_keep _)))))

-- When a PATCH returns, every tunable that its body holds was given a number, and the text of that
-- number is what is stored for it.
pub patch_config-IsStored :
    (actor : Text) (body : Patch) (w : World) (answer : EngineConfig × Option Number)
    → (patch_config actor body w).0 ≡ ok answer
    → All (IsStored body (patch_config actor body w).1.db.config) numeric_keys
patch_config-IsStored actor body w answer e =
    let r = patch_config actor body w in
    After-ok Any (λ _. HasAll body numeric_keys) r.0 r.1 ((patch_config-Triple body actor).at w tt)
      e
