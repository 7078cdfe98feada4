-- ===== src/Web/Loading/Latest.antt =====
-- What `useAsync` of web/src/lib/useAsync.ts shows, in every order of the loads' ends.
use entra_shift.Common.{
  ℕ, suc, Bool, true, false, List, [], ◌∷◌, none, some, ◌≡◌, refl, sym, ◌==◌, any, delete,
  if◌then◌else◌, Bool-cases, inl, inr, ◌⊎◌, arith, eq_self, ◌∙◌, ◌≢◌,
}
use mathlib.Core.Path.{subst}
use entra_shift.Web.Settled.{Settled, resolved, rejected, aborted}
use entra_shift.Web.Loading.{
  Loading, is_run, is_active, mounted, effect, clean_up, shown, settle, Step, run, end, leave,
  Reach, first, later,
}

any_other :
    (k j : ℕ) (runs : List ℕ)
    → (k == j) ≡ false
    → any (is_run k) (delete (is_run j) runs) ≡ any (is_run k) runs
any_other k j [] e = refl
any_other k j (x ∷ runs) e = let ih = any_other k j runs e in ground arith

any_deleted : (k : ℕ) (runs : List ℕ) → any (is_run k) (delete (is_run k) runs) ≡ false
any_deleted k [] = refl
any_deleted k (x ∷ runs) = let ih = any_deleted k runs in ground arith

-- What stands on the screen once the promise of the run that counts has ended.
abbrev pub Shows : {A : Type 0} → Settled A → Loading A → Type 0
Shows (resolved a) s = (s.loading ≡ false) × (s.error ≡ none) × (s.value ≡ some a)
Shows (rejected e) s = (s.loading ≡ false) × (s.error ≡ some e)
Shows aborted s = (s.loading ≡ true) × (s.error ≡ none)

-- The run that counts is waited for, without an error, or what it came to is shown.
abbrev pub Phase : {A : Type 0} → Settled A → ℕ → Loading A → Type 0
Phase outcome k s =
    ((any (is_run k) s.unsettled ≡ true) × (s.loading ≡ true) × (s.error ≡ none))
    ⊎ ((any (is_run k) s.unsettled ≡ false) × Shows outcome s)

module _ {A : Type 0} where
  record IsLatest (ends : ℕ → Settled A) (s : Loading A) : Type 0 where
    newest : (k : ℕ) → s.active ≡ some k → suc k ≡ s.next
    phase : (k : ℕ) → s.active ≡ some k → Phase (ends k) k s

  effect-IsLatest : (ends : ℕ → Settled A) (s : Loading A) → IsLatest ends (effect s)
  unfolding effect
  effect-IsLatest ends s = record {
    newest = λ k e. cc;
    phase = λ k e. inl (let newest : s.next ≡ k = cc in ground arith, refl, refl);
  }

  settle_as :
      (k : ℕ) (outcome : Settled A) (s : Loading A) (b : Bool)
      → is_active s.active k ≡ b
      → let rest : Loading A = record s { unsettled = delete (is_run k) s.unsettled } in
        settle k outcome s ≡ (if b then shown outcome rest else rest)
  unfolding settle
  settle_as k outcome s b e = rw e

  Shows-rest :
      (outcome : Settled A) (s : Loading A) (runs : List ℕ)
      → Shows outcome s
      → Shows outcome (record s { unsettled = runs })
  Shows-rest (resolved a) s runs h = h
  Shows-rest (rejected x) s runs h = h
  Shows-rest aborted s runs h = h

  shown-Shows :
      (outcome : Settled A) (s : Loading A)
      → s.loading ≡ true
      → s.error ≡ none
      → Shows outcome (shown outcome s)
  shown-Shows (resolved a) s l e = (refl, e, refl)
  shown-Shows (rejected x) s l e = (refl, refl)
  shown-Shows aborted s l e = (l, e)

  shown-unsettled :
      (outcome : Settled A) (s : Loading A) → (shown outcome s).unsettled ≡ s.unsettled
  shown-unsettled (resolved a) s = refl
  shown-unsettled (rejected x) s = refl
  shown-unsettled aborted s = refl

  -- The end of the run that counts.
  end_active :
      (outcome : Settled A) (k : ℕ) (s : Loading A)
      → s.active ≡ some k
      → any (is_run k) s.unsettled ≡ true
      → Phase outcome k s
      → Phase outcome k (settle k outcome s)
  end_active outcome k s e waits (inr h) = absurd (let gone = h.0 in cc)
  end_active outcome k s e waits (inl h) =
      let rest : Loading A = record s { unsettled = delete (is_run k) s.unsettled } in
      subst (Phase outcome k)
        (sym (settle_as k outcome s true (subst (λ o. is_active o k ≡ true) (sym e) (eq_self k))))
        (inr (
          subst (λ u. any (is_run k) u ≡ false) (sym (shown-unsettled outcome rest))
              (any_deleted k s.unsettled),
          shown-Shows outcome rest h.1 h.2,
        ))

  -- The end of another run.
  end_other :
      (outcome other : Settled A) (k j : ℕ) (s : Loading A)
      → s.active ≡ some k
      → (k == j) ≡ false
      → Phase outcome k s
      → Phase outcome k (settle j other s)
  end_other outcome other k j s e d h =
      subst (Phase outcome k)
        (sym
          (settle_as j other s false (subst (λ o. is_active o j ≡ false) (sym e) (ground arith))))
        (go h)
    where
      go :
          Phase outcome k s
          → Phase outcome k (record s { unsettled = delete (is_run j) s.unsettled })
      go (inl x) = inl (rw (any_other k j s.unsettled d, x.0), x.1, x.2)
      go (inr x) = inr (rw (any_other k j s.unsettled d, x.0), Shows-rest outcome s _ x.1)

  settle-fields :
      (k : ℕ) (outcome : Settled A) (s : Loading A)
      → ((settle k outcome s).active ≡ s.active)
        × ((settle k outcome s).next ≡ s.next)
        × ((settle k outcome s).unsettled ≡ delete (is_run k) s.unsettled)
  unfolding settle
  settle-fields k outcome s = go outcome (is_active s.active k)
    where
      go :
          (o : Settled A) (b : Bool)
          → let rest : Loading A = record s { unsettled = delete (is_run k) s.unsettled } in
            let t : Loading A = if b then shown o rest else rest in
            (t.active ≡ s.active)
            × (t.next ≡ s.next)
            × (t.unsettled ≡ delete (is_run k) s.unsettled)
      go o false = (refl, refl, refl)
      go (resolved a) true = (refl, refl, refl)
      go (rejected x) true = (refl, refl, refl)
      go aborted true = (refl, refl, refl)

  Step-IsLatest :
      {ends : ℕ → Settled A} {s t : Loading A} → Step ends s t → IsLatest ends s → IsLatest ends t
  unfolding clean_up
  Step-IsLatest {ends} (run {s}) h = effect-IsLatest ends s
  Step-IsLatest {ends} (end j {s} waits) h = record {
    newest = λ k e. h.newest k (sym same.0 ∙ e) ∙ sym same.1;
    phase = λ k e. go k (sym same.0 ∙ e) (Bool-cases (k == j));
  }
    where
      same : ((settle j (ends j) s).active ≡ s.active) × ((settle j (ends j) s).next ≡ s.next)
      same = let f = settle-fields j (ends j) s in (f.0, f.1)

      go :
          (k : ℕ)
          → s.active ≡ some k
          → ((k == j) ≡ true) ⊎ ((k == j) ≡ false)
          → Phase (ends k) k (settle j (ends j) s)
      go k e (inl q) =
          let is : j ≡ k = ground arith in
          subst (λ i. Phase (ends k) k (settle i (ends i) s)) (sym is)
            (end_active (ends k) k s e (subst (λ i. any (is_run i) s.unsettled ≡ true) is waits)
              (h.phase k e))
      go k e (inr q) = end_other (ends k) (ends j) k j s e q (h.phase k e)
  Step-IsLatest leave h = record { newest = λ k e. cc; phase = λ k e. cc }

  Reach-IsLatest : {ends : ℕ → Settled A} {s : Loading A} → Reach ends s → IsLatest ends s
  unfolding mounted
  Reach-IsLatest first = record { newest = λ k e. cc; phase = λ k e. cc }
  Reach-IsLatest (later r x) = Step-IsLatest x (Reach-IsLatest r)

  pub Reach-Phase :
      {ends : ℕ → Settled A} {s : Loading A} {k : ℕ}
      → Reach ends s
      → s.active ≡ some k
      → (suc k ≡ s.next) × Phase (ends k) k s
  Reach-Phase {k = k} r e = let latest = Reach-IsLatest r in (latest.newest k e, latest.phase k e)

  -- The loading state ends: from any state it can reach, once the load of the run that counts ends
  -- other than by an abort, the screen is no longer loading and that run still counts.
  pub Reach-ends :
      {ends : ℕ → Settled A} {s : Loading A} {k : ℕ}
      → Reach ends s
      → s.active ≡ some k
      → ends k ≢ aborted
      → (t : Loading A) × Reach ends t × (t.active ≡ some k) × (t.loading ≡ false)
  Reach-ends {ends} {s} {k} r e live = go (Reach-Phase r e).1
    where
      ended : (o : Settled A) (t : Loading A) → o ≢ aborted → Shows o t → t.loading ≡ false
      ended (resolved a) t d x = x.0
      ended (rejected y) t d x = x.0
      ended aborted t d x = absurd (d refl)

      out :
          (t : Loading A)
          → Phase (ends k) k t
          → any (is_run k) t.unsettled ≡ false
          → t.loading ≡ false
      out t (inl x) gone = absurd (let here = x.0 in cc)
      out t (inr x) gone = ended (ends k) t live x.1

      go :
          Phase (ends k) k s
          → (t : Loading A) × Reach ends t × (t.active ≡ some k) × (t.loading ≡ false)
      go (inr x) = (s, r, e, ended (ends k) s live x.1)
      go (inl x) =
          let t = settle k (ends k) s in
          let same = settle-fields k (ends k) s in
          let after = later r (end k x.0) in
          let counts = same.0 ∙ e in
          (
            t,
            after,
            counts,
            out t (Reach-Phase after counts).1
                (subst (λ u. any (is_run k) u ≡ false) (sym same.2) (any_deleted k s.unsettled)),
          )
