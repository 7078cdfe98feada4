-- ===== src/Web/Loading.antt =====
-- `useAsync` of web/src/lib/useAsync.ts: the state of the hook, its effect, the effect's clean-up and
-- the ends of the loads, in any order, as a state machine.
pub mod Latest
use entra_shift.Common.{
  ℕ, suc, Bool, true, false, List, [], ◌∷◌, Option, none, some, Text, ◌≡◌, ◌==◌, any, delete,
  if◌then◌else◌,
}
use entra_shift.Web.Settled.{Settled, resolved, rejected, aborted}

-- The runs of the effect are numbered; `active` is the one whose flag is set, and `unsettled` has
-- those whose promise has not ended.
pub record Loading (A : Type 0) : Type 0 where
  pub value : Option A
  pub loading : Bool
  pub error : Option Text
  pub next : ℕ
  pub active : Option ℕ
  pub unsettled : List ℕ

abbrev pub is_run : ℕ → ℕ → Bool
is_run k j = k == j

abbrev pub is_active : Option ℕ → ℕ → Bool
is_active none k = false
is_active (some j) k = k == j

module _ {A : Type 0} where
  -- The component before its first effect.
  unfoldable pub mounted : Loading A
  mounted = record {
    value = none;
    loading = true;
    error = none;
    next = 0;
    active = none;
    unsettled = [];
  }

  -- The effect, which runs at first and when `deps` or the nonce of `reload` changed; the clean-up
  -- of the run before has then cleared that run's flag.
  unfoldable pub effect : Loading A → Loading A
  effect s = record {
    value = s.value;
    loading = true;
    error = none;
    next = suc s.next;
    active = some s.next;
    unsettled = s.next ∷ s.unsettled;
  }

  -- The clean-up when the component goes.
  unfoldable pub clean_up : Loading A → Loading A
  clean_up s = record s { active = none }

  abbrev pub shown : Settled A → Loading A → Loading A
  shown (resolved a) s = record s { value = some a; loading = false }
  shown (rejected e) s = record s { error = some e; loading = false }
  shown aborted s = s

  -- The `then` and `catch` of the load of run `k`.
  unfoldable pub settle : ℕ → Settled A → Loading A → Loading A
  settle k outcome s =
      let rest : Loading A = record s { unsettled = delete (is_run k) s.unsettled } in
      if is_active s.active k then shown outcome rest else rest

  -- The loads end as `ends` says of each, in any order and at any time.
  pub data Step (ends : ℕ → Settled A) : Loading A → Loading A → Type 0 where
    run : {s : Loading A} → Step ends s (effect s)
    end :
        (k : ℕ) {s : Loading A}
        → (any (is_run k) s.unsettled ≡ true)
        → Step ends s (settle k (ends k) s)
    leave : {s : Loading A} → Step ends s (clean_up s)

  pub data Reach (ends : ℕ → Settled A) : Loading A → Type 0 where
    first : Reach ends mounted
    later : {s t : Loading A} → Reach ends s → Step ends s t → Reach ends t
