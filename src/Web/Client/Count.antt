-- ===== src/Web/Client/Count.antt =====
-- How much `request` of web/src/lib/api.ts sends.
use entra_shift.Common.{
  ℕ, suc, ◌+◌, ◌*◌, ◌≤◌, Bool, true, false, Option, none, List, [], ◌∷◌, length, select, Text, ◌≡◌,
  refl, ap, arith, if◌then◌else◌,
}
use entra_shift.Web.Page.{
  Method, get, post, patch, delete, is_unsafe, Sent, Fetched, aborted, unreachable, answered,
  Browser, Page, Client, ◌>>◌,
}
use entra_shift.Web.Client.{quietly, send, reached, remember, request, me_path, message}
use entra_shift.Web.Client.Rules.{
  After, Triple, bind-Triple, pure-Triple, modify-Triple, quietly-Triple, handle-Triple,
  lacks-Triple, After-same,
}

-- The requests of a kind, each of which costs one by its method.
module _ (b : Browser) (kind : Sent → Bool) (cost : Method → ℕ)
    (costs : (m : Sent) → (if kind m then 1 else 0) ≤ cost m.method) where
  abbrev count : Page → ℕ
  count p = length (select kind p.sent)

  abbrev Below : ℕ → Page → Type 0
  Below n p = count p ≤ n

  abbrev Spends : {A : Type 0} → ℕ → ℕ → ℕ → Client A → Type 0
  Spends c d top m = Triple (λ _. Below top) (Below c) m (λ _. Below d)

  counted :
      (m : Sent) (sent : List Sent)
      → length (select kind (m ∷ sent)) ≤ cost m.method + length (select kind sent)
  counted m sent = let h = costs m in ground arith

  send-Spends :
      (method : Method) (path : Text) (body : Option Text) (c top : ℕ)
      → c + cost method ≤ top
      → Spends c (c + cost method) top (send b method path body)
  unfolding send
  send-Spends method path body c top l = record {
    at = λ p h.
        let m = message b method path body p in
        go (b.fetch p.sent m) (record p { sent = m ∷ p.sent }) (omega (arith, counted m p.sent));
  }
    where
      go :
          (f : Fetched) (p : Page)
          → Below (c + cost method) p
          → After (λ _. Below top) (λ _. Below (c + cost method)) (reached f) p
      go aborted p h = omega arith
      go unreachable p h = omega arith
      go (answered res) p h = h

  -- One level: what comes first, the call, and what is done about a stale token.
  request-level :
      (n : ℕ) (is_retry : Bool) (method : Method) (path : Text) (body : Option Text) (c e d top : ℕ)
      → c ≤ e
      → e + cost method ≤ d
      → d ≤ top
      → (is_retry ≡ false
          → is_unsafe method ≡ true
          → Spends c e top (quietly (remember b (request b n false get me_path none)))
            × Spends (e + cost method) d top (
                quietly (remember b (request b n false get me_path none))
                >> request b n true method path body))
      → Spends c d top (request b (suc n) is_retry method path body)
  unfolding request
  request-level n is_retry method path body c e d top l m t k =
      bind-Triple (λ _. Below e)
        (lacks-Triple b _ is_retry method (λ p h. omega arith) (λ r u. (k r u).0))
        (λ _.
          bind-Triple (λ _. Below (e + cost method))
            (send-Spends method path body e top (omega arith))
            (λ res.
              handle-Triple b _ _ is_retry method path res (λ j p h. omega arith)
                (λ p h. omega arith) (λ x p h. omega arith)
                (λ x s.
                  bind-Triple (λ _. Below (e + cost method)) (modify-Triple _ (λ p h. h))
                    (λ _. (k (ground arith) (ground arith)).1))))

  request-leaf :
      (n : ℕ) (is_retry : Bool) (method : Method) (path : Text) (body : Option Text) (c top : ℕ)
      → (is_retry ≡ false → is_unsafe method ≡ false)
      → c + cost method ≤ top
      → Spends c (c + cost method) top (request b (suc n) is_retry method path body)
  request-leaf n is_retry method path body c top leaf l =
      request-level n is_retry method path body c c (c + cost method) top (omega arith)
        (omega arith) l (λ r u. absurd (let safe = leaf r in cc))

  me-Spends :
      (n c top : ℕ)
      → c + cost get ≤ top
      → Spends c
          (c + cost get)
          top
          (quietly (remember b (request b (suc n) false get me_path none)))
  me-Spends n c top l =
      quietly-Triple {F = λ _. Below (c + cost get)} {Q = λ _. Below (c + cost get)}
        (bind-Triple (λ _. Below (c + cost get))
          (request-leaf n false get me_path none c (c + cost get) (λ _. refl) (omega arith))
          (λ me.
            bind-Triple (λ _. Below (c + cost get)) (modify-Triple _ (λ p h. h))
              (λ _. pure-Triple me (λ p h. h))))
        (λ a p h. h) (λ x p d h. h) (λ p h. omega arith)

  request-Spends :
      (n : ℕ) (is_retry : Bool) (method : Method) (path : Text) (body : Option Text) (c : ℕ)
      → let d = c + 2 * (cost get + cost method) in
        Spends c d d (request b (suc (suc n)) is_retry method path body)
  request-Spends n is_retry method path body c =
      let d = c + 2 * (cost get + cost method) in
      let e = c + cost get in
      request-level (suc n) is_retry method path body c e d d (omega arith) (omega arith)
        (omega arith)
        (λ r u. (
          me-Spends n c d (omega arith),
          bind-Triple (λ _. Below (e + cost method + cost get))
              (me-Spends n (e + cost method) d (omega arith))
              (λ _.
                request-level n true method path body (e + cost method + cost get)
                  (e + cost method + cost get) d d (omega arith) (omega arith) (omega arith)
                  (λ r' u'. cc)),
        ))

select_all : (sent : List Sent) → length (select (λ _. true) sent) ≡ length sent
select_all [] = refl
select_all (m ∷ sent) = ap suc (select_all sent)

abbrev pub unsafe_sent : Sent → Bool
unsafe_sent m = is_unsafe m.method

unsafe_cost : Method → ℕ
unsafe_cost get = 0
unsafe_cost _ = 1

unsafe_costs : (m : Sent) → (if unsafe_sent m then 1 else 0) ≤ unsafe_cost m.method
unfolding unsafe_cost
unsafe_costs m = go m.method
  where
    go : (x : Method) → (if is_unsafe x then 1 else 0) ≤ unsafe_cost x
    go get = omega arith
    go post = omega arith
    go patch = omega arith
    go delete = omega arith

unsafe_cost_le : (method : Method) → unsafe_cost method ≤ 1
unfolding unsafe_cost
unsafe_cost_le get = omega arith
unsafe_cost_le post = omega arith
unsafe_cost_le patch = omega arith
unsafe_cost_le delete = omega arith

unsafe_cost_get : unsafe_cost get ≡ 0
unfolding unsafe_cost
unsafe_cost_get = refl

-- However the server answers, and whatever goes wrong, one `request` sends at most four messages,
-- of which at most two change the server's state: a refusal for a stale token is retried once.
pub request-sent :
    (b : Browser) (n : ℕ) (is_retry : Bool) (method : Method) (path : Text) (body : Option Text)
    (p : Page)
    → let q = (request b (suc (suc n)) is_retry method path body p).1 in
      (length q.sent ≤ length p.sent + 4)
      × (length (select unsafe_sent q.sent) ≤ length (select unsafe_sent p.sent) + 2)
request-sent b n is_retry method path body p =
    let o = request b (suc (suc n)) is_retry method path body p in
    let all =
      request-Spends b (λ _. true) (λ _. 1) (λ _. omega arith) n is_retry method path body
        (length (select (λ _. true) p.sent)) in
    let unsafe =
      request-Spends b unsafe_sent unsafe_cost unsafe_costs n is_retry method path body
        (length (select unsafe_sent p.sent)) in
    let few =
      After-same
        (λ q. length (select (λ _. true) q.sent) ≤ length (select (λ _. true) p.sent) + 2 * 2) o.0
        o.1 (all.at p (omega arith)) in
    let once =
      After-same
        (λ q.
          length (select unsafe_sent q.sent)
          ≤ length (select unsafe_sent p.sent) + 2 * (unsafe_cost get + unsafe_cost method))
        o.0 o.1 (unsafe.at p (omega arith)) in
    (
      omega (arith, few, select_all p.sent, select_all o.1.sent),
      omega (arith, once, unsafe_cost_get, unsafe_cost_le method),
    )
