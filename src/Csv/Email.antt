-- ===== src/Csv/Email.antt =====
-- worker/src/lib/csv.ts, `EMAIL_RE`: a matcher for /^[^\s@]+@[^\s@]+\.[^\s@]+$/, and what it decides.
use entra_shift.Common.{
  ℕ, ◌≡◌, ◌↔◌, refl, ap, inl, inr, Bool, true, false, not, ◌&&◌, ◌||◌, [], ◌∷◌, ◌++◌, arith, Text,
  is_space, ◌==◌, is_empty, All, Bool-cases,
}
use entra_shift.Csv.RoundTrip.{NonEmpty}

-- `[^\s@]`.
is_clean : ℕ → Bool
is_clean c = not (is_space c || c == b'@')

all_clean : Text → Bool
all_clean [] = true
all_clean (c ∷ s) = is_clean c && all_clean s

-- `[^\s@]*\.[^\s@]+$`.
dotted : Text → Bool
dotted [] = false
dotted (c ∷ s) = (c == b'.' && not (is_empty s) && all_clean s) || (is_clean c && dotted s)

-- `[^\s@]+\.[^\s@]+$`.
domain : Text → Bool
domain [] = false
domain (c ∷ s) = is_clean c && dotted s

-- `[^\s@]*@[^\s@]+\.[^\s@]+$`.
after_local : Text → Bool
after_local [] = false
after_local (c ∷ s) = (c == b'@' && domain s) || (is_clean c && after_local s)

unfoldable pub is_email : Text → Bool
unfolding is_clean after_local domain all_clean dotted
is_email [] = false
is_email (c ∷ s) = is_clean c && after_local s

abbrev pub IsClean : ℕ → Type 0
IsClean c = (is_space c ≡ false) × ((c == b'@') ≡ false)

-- A non-empty part without white space and without an at sign.
abbrev pub IsPart : Text → Type 0
IsPart s = NonEmpty s × All IsClean s

-- An address: a local part, an at sign, and a domain with a dot inside.
pub record IsEmail (s : Text) : Type 0 where
  pub user : Text
  pub host : Text
  pub top : Text
  pub parts : s ≡ user ++ b'@' ∷ (host ++ b'.' ∷ top)
  pub user_part : IsPart user
  pub host_part : IsPart host
  pub top_part : IsPart top

is_clean_iff : (c : ℕ) → (is_clean c ≡ true) ↔ IsClean c
unfolding is_clean
is_clean_iff c = ground arith

all_clean_iff : (s : Text) → (all_clean s ≡ true) ↔ All IsClean s
unfolding all_clean
all_clean_iff [] = (λ _. tt, λ _. refl)
all_clean_iff (c ∷ s) = ground (arith, all_clean_iff s, is_clean_iff c)

-- The two halves of a domain at its dot.
record Halves (s : Text) : Type 0 where
  left : Text
  right : Text
  joined : s ≡ left ++ b'.' ∷ right
  left_clean : All IsClean left
  right_part : IsPart right

Halves-cons : (c : ℕ) (s : Text) → IsClean c → Halves s → Halves (c ∷ s)
Halves-cons c s k h = record {
  left = c ∷ h.left;
  right = h.right;
  joined = ap (◌∷◌ c) h.joined;
  left_clean = (k, h.left_clean);
  right_part = h.right_part;
}

filled_of : (s : Text) → not (is_empty s) ≡ true → NonEmpty s
filled_of [] h = cc
filled_of (_ ∷ _) h = tt

dotted_sound : (s : Text) → dotted s ≡ true → Halves s
unfolding dotted
dotted_sound [] h = cc
dotted_sound (c ∷ s) h = elim (Bool-cases (c == b'.' && not (is_empty s) && all_clean s)) [
  | inl here ↦ record {
    left = [];
    right = s;
    joined = ground arith;
    left_clean = tt;
    right_part = (filled_of s (ground arith), (all_clean_iff s).0 (ground arith));
  }
  | inr later ↦ Halves-cons c s ((is_clean_iff c).0 (ground arith)) (dotted_sound s (ground arith))
]

dotted_complete :
    (left right : Text) → All IsClean left → IsPart right → dotted (left ++ b'.' ∷ right) ≡ true
unfolding dotted
dotted_complete [] [] h k = absurd k.0
dotted_complete [] (d ∷ right) h k = rw ((all_clean_iff (d ∷ right)).1 k.1)
dotted_complete (c ∷ left) right (h, hs) k =
    ground (arith, is_clean_iff c, dotted_complete left right hs k)

-- A domain and what stands in front of its at sign.
record Address (s : Text) : Type 0 where
  user : Text
  rest : Text
  joined : s ≡ user ++ b'@' ∷ rest
  user_clean : All IsClean user
  rest_domain : domain rest ≡ true

after_local_sound : (s : Text) → after_local s ≡ true → Address s
unfolding after_local
after_local_sound [] h = cc
after_local_sound (c ∷ s) h = elim (Bool-cases (c == b'@' && domain s)) [
  | inl here ↦ record {
    user = [];
    rest = s;
    joined = ground arith;
    user_clean = tt;
    rest_domain = ground arith;
  }
  | inr later ↦
      let a = after_local_sound s (ground arith) in
      record {
        user = c ∷ a.user;
        rest = a.rest;
        joined = ap (◌∷◌ c) a.joined;
        user_clean = ((is_clean_iff c).0 (ground arith), a.user_clean);
        rest_domain = a.rest_domain;
      }
]

after_local_complete :
    (user rest : Text)
    → All IsClean user
    → domain rest ≡ true
    → after_local (user ++ b'@' ∷ rest) ≡ true
unfolding after_local
after_local_complete [] rest h k = rw k
after_local_complete (c ∷ user) rest (h, hs) k =
    ground (arith, is_clean_iff c, after_local_complete user rest hs k)

is_email_sound : (s : Text) → is_email s ≡ true → IsEmail s
unfolding is_email
is_email_sound [] h = cc
is_email_sound (c ∷ s) h = go a.rest refl
  where
    a : Address s
    a = after_local_sound s (ground arith)

    go : (d : Text) → a.rest ≡ d → IsEmail (c ∷ s)
    go [] e = absurd (unfold domain in cc (a.rest_domain, e))
    go (x ∷ xs) e = record {
      user = c ∷ a.user;
      host = x ∷ halves.left;
      top = halves.right;
      parts = rw (a.joined, e, halves.joined) refl;
      user_part = (tt, ((is_clean_iff c).0 (ground arith), a.user_clean));
      host_part = (tt, ((is_clean_iff x).0 (ground arith), halves.left_clean));
      top_part = halves.right_part;
    }
      where
        dom : domain (x ∷ xs) ≡ true
        dom = rw e at a.rest_domain

        halves : Halves xs
        halves = dotted_sound xs (ground arith)

domain_complete : (host top : Text) → IsPart host → IsPart top → domain (host ++ b'.' ∷ top) ≡ true
unfolding domain
domain_complete [] top h k = absurd h.0
domain_complete (c ∷ host) top h k =
    ground (arith, is_clean_iff c, dotted_complete host top h.1.1 k)

joined_complete :
    (user host top : Text)
    → IsPart user
    → IsPart host
    → IsPart top
    → is_email (user ++ b'@' ∷ (host ++ b'.' ∷ top)) ≡ true
unfolding is_email
joined_complete [] host top h k l = absurd h.0
joined_complete (c ∷ user) host top h k l =
    rw ((is_clean_iff c).1 h.1.0)
      (after_local_complete user (host ++ b'.' ∷ top) h.1.1 (domain_complete host top k l))

is_email_complete : (s : Text) → IsEmail s → is_email s ≡ true
is_email_complete s e =
    rw e.parts (joined_complete e.user e.host e.top e.user_part e.host_part e.top_part)

pub is_email_iff : (s : Text) → (is_email s ≡ true) ↔ IsEmail s
is_email_iff s = (is_email_sound s, is_email_complete s)
