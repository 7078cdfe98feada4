-- ===== src/Crypto/Draws/Opens.antt =====
-- What is encrypted within a request (worker/src/lib/crypto.ts) opens under the key of the deployment.
use mathlib.Core.Path.{subst}
use entra_shift.Common.{ℕ, ◌≡◌, refl, sym, List, Text}
use entra_shift.App.{World, ok}
use entra_shift.App.Actions.Keeps.{IsSteady}
use entra_shift.App.Triple.{Triple, bind-Triple, then_Triple, gets-Triple, act_keep, lift_Triple}
use entra_shift.Crypto.Draws.{encrypt}
use entra_shift.Crypto.Envelope.{Cipher, EnvelopeCiphertext, encrypt_secret, decrypt_secret}
use entra_shift.Crypto.Envelope.RoundTrip.{IsCipher, IsPlain, Opens, decrypt_secret-encrypt_secret}

-- The envelope decrypts, in this world, to the text.
abbrev pub OpensTo : Cipher → Text → EnvelopeCiphertext → World → Type 0
OpensTo c plain env w = decrypt_secret c w.vars.master_encryption_key env ≡ ok plain

pub encrypt-OpensTo :
    {P : World → Type 0}
    → IsSteady P
    → (c : Cipher) → IsCipher c
    → (plain : Text) → IsPlain plain
    → Triple P P (encrypt c plain) (λ env w. P w × OpensTo c plain env w)
unfolding encrypt
encrypt-OpensTo {P} s c laws plain h = then_Triple (act_keep _ (λ w p. s.drawn w _ p)) (λ iv.
    bind-Triple (λ key w. P w × (w.vars.master_encryption_key ≡ key))
      (gets-Triple _ (λ w p. (p, refl)))
      (λ key.
        lift_Triple _ (λ w p. p.0)
          (λ env w e p.
            (p.0, subst (λ k. decrypt_secret c k env ≡ ok plain) (sym p.1) (opens key iv env e)))))
  where
    opens :
        (key : Text) (iv : List ℕ) (env : EnvelopeCiphertext)
        → encrypt_secret c key iv plain ≡ ok env
        → decrypt_secret c key env ≡ ok plain
    opens key iv env e =
        subst (Opens c key plain) e (decrypt_secret-encrypt_secret c key iv plain laws h)
