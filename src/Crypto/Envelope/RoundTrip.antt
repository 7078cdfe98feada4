-- ===== src/Crypto/Envelope/RoundTrip.antt =====
-- What is encrypted by worker/src/lib/crypto.ts can be decrypted.
use entra_shift.Common.{ℕ, ◌<◌, ◌≡◌, refl, List, All, some, Text, inl, inr}
use entra_shift.Errors.{Thrown}
use entra_shift.App.{Result, ok, err}
use entra_shift.App.Steps.{Result-cases}
use entra_shift.Crypto.Envelope.{
  Cipher, EnvelopeCiphertext, import_master_key, encrypt_secret, decrypt_secret, opened,
}

-- No unit of the text is a surrogate or beyond one: UTF-8 keeps such a text.
abbrev pub IsPlain : Text → Type 0
IsPlain = All (λ c. c < 55296)

-- base64 can be undone, and AES-GCM opens what it has sealed under the same key and nonce.
pub record IsCipher (c : Cipher) : Type 0 where
  pub decode-encode : (bytes : List ℕ) → c.decode (c.encode bytes) ≡ some bytes
  pub unseal-seal :
      (key iv : List ℕ) (plain : Text)
      → IsPlain plain
      → c.unseal key iv (c.seal key iv plain) ≡ some plain

-- An envelope is opened to the text; a key that is refused is refused for every envelope.
abbrev pub Opens : Cipher → Text → Text → Result EnvelopeCiphertext → Type 0
Opens c key plain (ok env) = decrypt_secret c key env ≡ ok plain
Opens c key plain (err e) = (env : EnvelopeCiphertext) → decrypt_secret c key env ≡ err e

opened-seal :
    (c : Cipher) (k iv : List ℕ) (plain : Text)
    → IsCipher c
    → IsPlain plain
    → opened c k (c.decode (c.encode iv)) (c.decode (c.encode (c.seal k iv plain))) ≡ some plain
opened-seal c k iv plain laws h =
    rw (laws.decode-encode iv, laws.decode-encode (c.seal k iv plain))
      (laws.unseal-seal k iv plain h)

decrypts :
    (c : Cipher) (key plain : Text) (k : List ℕ) (env : EnvelopeCiphertext)
    → import_master_key c key ≡ ok k
    → opened c k (c.decode env.iv) (c.decode env.ciphertext) ≡ some plain
    → decrypt_secret c key env ≡ ok plain
unfolding decrypt_secret
decrypts c key plain k env e f = rw (e, decrypt_secret) (rw (f, decrypt_secret) refl)

refuses :
    (c : Cipher) (key : Text) (env : EnvelopeCiphertext) (x : Thrown)
    → import_master_key c key ≡ err x
    → decrypt_secret c key env ≡ err x
unfolding decrypt_secret
refuses c key env x e = rw (e, decrypt_secret) refl

pub decrypt_secret-encrypt_secret :
    (c : Cipher) (key : Text) (iv : List ℕ) (plain : Text)
    → IsCipher c
    → IsPlain plain
    → Opens c key plain (encrypt_secret c key iv plain)
unfolding encrypt_secret
decrypt_secret-encrypt_secret c key iv plain laws h =
    elim (Result-cases (import_master_key c key)) [
      | inl (k, e) ↦
          rw (e, encrypt_secret) (decrypts c key plain k _ e (opened-seal c k iv plain laws h))
      | inr (x, e) ↦ rw (e, encrypt_secret) (λ env. refuses c key env x e)
    ]
