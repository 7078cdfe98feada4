-- ===== src/Crypto/Envelope.antt =====
-- Envelope encryption of worker/src/lib/crypto.ts: AES-256-GCM under the master key of the
-- deployment. base64, UTF-8 and the cipher itself are those of the runtime, a parameter.
pub mod RoundTrip
use entra_shift.Common.{
  ℕ, ◌≡◌, refl, ◌∙◌, Bool, true, false, not, List, Option, none, some, Text, units, length, ◌==◌,
  Bool-cases, Option-cases, inl, inr,
}
use entra_shift.Errors.{Thrown, raised, internal}
use entra_shift.App.{World, Result, ok, err}

pub record EnvelopeCiphertext : Type 0 where
  pub ciphertext : Text
  pub iv : Text

-- `btoa` and `atob` on bytes, the latter none where it throws; AES-GCM by key, nonce and content,
-- the text in UTF-8, where `open` is none if the tag does not fit.
pub record Cipher : Type 0 where
  pub encode : List ℕ → Text
  pub decode : Text → Option (List ℕ)
  pub seal : List ℕ → List ℕ → Text → List ℕ
  pub unseal : List ℕ → List ℕ → List ℕ → Option Text

abbrev pub master_key_bytes : ℕ
master_key_bytes = 32

abbrev bad_base64 : Thrown
bad_base64 = raised internal (units "MASTER_ENCRYPTION_KEY is not valid base64")

abbrev bad_length : Thrown
bad_length = raised internal (units "MASTER_ENCRYPTION_KEY must decode to 32 bytes (AES-256)")

abbrev failed : Thrown
failed = raised internal (units "Secret decryption failed (bad key or corrupted ciphertext)")

-- `importMasterKey`.
abbrev sized : List ℕ → Result (List ℕ)
sized raw = elim (length raw == master_key_bytes) [ true ↦ ok raw | false ↦ err bad_length ]

unfoldable pub import_master_key : Cipher → Text → Result (List ℕ)
import_master_key c key = elim (c.decode key) [ none ↦ err bad_base64 | some raw ↦ sized raw ]

-- `encryptSecret`, with the nonce that is drawn.
unfoldable pub encrypt_secret : Cipher → Text → List ℕ → Text → Result EnvelopeCiphertext
encrypt_secret c key iv plain = elim (import_master_key c key) [
  | err e ↦ err e
  | ok k ↦ ok (record { ciphertext = c.encode (c.seal k iv plain); iv = c.encode iv })
]

-- The call of AES-GCM inside `try`, with the decoding of its arguments.
abbrev pub opened : Cipher → List ℕ → Option (List ℕ) → Option (List ℕ) → Option Text
opened c k (some iv) (some sealed) = c.unseal k iv sealed
opened c k _ _ = none

-- `decryptSecret`.
unfoldable pub decrypt_secret : Cipher → Text → EnvelopeCiphertext → Result Text
decrypt_secret c key env = elim (import_master_key c key) [
  | err e ↦ err e
  | ok k ↦ elim (opened c k (c.decode env.iv) (c.decode env.ciphertext)) [
    | none ↦ err failed
    | some plain ↦ ok plain
  ]
]
