-- ===== src/Crypto/Draws.antt =====
-- What worker/src/lib/crypto.ts does with the random bytes of a request.
pub mod Opens
use entra_shift.Common.{ℕ, ◌+◌, List, Option, none, some, Text, units, take}
use entra_shift.Errors.{Thrown, unexpected}
use entra_shift.App.{World, App, Result, ok, err, lift, gets, act, ◌>>=◌}
use entra_shift.Crypto.{generate_temp_password}
use entra_shift.Crypto.Envelope.{Cipher, EnvelopeCiphertext, encrypt_secret, decrypt_secret}

abbrev drawn : World → World
drawn w = record w { draws = w.draws + 1 }

abbrev pub password_of : Option (Text × List ℕ) → Result Text
password_of none = err (unexpected (units "no random bytes"))
password_of (some (password, rest)) = ok password

-- `generateTempPassword()`, of the bytes that are there. The source waits for more where these are
-- too few; the model fails.
unfoldable pub temp_password : App Text
temp_password = do
  bytes ← act (λ w. (w.runtime.random_bytes w.draws, drawn w))
  lift (password_of (generate_temp_password 20 bytes))

-- `encryptSecret` and `decryptSecret` under the key of the deployment.
unfoldable pub encrypt : Cipher → Text → App EnvelopeCiphertext
encrypt c plain = do
  iv ← act (λ w. (take 12 (w.runtime.random_bytes w.draws), drawn w))
  key ← gets (λ w. w.vars.master_encryption_key)
  lift (encrypt_secret c key iv plain)

unfoldable pub decrypt : Cipher → EnvelopeCiphertext → App Text
decrypt c env = do key ← gets (λ w. w.vars.master_encryption_key); lift (decrypt_secret c key env)
