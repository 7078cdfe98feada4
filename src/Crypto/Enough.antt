-- ===== src/Crypto/Enough.antt =====
-- How many bytes `generateTempPassword` needs (worker/src/lib/crypto.ts).
use entra_shift.Common.{ℕ, ◌+◌, ◌≤◌, ◌<◌, ◌≡◌, List, some, All, length}
use entra_shift.Crypto.Bytes.{Draw}

-- No byte is as large as 128.
abbrev pub AreSmall : List ℕ → Type 0
AreSmall = All (λ v. v < 128)

-- From `k` small bytes on there is a result, which takes exactly `k` of them.
record Takes {A : Type 0} (m : Draw A) (k : ℕ) (Q : A → Type 0) : Type 0 where
  from :
      (bytes : List ℕ)
      → AreSmall bytes
      → k ≤ length bytes
      → (a : A) × (rest : List ℕ) × (m bytes ≡ some (a, rest))
        × Q a
        × AreSmall rest
        × (length rest + k ≡ length bytes)
