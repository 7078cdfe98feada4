-- ===== src/Tests/Crypto.antt =====
-- Examples for the theorems on temporary passwords.
use entra_shift.Common.{ℕ, refl, List, [], ◌∷◌, Text, units}
use entra_shift.Crypto.{generate_temp_password, pick, fill, shuffle, swap, set_at}
use entra_shift.Crypto.Bytes.{byte_below, ◌>>=◌}
use entra_shift.Crypto.Classes.{IsStrong, generate_temp_password-IsStrong}

abbrev bytes : List ℕ
bytes = 1 ∷ 2 ∷ 3 ∷ 4 ∷ 5 ∷ 6 ∷ 7 ∷ 8 ∷ 9 ∷ 10 ∷ 11 ∷ 12 ∷ 13 ∷ 14 ∷ 15 ∷ []

abbrev password : Text
password = b'B' ∷ b'H' ∷ b'F' ∷ b'J' ∷ b'5' ∷ b'G' ∷ b'%' ∷ b'c' ∷ []

generate_temp_password-IsStrong_example : IsStrong 8 password
unfolding generate_temp_password pick fill shuffle swap set_at units byte_below ◌>>=◌
generate_temp_password-IsStrong_example = generate_temp_password-IsStrong 8 bytes password [] refl
