-- ===== src/Tests/Crypto.antt =====
-- src/crypto.cpp at concrete inputs.
use duckpass.Crypto.Gcm.RoundTrip.{decrypt_data-encrypt_data}
use duckpass.Crypto.Gcm.{encrypt_data, decrypt_data}
use duckpass.Crypto.Password.Laws.{
  IsChar, Supplies, generate_password-IsPassword, generate_password_total,
}
use duckpass.Crypto.Password.{pick, take_batch, generate_loop, generate_password}
use duckpass.Crypto.{Draw, tag_bytes}
use duckpass.Prelude.{ℕ, ◌+◌, ◌≡◌, refl, [], ◌∷◌, some, Bytes, length, text, any_of, All, arith}
use duckpass.Prelude.Result.{ok}
use duckpass.Tests.Toy.{toy_evp, toy_gcm}

abbrev two_bytes : Bytes
two_bytes = 1 ∷ 2 ∷ []

abbrev toy_key : Bytes
toy_key = 9 ∷ []

decrypt_data-encrypt_data_example :
    (blob : Bytes) × (encrypt_data toy_evp two_bytes toy_key [] (7 ∷ []) ≡ ok blob)
    × (length blob ≡ length two_bytes + tag_bytes)
    × (decrypt_data toy_evp blob toy_key [] (7 ∷ []) ≡ ok two_bytes)
decrypt_data-encrypt_data_example =
    decrypt_data-encrypt_data toy_evp toy_gcm two_bytes toy_key [] (7 ∷ []) (omega arith)

abbrev bs : Bytes
bs = b'B' ∷ b'B' ∷ []

-- Every batch is one byte, 27: a capital B.
abbrev steady : ℕ → ℕ → Draw
steady i n = some (27 ∷ [])

steady-Supplies : Supplies steady
unfolding any_of
steady-Supplies i n = (27 ∷ [], refl, refl)

bb : generate_password steady 3 2 ≡ some (ok bs)
unfolding generate_password generate_loop take_batch pick text
bb = refl

generate_password-IsPassword_example : (length bs ≡ 2) × All IsChar bs
generate_password-IsPassword_example = generate_password-IsPassword steady 3 2 bs bb

generate_password_total_example :
    (p : Bytes) × (generate_password steady 3 2 ≡ some (ok p)) × (length p ≡ 2) × All IsChar p
generate_password_total_example =
    generate_password_total steady 3 2 steady-Supplies (omega arith) (omega arith)
