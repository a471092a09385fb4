-- ===== src/Tests/Totp.antt =====
-- src/totp.cpp and the fuzzy matching of src/utils.cpp at concrete inputs.
use duckpass.Fuzzy.Laws.{Subsequence, fuzzy_match-pos}
use duckpass.Fuzzy.{fuzzy_match}
use duckpass.Prelude.{
  ℕ, ◌+◌, ◌*◌, ◌/◌, ◌%◌, ◌^◌, ◌≤◌, ◌<◌, ◌≡◌, ◌↔◌, refl, [], ◌∷◌, Option, some, Bytes, IsByte, subst,
  ◌-◌, length, replicate, All, arith,
}
use duckpass.Prelude.Result.{ok}
use duckpass.Text.Decimal.Laws as Decimal
use duckpass.Text.Decimal.{to_string, digits_loop}
use duckpass.Totp.Base32.Laws as Base32
use duckpass.Totp.Base32.Laws.{decode_base32_lem}
use duckpass.Totp.Base32.{decode_base32, decode_loop, is_ignored, value, shift_in}
use duckpass.Totp.Code.Laws.{generate_totp_lem}
use duckpass.Totp.Code.Truncation.{big_endian, truncated}
use duckpass.Totp.Code.{time_bytes, binary_code, mod_loop, pad, generate_totp}

abbrev secret : Bytes
secret = 77 ∷ 90 ∷ 88 ∷ 87 ∷ 54 ∷ []

abbrev foo : Bytes
foo = 102 ∷ 111 ∷ 111 ∷ []

abbrev pub toy_hmac : Bytes → Bytes → Option Bytes
toy_hmac key message = some (replicate 20 5)

decoded : decode_base32 secret ≡ ok foo
unfolding decode_base32 decode_loop is_ignored value shift_in
decoded = refl

decode_base32_lem_example :
    (r : ℕ) × (x : ℕ) × (r < 8)
    × (x < 2 ^ r)
    × (Base32.number 0 foo * 2 ^ r + x ≡ Base32.digits 0 secret)
    × (length foo * 8 + r ≡ Base32.digit_count secret * 5)
decode_base32_lem_example = decode_base32_lem secret foo decoded

fuzzy_match-pos_example :
    (0 < fuzzy_match foo (70 ∷ 45 ∷ 79 ∷ 79 ∷ [])) ↔ Subsequence foo (70 ∷ 45 ∷ 79 ∷ 79 ∷ [])
fuzzy_match-pos_example = fuzzy_match-pos foo (70 ∷ 45 ∷ 79 ∷ 79 ∷ [])

abbrev code : Bytes
code = 50 ∷ 49 ∷ 53 ∷ 48 ∷ 52 ∷ 53 ∷ []

generated : generate_totp toy_hmac secret 59 0 30 6 ≡ ok (code, 1)
unfolding generate_totp decode_base32 decode_loop is_ignored value shift_in binary_code mod_loop pad
    to_string digits_loop time_bytes
generated = refl

toy_digest :
    (key message md : Bytes) → toy_hmac key message ≡ some md → (length md ≡ 20) × All IsByte md
toy_digest key message md h =
    subst (λ (x : Bytes). (length x ≡ 20) × All IsByte x) (the_same _ md h) (refl, omega arith)
  where
    the_same : (x y : Bytes) → some x ≡ some y → x ≡ y
    the_same x y h = cc

generate_totp_lem_example :
    (key : Bytes) × (message : Bytes) × (md : Bytes) × (decode_base32 secret ≡ ok key)
    × (length message ≡ 8)
    × (big_endian 0 message ≡ 59 / 30 % 2 ^ 64)
    × (toy_hmac key message ≡ some md)
    × (6 ≤ 6)
    × (6 ≤ 8)
    × (length code ≡ 6)
    × All Decimal.IsDigit code
    × (Decimal.number 0 code ≡ truncated md % 10 ^ 6)
    × (1 ≡ 30 - 59 % 30)
    × (1 ≤ 1)
    × (1 ≤ 30)
generate_totp_lem_example =
    generate_totp_lem toy_hmac toy_digest secret 59 0 30 6 code 1 (omega arith) generated
