-- ===== src/Totp/Code.antt =====
-- `generate_totp` of src/totp.cpp.
pub mod Truncation
pub mod Laws
use duckpass.Prelude.{
  ℕ, zero, suc, ◌+◌, ◌-◌, ◌*◌, ◌/◌, ◌%◌, ◌^◌, bit_or, ◌==◌, ◌||◌, List, [], ◌∷◌, ◌++◌, Option, none,
  some, Bytes, text, length, replicate, get_or, ltb, if◌then◌else◌,
}
use duckpass.Prelude.Result.{
  Result, ok, err, runtime_error, invalid_argument, throw_if, or_throw, ◌>>=◌, ◌>>◌,
}
use duckpass.Text.Decimal.{to_string}
use duckpass.Totp.Base32.{decode_base32}

-- `for (int i = 7; i >= 0; --i)` fills the buffer from its end: `filled` is what is behind byte `i`.
unfoldable pub time_bytes_loop : ℕ → ℕ → Bytes → Bytes
time_bytes_loop zero time_step filled = filled
time_bytes_loop (suc i) time_step filled =
    time_bytes_loop i (time_step / 2 ^ 8) ((time_step % 256) ∷ filled)

unfoldable pub time_bytes : ℕ → Bytes
unfolding time_bytes_loop
time_bytes time_step = time_bytes_loop 8 time_step []

-- Dynamic truncation of RFC 4226: four bytes at the offset that the last one gives.
unfoldable pub binary_code : Bytes → ℕ
binary_code md =
    let offset = get_or md (length md - 1) 0 % 16 in
    bit_or
      (bit_or (bit_or (get_or md offset 0 % 128 * 2 ^ 24) (get_or md (offset + 1) 0 % 256 * 2 ^ 16))
        (get_or md (offset + 2) 0 % 256 * 2 ^ 8))
      (get_or md (offset + 3) 0 % 256)

-- `mod *= 10`, on 32 bits
unfoldable pub mod_loop : ℕ → ℕ → ℕ
mod_loop zero modulus = modulus
mod_loop (suc d) modulus = mod_loop d (modulus * 10 % 2 ^ 32)

-- `otp_str.insert(0, digits - otp_str.length(), '0')`
unfoldable pub pad : ℕ → Bytes → Bytes
pad digits otp_str =
    if ltb (length otp_str) digits
    then replicate (digits - length otp_str) b'0' ++ otp_str
    else otp_str

module _ (hmac_sha1 : Bytes → Bytes → Option Bytes) where
  -- The code and the seconds that it stays valid. `now` is `std::time(nullptr)`.
  unfoldable pub generate_totp : Bytes → ℕ → ℕ → ℕ → ℕ → Result (Bytes × ℕ)
  generate_totp base32_secret timestamp now time_step_seconds digits = do
    throw_if (time_step_seconds == 0)
        (invalid_argument (text "Time step seconds must be greater than zero."))
    throw_if (ltb digits 6 || ltb 8 digits)
        (invalid_argument (text "TOTP digits must be between 6 and 8."))
    let t : ℕ = if timestamp == 0 then now else timestamp
    let remaining : ℕ = time_step_seconds - t % time_step_seconds
    key ← decode_base32 base32_secret
    md ←
        or_throw (hmac_sha1 key (time_bytes (t / time_step_seconds)))
          (runtime_error (text "HMAC-SHA1 computation failed."))
    ok (pad digits (to_string (binary_code md % mod_loop digits 1)), remaining)
