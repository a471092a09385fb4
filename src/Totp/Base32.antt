-- ===== src/Totp/Base32.antt =====
-- `decode_base32` of src/totp.cpp.
pub mod Laws
use duckpass.Prelude.{
  ℕ, ◌+◌, ◌-◌, ◌*◌, ◌/◌, ◌%◌, ◌^◌, bit_or, ◌==◌, Bool, ◌&&◌, ◌||◌, List, [], ◌∷◌, ◌++◌, Option,
  none, some, Bytes, text, is_empty, leb, if◌then◌else◌,
}
use duckpass.Prelude.Result.{Result, ok, err, invalid_argument, ◌>>=◌}

unfoldable pub is_ignored : ℕ → Bool
is_ignored ch = ch == b' ' || ch == b'-' || ch == b'='

-- `val`, or `none` for the characters that are refused.
unfoldable pub value : ℕ → Option ℕ
value ch =
    if leb b'A' ch && leb ch b'Z'
    then some (ch - b'A')
    else if leb b'a' ch && leb ch b'z'
    then some (ch - b'a')
    else if leb b'2' ch && leb ch b'7'
    then some (ch - b'2' + 26)
    else none

-- The 32-bit buffer, the number of its bits that are not yet written, and the bytes written.
pub record Decoder : Type 0 where
  pub buffer : ℕ
  pub bits_left : ℕ
  pub result : Bytes

-- What one value does to the state.
unfoldable pub shift_in : ℕ → Decoder → Decoder
shift_in val d =
    let buffer = bit_or (d.buffer * 2 ^ 5 % 2 ^ 32) val in
    let bits = d.bits_left + 5 in
    if leb 8 bits
    then record {
      buffer = buffer;
      bits_left = bits - 8;
      result = d.result ++ (buffer / 2 ^ (bits - 8) % 256) ∷ [];
    }
    else record { buffer = buffer; bits_left = bits; result = d.result }

unfoldable pub decode_loop : Bytes → Decoder → Result Decoder
decode_loop [] d = ok d
decode_loop (ch ∷ secret) d = if is_ignored ch then decode_loop secret d else elim (value ch) [
  | none ↦
      err
        (invalid_argument (text "Invalid Base32 character encountered: '" ++ (ch ∷ [] ++ text "'")))
  | some val ↦ decode_loop secret (shift_in val d)
]

unfoldable pub decode_base32 : Bytes → Result Bytes
decode_base32 base32_secret = do
  d ← decode_loop base32_secret (record { buffer = 0; bits_left = 0; result = [] })
  if is_empty d.result
      then err (invalid_argument (text "Base32 secret is empty or contains no valid data."))
      else ok d.result
