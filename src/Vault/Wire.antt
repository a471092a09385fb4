-- ===== src/Vault/Wire.antt =====
-- src/vault.cpp: the little-endian primitives of the vault format. A writer appends to the buffer;
-- a reader takes the bytes from `offset` on, and returns what it read with the bytes that it leaves.
pub mod RoundTrip
use duckpass.Prelude.{
  ℕ, zero, suc, ◌+◌, ◌*◌, ◌/◌, ◌%◌, ◌^◌, bit_or, List, [], ◌∷◌, ◌++◌, Bytes, text, length, take,
  drop, ltb, if◌then◌else◌,
}
use duckpass.Prelude.Result.{Result, ok, err, runtime_error, ◌>>=◌}

-- `static_cast<uint8_t>((value >> (i * 8)) & 0xFF)`
abbrev pub byte_at : ℕ → ℕ → ℕ
byte_at value i = value / 2 ^ (i * 8) % 256

unfoldable pub write_uint32 : Bytes → ℕ → Bytes
write_uint32 buffer value =
    buffer ++ (byte_at value 0 ∷ byte_at value 1 ∷ byte_at value 2 ∷ byte_at value 3 ∷ [])

-- `for (int i = 0; i < 8; ++i)`, with the rounds that are left.
write_uint64_loop : ℕ → ℕ → Bytes → ℕ → Bytes
write_uint64_loop zero i buffer value = buffer
write_uint64_loop (suc rounds) i buffer value =
    write_uint64_loop rounds (i + 1) (buffer ++ byte_at value i ∷ []) value

unfoldable pub write_uint64 : Bytes → ℕ → Bytes
unfolding write_uint64_loop
write_uint64 buffer value = write_uint64_loop 8 0 buffer value

-- The length is cast to 32 bits.
unfoldable pub write_string : Bytes → Bytes → Bytes
write_string buffer str = write_uint32 buffer (length str % 2 ^ 32) ++ str

abbrev uint32_overflow {ℓ} : {A : Type ℓ} → Result A
uint32_overflow = err (runtime_error (text "Malformed vault data: uint32 overflow"))

unfoldable pub read_uint32 : Bytes → Result (ℕ × Bytes)
read_uint32 (a ∷ b ∷ c ∷ d ∷ rest) =
    ok (bit_or (bit_or (bit_or a (b * 2 ^ 8)) (c * 2 ^ 16)) (d * 2 ^ 24), rest)
read_uint32 _ = uint32_overflow

-- `value |= static_cast<uint64_t>(bytes[offset + i]) << (i * 8)`; the caller has checked the size.
read_uint64_loop : ℕ → ℕ → ℕ → Bytes → ℕ × Bytes
read_uint64_loop zero i value bytes = (value, bytes)
read_uint64_loop (suc rounds) i value [] = (value, [])
read_uint64_loop (suc rounds) i value (b ∷ bytes) =
    read_uint64_loop rounds (i + 1) (bit_or value (b * 2 ^ (i * 8))) bytes

unfoldable pub read_uint64 : Bytes → Result (ℕ × Bytes)
unfolding read_uint64_loop
read_uint64 bytes =
    if ltb (length bytes) 8
    then err (runtime_error (text "Malformed vault data: uint64 overflow"))
    else ok (read_uint64_loop 8 0 0 bytes)

unfoldable pub read_string : Bytes → Result (Bytes × Bytes)
read_string bytes = do
  (len, rest) ← read_uint32 bytes
  if ltb (length rest) len
      then err (runtime_error (text "Malformed vault data: string overflow"))
      else ok (take len rest, drop len rest)
