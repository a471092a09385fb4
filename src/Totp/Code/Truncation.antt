-- ===== src/Totp/Code/Truncation.antt =====
-- The dynamic truncation and the time step of src/totp.cpp against RFC 4226, which reads bytes as numbers.
use duckpass.Prelude.{
  ℕ, zero, suc, ◌+◌, ◌-◌, ◌*◌, ◌%◌, ◌^◌, ◌≤◌, ◌<◌, [], ◌∷◌, ◌≡◌, refl, ◌∙◌, Bytes, IsByte, All,
  length, get_or, take, drop, arith, bit_or, bit_or-shifted,
}
use native.Mathlib.Numerals.{unary_clauses}
use duckpass.Totp.Code.{time_bytes, time_bytes_loop, binary_code}

-- The number that bytes are, the highest first.
unfoldable pub big_endian : ℕ → Bytes → ℕ
big_endian acc [] = acc
big_endian acc (b ∷ bytes) = big_endian (acc * 256 + b) bytes

-- Four bytes from the place on that the low four bits of the last one give, less the highest bit.
unfoldable pub truncated : Bytes → ℕ
unfolding big_endian
truncated md = big_endian 0 (take 4 (drop (get_or md (length md - 1) 0 % 16) md)) % 2 ^ 31

-- Eight bytes that are the number, on 64 bits.
pub time_bytes_lem :
    (n : ℕ) → (length (time_bytes n) ≡ 8) × (big_endian 0 (time_bytes n) ≡ n % 2 ^ 64)
unfolding time_bytes time_bytes_loop big_endian
time_bytes_lem n = (refl, omega arith)

byte_at : (md : Bytes) (i : ℕ) → All IsByte md → get_or md i 0 < 256
byte_at [] i a = omega arith
byte_at (b ∷ md) zero a = a.0
byte_at (b ∷ md) (suc i) a = byte_at md i a.1

window :
    (md : Bytes) (o : ℕ)
    → o + 4 ≤ length md
    → take 4 (drop o md)
      ≡ get_or md o 0 ∷ get_or md (o + 1) 0 ∷ get_or md (o + 2) 0 ∷ get_or md (o + 3) 0 ∷ []
window [] o h = absurd (omega arith)
window (b ∷ md) (suc o) h =
    let next = window md o (omega arith) in simp unary_clauses (simp unary_clauses at next)
window (a ∷ b ∷ c ∷ d ∷ md) zero h = refl
window (a ∷ []) zero h = absurd (omega arith)
window (a ∷ b ∷ []) zero h = absurd (omega arith)
window (a ∷ b ∷ c ∷ []) zero h = absurd (omega arith)

joined :
    (a b c d : ℕ)
    → a < 256
    → b < 256
    → c < 256
    → d < 256
    → bit_or (bit_or (bit_or (a % 128 * 2 ^ 24) (b % 256 * 2 ^ 16)) (c % 256 * 2 ^ 8)) (d % 256)
      ≡ ((((0 + a) * 256 + b) * 256 + c) * 256 + d) % 2 ^ 31
joined a b c d ha hb hc hd =
    let high : bit_or (a % 128 * 2 ^ 24) (b % 256 * 2 ^ 16) ≡ (a % 128 * 256 + b) * 2 ^ 16 =
      bit_or-shifted 24 (a % 128) (b % 256 * 2 ^ 16) (omega arith) ∙ omega arith in
    let middle : bit_or ((a % 128 * 256 + b) * 2 ^ 16) (c % 256 * 2 ^ 8)
        ≡ ((a % 128 * 256 + b) * 256 + c) * 2 ^ 8 =
      bit_or-shifted 16 (a % 128 * 256 + b) (c % 256 * 2 ^ 8) (omega arith) ∙ omega arith in
    rw (high, middle)
      (bit_or-shifted 8 ((a % 128 * 256 + b) * 256 + c) (d % 256) (omega arith) ∙ omega arith)

pub binary_code_lem : (md : Bytes) → length md ≡ 20 → All IsByte md → binary_code md ≡ truncated md
unfolding binary_code truncated big_endian
binary_code_lem md size bytes =
    let o = get_or md (length md - 1) 0 % 16 in
    rw (window md o (omega arith)) (
      joined _ _ _ _ (byte_at md o bytes) (byte_at md (o + 1) bytes) (byte_at md (o + 2) bytes)
        (byte_at md (o + 3) bytes))
