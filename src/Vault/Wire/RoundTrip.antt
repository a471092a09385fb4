-- ===== src/Vault/Wire/RoundTrip.antt =====
-- The readers of src/vault.cpp undo its writers.
use duckpass.Prelude.{
  ℕ, ◌+◌, ◌*◌, ◌%◌, ◌^◌, ◌<◌, bit_or, bit_or-disjoint, [], ◌∷◌, ◌++◌, ◌≡◌, false, refl, ap, ◌∙◌,
  Bytes, length, length-append, take-append, drop-append, ltb, le→ltb, append_assoc, arith, IsByte,
}
use duckpass.Prelude.Result.{ok}
use duckpass.Vault.Wire.{
  byte_at, write_uint32, write_uint64, write_string, read_uint32, read_uint64, read_string,
}

-- Four bytes joined by `|` are the number that they spell.
pub or_bytes32 :
    (a b c d : ℕ)
    → IsByte a
    → IsByte b
    → IsByte c
    → bit_or (bit_or (bit_or a (b * 2 ^ 8)) (c * 2 ^ 16)) (d * 2 ^ 24)
      ≡ a + b * 2 ^ 8 + c * 2 ^ 16 + d * 2 ^ 24
or_bytes32 a b c d ha hb hc = rw (bit_or-disjoint 8 a b (omega arith)) (
    rw (bit_or-disjoint 16 (a + b * 2 ^ 8) c (omega arith))
      (bit_or-disjoint 24 (a + b * 2 ^ 8 + c * 2 ^ 16) d (omega arith)))

pub read_uint32-write_uint32 :
    (value : ℕ) (rest : Bytes)
    → value < 2 ^ 32
    → read_uint32 (write_uint32 [] value ++ rest) ≡ ok (value, rest)
unfolding read_uint32 write_uint32
read_uint32-write_uint32 value rest h =
    rw
      (or_bytes32 (byte_at value 0) (byte_at value 1) (byte_at value 2) (byte_at value 3)
        (omega arith) (omega arith) (omega arith))
      (ap (λ (n : ℕ). ok (n, rest)) (omega arith))

-- Each writer appends to the buffer what it writes into an empty one.
pub write_uint32-buffer :
    (buffer : Bytes) (value : ℕ) → write_uint32 buffer value ≡ buffer ++ write_uint32 [] value
unfolding write_uint32
write_uint32-buffer buffer value = refl

pub write_uint64-buffer :
    (buffer : Bytes) (value : ℕ) → write_uint64 buffer value ≡ buffer ++ write_uint64 [] value
unfolding write_uint64
write_uint64-buffer buffer value = simp append_assoc

pub write_string-buffer :
    (buffer str : Bytes) → write_string buffer str ≡ buffer ++ write_string [] str
unfolding write_string
write_string-buffer buffer str =
    rw (write_uint32-buffer buffer (length str % 2 ^ 32)) (append_assoc buffer _ str)

pub read_string-write_string :
    (str rest : Bytes)
    → length str < 2 ^ 32
    → read_string (write_string [] str ++ rest) ≡ ok (str, rest)
unfolding read_string write_string
read_string-write_string str rest h =
    rw
      (
        fits,
        append_assoc _ str rest,
        read_uint32-write_uint32 (length str) (str ++ rest) h,
        enough,
        take-append str rest,
        drop-append str rest,
      )
      refl
  where
    fits : length str % 2 ^ 32 ≡ length str
    fits = omega arith

    enough : ltb (length (str ++ rest)) (length str) ≡ false
    enough = le→ltb _ _ (omega (arith, length-append str rest))

-- The eight rounds of `read_uint64` join their bytes to the number that they spell.
read_uint64_sum :
    (a b c d e f g h : ℕ) (rest : Bytes)
    → IsByte a × IsByte b × IsByte c × IsByte d × IsByte e × IsByte f × IsByte g
    → read_uint64 (a ∷ b ∷ c ∷ d ∷ e ∷ f ∷ g ∷ h ∷ rest)
      ≡ ok (
        a + b * 2 ^ 8 + c * 2 ^ 16 + d * 2 ^ 24 + e * 2 ^ 32 + f * 2 ^ 40 + g * 2 ^ 48 + h * 2 ^ 56,
        rest,
      )
unfolding read_uint64
read_uint64_sum a b c d e f g h rest p =
    rw
      (
        enough,
        first,
        low,
        bit_or-disjoint 32 s4 e (omega arith),
        bit_or-disjoint 40 s5 f (omega arith),
        bit_or-disjoint 48 s6 g (omega arith),
        bit_or-disjoint 56 s7 h (omega arith),
      )
      refl
  where
    s4 : ℕ
    s4 = a + b * 2 ^ 8 + c * 2 ^ 16 + d * 2 ^ 24

    s5 : ℕ
    s5 = s4 + e * 2 ^ 32

    s6 : ℕ
    s6 = s5 + f * 2 ^ 40

    s7 : ℕ
    s7 = s6 + g * 2 ^ 48

    enough : ltb (length (a ∷ b ∷ c ∷ d ∷ e ∷ f ∷ g ∷ h ∷ rest)) 8 ≡ false
    enough = le→ltb _ _ (omega arith)

    first : bit_or 0 (a * 2 ^ 0) ≡ a
    first = bit_or-disjoint 0 0 a (omega arith) ∙ omega arith

    low : bit_or (bit_or (bit_or a (b * 2 ^ 8)) (c * 2 ^ 16)) (d * 2 ^ 24) ≡ s4
    low = or_bytes32 a b c d p.0 p.1 p.2

pub read_uint64-write_uint64 :
    (value : ℕ) (rest : Bytes)
    → value < 2 ^ 64
    → read_uint64 (write_uint64 [] value ++ rest) ≡ ok (value, rest)
unfolding write_uint64
read_uint64-write_uint64 value rest h =
    rw
      (read_uint64_sum (byte_at value 0) (byte_at value 1) (byte_at value 2) (byte_at value 3)
        (byte_at value 4) (byte_at value 5) (byte_at value 6) (byte_at value 7) rest (omega arith))
      (ap (λ (n : ℕ). ok (n, rest)) (omega arith))
