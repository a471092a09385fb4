-- ===== src/Totp/Base32/Laws.antt =====
-- `decode_base32` regroups the bits of the values, five to a character, into bytes.
use native.Mathlib.Nat.{mod-lt, pow-suc}
use duckpass.Prelude.{
  ℕ, zero, suc, ◌+◌, ◌-◌, ◌*◌, ◌/◌, ◌%◌, ◌^◌, ◌≤◌, ◌<◌, bit_or, bit_or-shifted, [], ◌∷◌, ◌++◌, ◌≡◌,
  refl, sym, ap, subst, ◌∙◌, none, some, Bytes, length, length-append, is_empty, leb, if◌then◌else◌,
  arith, Bool-cases, Option-cases, inl, inr,
}
use duckpass.Prelude.Result.{ok, bind-eq-ok}
use duckpass.Totp.Base32.{is_ignored, value, Decoder, shift_in, decode_loop, decode_base32}

-- The number that a list of bytes spells, the first byte being the highest.
pub number : ℕ → Bytes → ℕ
number n [] = n
number n (b ∷ bytes) = number (n * 256 + b) bytes

number-concat :
    (n : ℕ) (bytes : Bytes) (b : ℕ) → number n (bytes ++ b ∷ []) ≡ number n bytes * 256 + b
unfolding number
number-concat n [] b = refl
number-concat n (x ∷ bytes) b = number-concat (n * 256 + x) bytes b

-- The number that the values of a secret spell in base 32, and how many there are.
pub digits : ℕ → Bytes → ℕ
digits n [] = n
digits n (ch ∷ secret) =
    if is_ignored ch
    then digits n secret
    else elim (value ch) [ none ↦ digits n secret | some v ↦ digits (n * 32 + v) secret ]

pub digit_count : Bytes → ℕ
digit_count [] = 0
digit_count (ch ∷ secret) =
    if is_ignored ch
    then digit_count secret
    else elim (value ch) [ none ↦ digit_count secret | some v ↦ 1 + digit_count secret ]

value-lt : (ch v : ℕ) → value ch ≡ some v → v < 32
unfolding value
value-lt ch v h = ground arith

-- The bytes written, followed by the bits that wait, spell `n`, which has `count` values.
record Spells (n count : ℕ) (d : Decoder) : Type 0 where
  bits : d.bits_left < 8
  spelled : number 0 d.result * 2 ^ d.bits_left + d.buffer % 2 ^ d.bits_left ≡ n
  counted : length d.result * 8 + d.bits_left ≡ count * 5

-- The arithmetic of one step, for each number of waiting bits.
abbrev next : ℕ → ℕ → ℕ
next buffer val = buffer * 2 ^ 5 % 2 ^ 32 + val

short_step :
    (bits r buffer val : ℕ)
    → val < 32
    → bits + 5 < 8
    → r * 2 ^ (bits + 5) + next buffer val % 2 ^ (bits + 5)
      ≡ (r * 2 ^ bits + buffer % 2 ^ bits) * 32 + val
short_step zero r buffer val v h = omega arith
short_step (suc zero) r buffer val v h = omega arith
short_step (suc (suc zero)) r buffer val v h = omega arith
short_step (suc (suc (suc bits))) r buffer val v h = absurd (omega arith)

full_step :
    (bits r buffer val : ℕ)
    → val < 32
    → bits < 8
    → 8 ≤ bits + 5
    → (r * 256 + next buffer val / 2 ^ (bits + 5 - 8) % 256) * 2 ^ (bits + 5 - 8)
        + next buffer val % 2 ^ (bits + 5 - 8)
      ≡ (r * 2 ^ bits + buffer % 2 ^ bits) * 32 + val
full_step (suc (suc (suc zero))) r buffer val v h k = omega arith
full_step (suc (suc (suc (suc zero)))) r buffer val v h k = omega arith
full_step (suc (suc (suc (suc (suc zero))))) r buffer val v h k = omega arith
full_step (suc (suc (suc (suc (suc (suc zero)))))) r buffer val v h k = omega arith
full_step (suc (suc (suc (suc (suc (suc (suc zero))))))) r buffer val v h k = omega arith
full_step bits r buffer val v h k = absurd (omega arith)

-- `|` adds a value of five bits to the shifted buffer.
next_lem : (buffer val : ℕ) → val < 32 → bit_or (buffer * 2 ^ 5 % 2 ^ 32) val ≡ next buffer val
next_lem buffer val h =
    let e : buffer * 2 ^ 5 % 2 ^ 32 ≡ (buffer % 2 ^ 27) * 2 ^ 5 = omega arith in
    rw e (bit_or-shifted 5 (buffer % 2 ^ 27) val h)

shift_in-Spells :
    (val n count : ℕ) (d : Decoder)
    → val < 32
    → Spells n count d
    → Spells (n * 32 + val) (count + 1) (shift_in val d)
unfolding shift_in
shift_in-Spells val n count d v s = elim (Bool-cases (leb 8 (d.bits_left + 5))) [
  | inr short ↦
      rw (next_lem d.buffer val v, short)
        (record {
          bits = ground arith;
          spelled =
              short_step d.bits_left (number 0 d.result) d.buffer val v (ground arith)
              ∙ ap (λ k. k * 32 + val) s.spelled;
          counted = omega (arith, s.counted);
        })
  | inl full ↦
      let enough : 8 ≤ d.bits_left + 5 = ground arith in
      let below = s.bits in
      rw (next_lem d.buffer val v, full)
        (record {
          bits = omega arith;
          spelled =
              ap
                (λ k. k * 2 ^ (d.bits_left + 5 - 8) + next d.buffer val % 2 ^ (d.bits_left + 5 - 8))
                (number-concat 0 d.result _)
              ∙ (full_step d.bits_left (number 0 d.result) d.buffer val v s.bits enough
                  ∙ ap (λ k. k * 32 + val) s.spelled);
          counted = omega (
            arith,
            s.counted,
            length-append d.result ((next d.buffer val / 2 ^ (d.bits_left + 5 - 8) % 256) ∷ []),
          );
        })
]

decode_loop-Spells :
    (secret : Bytes) (n count : ℕ) (d d' : Decoder)
    → Spells n count d
    → decode_loop secret d ≡ ok d'
    → Spells (digits n secret) (count + digit_count secret) d'
unfolding decode_loop digits digit_count
decode_loop-Spells [] n count d d' s h =
    let same : d ≡ d' = cc in
    let total : count ≡ count + 0 = omega arith in
    subst (λ k. Spells n k d') total (subst (Spells n count) same s)
decode_loop-Spells (ch ∷ secret) n count d d' s h = elim (Bool-cases (is_ignored ch)) [
  | inl skipped ↦ rw skipped (decode_loop-Spells secret n count d d' s (rw skipped at h))
  | inr counts ↦ elim (Option-cases (value ch)) [
    | inl bad ↦ cc (rw (counts, bad, decode_loop) at h)
    | inr (v, good) ↦
        let total : count + 1 + digit_count secret ≡ count + (1 + digit_count secret) =
          omega arith in
        rw (counts, good, digits, digit_count)
          (subst (λ k. Spells (digits (n * 32 + v) secret) k d') total
            (decode_loop-Spells secret (n * 32 + v) (count + 1) (shift_in v d) d'
              (shift_in-Spells v n count d (value-lt ch v good) s)
              (rw (counts, good, decode_loop) at h)))
  ]
]

start-Spells : Spells 0 0 (record { buffer = 0; bits_left = 0; result = [] })
unfolding number
start-Spells = record { bits = omega arith; spelled = refl; counted = refl }

pow-pos : (k : ℕ) → 0 < 2 ^ k
pow-pos zero = omega arith
pow-pos (suc k) = omega (arith, pow-pos k, pow-suc 2 k)

-- The bytes that a secret decodes to are its bits, read five to a character, without the last few that do
-- not fill a byte: with `r < 8` bits left over, the bytes and those bits spell the number that the
-- values of the characters spell in base 32, and no bit is lost or invented.
pub decode_base32_lem :
    (secret bytes : Bytes)
    → decode_base32 secret ≡ ok bytes
    → (r : ℕ) × (x : ℕ) × (r < 8)
      × (x < 2 ^ r)
      × (number 0 bytes * 2 ^ r + x ≡ digits 0 secret)
      × (length bytes * 8 + r ≡ digit_count secret * 5)
unfolding decode_base32
decode_base32_lem secret bytes h =
    let start : Decoder = record { buffer = 0; bits_left = 0; result = [] } in
    let (d, run, h') = bind-eq-ok (decode_loop secret start) _ h in
    let s = decode_loop-Spells secret 0 0 start d start-Spells run in
    elim (Bool-cases (is_empty d.result)) [
      | inl empty ↦ cc (rw empty at h')
      | inr filled ↦
          let same : d.result ≡ bytes = cc (rw filled at h') in
          (
            d.bits_left,
            d.buffer % 2 ^ d.bits_left,
            s.bits,
            mod-lt _ (pow-pos d.bits_left),
            ap (λ b. number 0 b * 2 ^ d.bits_left + d.buffer % 2 ^ d.bits_left) (sym same)
                ∙ s.spelled,
            omega (arith, ap (λ b. length b) same, s.counted),
          )
    ]
