-- ===== src/Text/Decimal/Laws.antt =====
-- `to_string` prints the decimal digits of a number.
use duckpass.Prelude.{
  ℕ, zero, suc, ◌+◌, ◌-◌, ◌*◌, ◌/◌, ◌%◌, ◌^◌, ◌≤◌, ◌<◌, [], ◌∷◌, ◌≡◌, ap, ◌∙◌, Bytes, length, ltb,
  ltb→lt, arith, All, Bool-cases, inl, inr,
}
use duckpass.Text.Decimal.{digits_loop, to_string}
use native.Mathlib.Nat.{pow-suc}

abbrev pub IsDigit : ℕ → Type 0
IsDigit c = (48 ≤ c) × (c ≤ 57)

-- The number that a list of digits spells, after `n`.
unfoldable pub number : ℕ → Bytes → ℕ
number n [] = n
number n (c ∷ cs) = number (n * 10 + (c - 48)) cs

digits_loop-All :
    (fuel n : ℕ) (acc : Bytes) → All IsDigit acc → All IsDigit (digits_loop fuel n acc)
unfolding digits_loop
digits_loop-All zero n acc a = a
digits_loop-All (suc fuel) n acc a =
    let shown : All IsDigit ((48 + n % 10) ∷ acc) = ((omega arith, omega arith), a) in
    elim (Bool-cases (ltb n 10)) [
      | inl last ↦ rw last shown
      | inr more ↦ rw more (digits_loop-All fuel (n / 10) _ shown)
    ]

number-digits_loop :
    (fuel n : ℕ) (acc : Bytes) → n < 10 ^ fuel → number 0 (digits_loop fuel n acc) ≡ number n acc
unfolding digits_loop number
number-digits_loop zero n acc h = ap (λ k. number k acc) (omega arith)
number-digits_loop (suc fuel) n acc h = elim (Bool-cases (ltb n 10)) [
  | inl last ↦ let small = ltb→lt _ _ last in rw last (ap (λ k. number k acc) (omega arith))
  | inr more ↦ rw more (
      number-digits_loop fuel (n / 10) _ (omega (arith, pow-suc 10 fuel))
      ∙ ap (λ k. number k acc) (omega arith))
]

length-digits_loop :
    (fuel n k : ℕ) (acc : Bytes)
    → n < 10 ^ k
    → 0 < k
    → length (digits_loop fuel n acc) ≤ k + length acc
unfolding digits_loop
length-digits_loop zero n k acc h p = omega arith
length-digits_loop (suc fuel) n zero acc h p = absurd (omega arith)
length-digits_loop (suc fuel) n (suc zero) acc h p = elim (Bool-cases (ltb n 10)) [
  | inl last ↦ rw last (omega arith)
  | inr more ↦ absurd (ground arith)
]
length-digits_loop (suc fuel) n (suc (suc k)) acc h p = elim (Bool-cases (ltb n 10)) [
  | inl last ↦ rw last (omega arith)
  | inr more ↦ rw more (
      let shorter =
        length-digits_loop fuel (n / 10) (suc k) ((48 + n % 10) ∷ acc)
          (omega (arith, pow-suc 10 (suc k))) (omega arith) in
      omega arith)
]

-- A 64-bit number is printed by decimal digits that spell it.
pub to_string_lem : (n : ℕ) → n < 2 ^ 64 → All IsDigit (to_string n) × (number 0 (to_string n) ≡ n)
unfolding to_string number
to_string_lem n h = (digits_loop-All 20 n [] tt, number-digits_loop 20 n [] (omega arith))

-- A number below `10 ^ k` takes `k` digits at most.
pub length-to_string : (n k : ℕ) → n < 10 ^ k → 0 < k → length (to_string n) ≤ k
unfolding to_string
length-to_string n k h p = omega (arith, length-digits_loop 20 n k [] h p)
