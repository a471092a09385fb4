-- ===== src/Hibp/Bounds.antt =====
-- The count of a leaked password against the range of a `long`.
use duckpass.Hibp.{Count, HibpResult, is_digit, parse_response}
use duckpass.Hibp.Range.{
  NoColon, cut_prefix, split_lines, line_count, as_long, as_long-small, count_of, find_count,
  verdict, parse_response_lem,
}
use duckpass.Prelude.{
  ℕ, ◌+◌, ◌-◌, ◌*◌, ◌^◌, ◌≤◌, ◌<◌, ◌==◌, Bool, true, false, List, [], ◌∷◌, ◌++◌, ◌≡◌, refl, sym,
  ◌∙◌, ap, Option, none, some, Bytes, length, length-append, if◌then◌else◌, arith, All, keep,
  length-keep-le, Bool-cases, Option-cases, inl, inr,
}
use duckpass.Text.Decimal.Laws.{number}
use native.Mathlib.Nat.{pow-suc, pow-le-pow_right, mul-le-mul_right}

widened : (x n d power : ℕ) → x < (n * 10 + d + 1) * power → d ≤ 9 → x < (n + 1) * (power * 10)
widened x n d power below small =
    let more = mul-le-mul_right power (digit_fits n d small) in grind arith
  where
    digit_fits : (n d : ℕ) → d ≤ 9 → n * 10 + d + 1 ≤ (n + 1) * 10
    digit_fits n d small = omega arith

number_below :
    (n : ℕ) (cs : Bytes) → number n (keep is_digit cs) < (n + 1) * 10 ^ length (keep is_digit cs)
unfolding number keep
number_below n [] = omega arith
number_below n (c ∷ cs) = elim (Bool-cases (is_digit c)) [
  | inl digit ↦
      let ih = number_below (n * 10 + (c - 48)) cs in
      let wide = widened _ n (c - 48) _ ih (ground arith) in
      rw (digit, pow-suc 10 (length (keep is_digit cs))) wide
  | inr other ↦ rw other (number_below n cs)
]

if-eq-some :
    (b : Bool) (o : Option Bytes) {rest : Bytes}
    → (if b then o else none) ≡ some rest
    → o ≡ some rest
if-eq-some true o h = h
if-eq-some false o h = cc

length-cut_prefix :
    (prefix line rest : Bytes)
    → cut_prefix prefix line ≡ some rest
    → length rest + length prefix ≡ length line
unfolding cut_prefix
length-cut_prefix [] line rest h = let same : line ≡ rest = cc in omega (arith, ap length same)
length-cut_prefix (x ∷ prefix) [] rest h = cc
length-cut_prefix (x ∷ prefix) (c ∷ line) rest h =
    omega
      (arith, length-cut_prefix prefix line rest (if-eq-some (x == c) (cut_prefix prefix line) h))

abbrev pub IsShort : Bytes → Bytes → Type 0
IsShort suffix line = length line ≤ length suffix + 19

-- There is a count, of eighteen digits at most.
abbrev pub IsSmall : Count → Type 0
IsSmall count = (n : ℕ) × (count ≡ some n) × (n < 10 ^ 18)

count_of-below :
    (o : Option Bytes) (count : Count)
    → ((rest : Bytes) → o ≡ some rest → length rest ≤ 18)
    → count_of o ≡ some count
    → IsSmall count
unfolding count_of
count_of-below none count h e = cc
count_of-below (some rest) count h e =
    let n = number 0 (keep is_digit rest) in
    let digits = length-keep-le is_digit rest in
    let few =
      pow-le-pow_right {n = 10} (omega arith) {i = length (keep is_digit rest)} {j = 18}
        (omega (arith, digits, h rest refl)) in
    let small : n < 10 ^ 18 = omega (arith, number_below 0 rest) in
    let same : as_long n ≡ count = cc in (n, sym same ∙ as_long-small n (omega arith), small)

line_count-below :
    (suffix line : Bytes) (count : Count)
    → IsShort suffix line
    → line_count suffix line ≡ some count
    → IsSmall count
unfolding line_count
line_count-below suffix line count short e =
    count_of-below (cut_prefix (suffix ++ b':' ∷ []) line) count
      (λ rest cut. omega (
        arith,
        length-cut_prefix (suffix ++ b':' ∷ []) line rest cut,
        length-append suffix (b':' ∷ []),
      ))
      e

verdict-below :
    (suffix : Bytes) (lines : List Bytes)
    → All (IsShort suffix) lines
    → IsSmall (verdict (find_count suffix lines)).breach_count
unfolding find_count
verdict-below suffix [] a = (0, refl, omega arith)
verdict-below suffix (line ∷ lines) a = elim (Option-cases (line_count suffix line)) [
  | inl missed ↦ rw missed (verdict-below suffix lines a.1)
  | inr (count, found) ↦ rw found (line_count-below suffix line count a.0 found)
]

-- If no line of a response is longer than the suffix, a colon and eighteen characters, then the sum does not
-- overflow: the count is there, below 10 ^ 18, and so fits in the `long` that it is kept in.
pub parse_response_bounded :
    (suffix response : Bytes)
    → All NoColon suffix
    → All (IsShort suffix) (split_lines response)
    → (r : HibpResult) × (n : ℕ) × (parse_response suffix response ≡ some r)
      × (r.breach_count ≡ some n)
      × (n < 10 ^ 18)
      × (n < 2 ^ 63)
parse_response_bounded suffix response s a =
    let (n, counted, below) = verdict-below suffix (split_lines response) a in
    (_, n, parse_response_lem suffix response s, counted, below, omega arith)
