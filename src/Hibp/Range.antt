-- ===== src/Hibp/Range.antt =====
-- A response of the range service is searched for the suffix of a hash, as a reader of lines would.
use duckpass.Prelude.{
  break_at, ℕ, zero, suc, ◌+◌, ◌-◌, ◌*◌, ◌^◌, ◌≤◌, ◌<◌, ltb, ltb→lt, lt→ltb, ◌==◌, ==_iff, Bool,
  true, false, List, [], ◌∷◌, ◌++◌, ◌≡◌, refl, sym, ap, ◌∙◌, Option, none, some, Bytes, length,
  bytes_eq, if◌then◌else◌, arith, All, keep, Bool-cases, inl, inr,
}
use duckpass.Hibp.{
  Count, HibpResult, clean, is_line_end, is_digit, skip_line_ends, parse_count, match_line,
  parse_line, parse_loop, parse_response, found_or,
}
use duckpass.Text.Decimal.Laws.{number}

-- What follows a prefix.
unfoldable pub cut_prefix : Bytes → Bytes → Option Bytes
cut_prefix [] line = some line
cut_prefix (x ∷ prefix) [] = none
cut_prefix (x ∷ prefix) (c ∷ line) = if x == c then cut_prefix prefix line else none

abbrev pub push_front : ℕ → List Bytes → List Bytes
push_front c [] = (c ∷ []) ∷ []
push_front c (line ∷ lines) = (c ∷ line) ∷ lines

-- Every `\r` and every `\n` ends a line.
unfoldable pub split_lines : Bytes → List Bytes
split_lines [] = [] ∷ []
split_lines (c ∷ cs) =
    let more = split_lines cs in if is_line_end c then [] ∷ more else push_front c more

-- A number as a `long`, if it is one.
unfoldable pub as_long : ℕ → Count
as_long n = if ltb n (2 ^ 63) then some n else none

unfoldable pub count_of : Option Bytes → Option Count
unfolding number keep as_long
count_of none = none
count_of (some rest) = some (as_long (number 0 (keep is_digit rest)))

-- The number that the digits after the suffix and a colon spell.
unfoldable pub line_count : Bytes → Bytes → Option Count
unfolding cut_prefix
line_count suffix line = count_of (cut_prefix (suffix ++ b':' ∷ []) line)

abbrev pub or_else : Option Count → Option Count → Option Count
or_else none other = other
or_else (some n) other = some n

-- The count of the first line that has one.
unfoldable pub find_count : Bytes → List Bytes → Option Count
find_count suffix [] = none
find_count suffix (line ∷ lines) = or_else (line_count suffix line) (find_count suffix lines)

abbrev pub verdict : Option Count → HibpResult
verdict none = clean
verdict (some count) = record { is_pwned = true; breach_count = count; error_message = [] }

abbrev pub NoColon : ℕ → Type 0
NoColon c = (c == b':') ≡ false

abbrev pub NoEnd : ℕ → Type 0
NoEnd c = is_line_end c ≡ false

pub as_long-small : (n : ℕ) → n < 2 ^ 63 → as_long n ≡ some n
unfolding as_long
as_long-small n h = rw (lt→ltb n (2 ^ 63) h) refl

number-le : (n : ℕ) (cs : Bytes) → n ≤ number n cs
unfolding number
number-le n [] = omega arith
number-le n (c ∷ cs) = omega (arith, number-le (n * 10 + (c - 48)) cs)

-- More digits do not make an overflowed number small.
as_long-overflowed : (n : ℕ) (cs : Bytes) → ltb n (2 ^ 63) ≡ false → as_long (number n cs) ≡ none
unfolding as_long
as_long-overflowed n cs h = elim (Bool-cases (ltb (number n cs) (2 ^ 63))) [
  | inr large ↦ rw large refl
  | inl small ↦
      let below = ltb→lt (number n cs) (2 ^ 63) small in
      let fits = lt→ltb n (2 ^ 63) (omega (arith, number-le n cs)) in absurd cc
]

parse_count_lem :
    (count : ℕ) (cs : Bytes)
    → count < 2 ^ 63
    → All NoEnd cs
    → parse_count count cs ≡ as_long (number count (keep is_digit cs))
unfolding parse_count number keep
parse_count_lem count [] h a = sym (as_long-small count h)
parse_count_lem count (c ∷ cs) h a = elim (Bool-cases (is_digit c)) [
  | inl digit ↦
      let grown = count * 10 + (c - 48) in
      elim (Bool-cases (ltb grown (2 ^ 63))) [
        | inl fits ↦ rw (digit, fits) (parse_count_lem grown cs (ltb→lt _ _ fits) a.1)
        | inr large ↦ rw (digit, large) (sym (as_long-overflowed grown (keep is_digit cs) large))
      ]
  | inr other ↦ rw (other, a.0) (parse_count_lem count cs h a.1)
]

line_count-empty : (suffix : Bytes) → line_count suffix [] ≡ none
unfolding line_count cut_prefix count_of
line_count-empty [] = refl
line_count-empty (x ∷ suffix) = refl

-- A character that is no colon stays with what is before the colon.
match_line_step :
    (x c : ℕ) (suffix before rest : Bytes)
    → match_line (x ∷ suffix) (c ∷ before) rest
      ≡ (if x == c then match_line suffix before rest else none)
unfolding bytes_eq match_line
match_line_step x c suffix before [] = ground arith
match_line_step x c suffix before (colon ∷ rest) = ground arith

match_line_long : (c : ℕ) (before rest : Bytes) → match_line [] (c ∷ before) rest ≡ none
unfolding bytes_eq match_line
match_line_long c before [] = refl
match_line_long c before (colon ∷ rest) = refl

match_line_short : (x : ℕ) (suffix rest : Bytes) → match_line (x ∷ suffix) [] rest ≡ none
unfolding bytes_eq match_line
match_line_short x suffix [] = refl
match_line_short x suffix (colon ∷ rest) = refl

count_of-miss : (b : Bool) (o : Option Bytes) → b ≡ false → count_of (if b then o else none) ≡ none
unfolding count_of
count_of-miss true o h = cc
count_of-miss false o h = refl

count_of-if :
    (b : Bool) (o : Option Bytes)
    → count_of (if b then o else none) ≡ (if b then count_of o else none)
unfolding count_of
count_of-if true o = refl
count_of-if false o = refl

-- On a line with no line end in it, the search for the colon is the removal of the suffix and a colon.
parse_line_lem :
    (suffix line : Bytes)
    → All NoColon suffix
    → All NoEnd line
    → parse_line suffix line ≡ line_count suffix line
unfolding parse_line line_count cut_prefix break_at bytes_eq match_line count_of
parse_line_lem [] [] s a = refl
parse_line_lem (x ∷ suffix) [] s a = refl
parse_line_lem [] (c ∷ line) s a =
    let parts = break_at (λ z. z == b':') line in
    elim (Bool-cases (c == b':')) [
      | inl colon ↦
          rw colon
            (rw ((==_iff c b':').0 colon) (ap some (parse_count_lem 0 line (omega arith) a.1)))
      | inr other ↦ rw other (
          match_line_long c parts.0 parts.1
          ∙ sym (count_of-miss (b':' == c) (some line) (ground (arith, other))))
    ]
parse_line_lem (x ∷ suffix) (c ∷ line) s a =
    let parts = break_at (λ z. z == b':') line in
    elim (Bool-cases (c == b':')) [
      | inl colon ↦ rw colon (
          sym (
            count_of-miss (x == c) (cut_prefix (suffix ++ b':' ∷ []) line)
              (ground (arith, colon, s.0))))
      | inr other ↦ rw other (
          match_line_step x c suffix parts.0 parts.1
          ∙ (ap (λ (o : Option Count). if x == c then o else none)
                (parse_line_lem suffix line s.1 a.1)
              ∙ sym (count_of-if (x == c) (cut_prefix (suffix ++ b':' ∷ []) line))))
    ]

-- The lines after the first, of what starts at its end.
abbrev pub after_end : Bytes → List Bytes
unfolding split_lines
after_end [] = []
after_end (e ∷ rest) = split_lines rest

split_lines-break_at :
    (cs : Bytes)
    → split_lines cs ≡ (break_at is_line_end cs).0 ∷ after_end (break_at is_line_end cs).1
unfolding split_lines break_at after_end
split_lines-break_at [] = refl
split_lines-break_at (c ∷ cs) = elim (Bool-cases (is_line_end c)) [
  | inl e ↦ rw e refl
  | inr n ↦ rw n (ap (push_front c) (split_lines-break_at cs))
]

break_at-NoEnd : (cs : Bytes) → All NoEnd (break_at is_line_end cs).0
unfolding break_at
break_at-NoEnd [] = tt
break_at-NoEnd (c ∷ cs) = elim (Bool-cases (is_line_end c)) [
  | inl e ↦ rw e tt
  | inr n ↦ rw n (n, break_at-NoEnd cs)
]

-- What a line ends at is a line end.
abbrev pub AtEnd : Bytes → Type 0
AtEnd [] = Unit {0}
AtEnd (c ∷ cs) = is_line_end c ≡ true

break_at-AtEnd : (cs : Bytes) → AtEnd (break_at is_line_end cs).1
unfolding break_at
break_at-AtEnd [] = tt
break_at-AtEnd (c ∷ cs) = elim (Bool-cases (is_line_end c)) [
  | inl e ↦ rw e e
  | inr n ↦ rw n (break_at-AtEnd cs)
]

skip_end : (c : ℕ) (cs : Bytes) → is_line_end c ≡ true → skip_line_ends (c ∷ cs) ≡ skip_line_ends cs
unfolding skip_line_ends
skip_end c cs e = rw e refl

skip_stop : (c : ℕ) (cs : Bytes) → is_line_end c ≡ false → skip_line_ends (c ∷ cs) ≡ c ∷ cs
unfolding skip_line_ends
skip_stop c cs n = rw n refl

find_count-end :
    (suffix : Bytes) (c : ℕ) (cs : Bytes)
    → is_line_end c ≡ true
    → find_count suffix (split_lines (c ∷ cs)) ≡ find_count suffix (split_lines cs)
unfolding split_lines find_count
find_count-end suffix c cs e = rw (e, line_count-empty suffix) refl

find_count-skip_line_ends :
    (suffix cs : Bytes)
    → find_count suffix (split_lines (skip_line_ends cs)) ≡ find_count suffix (split_lines cs)
find_count-skip_line_ends suffix [] = refl_at
  where
    refl_at :
        find_count suffix (split_lines (skip_line_ends [])) ≡ find_count suffix (split_lines [])
    refl_at = unfold skip_line_ends in refl
find_count-skip_line_ends suffix (c ∷ cs) = elim (Bool-cases (is_line_end c)) [
  | inl e ↦
      rw (skip_end c cs e)
        (find_count-skip_line_ends suffix cs ∙ sym (find_count-end suffix c cs e))
  | inr n ↦ rw (skip_stop c cs n) refl
]

find_count-after_end :
    (suffix cs : Bytes)
    → AtEnd cs
    → find_count suffix (split_lines cs) ≡ find_count suffix (after_end cs)
unfolding split_lines find_count after_end
find_count-after_end suffix [] e = rw (line_count-empty suffix) refl
find_count-after_end suffix (c ∷ cs) e = find_count-end suffix c cs e

length-skip_line_ends : (cs : Bytes) → length (skip_line_ends cs) ≤ length cs
unfolding skip_line_ends
length-skip_line_ends [] = omega arith
length-skip_line_ends (c ∷ cs) = ground (arith, length-skip_line_ends cs)

length-break_at : (cs : Bytes) → length (break_at is_line_end cs).1 ≤ length cs
unfolding break_at
length-break_at [] = omega arith
length-break_at (c ∷ cs) = elim (Bool-cases (is_line_end c)) [
  | inl e ↦ rw e (omega arith)
  | inr n ↦ rw n (omega (arith, length-break_at cs))
]

-- A round of the loop gets past the first byte.
length-next :
    (c : ℕ) (cs : Bytes) → length (skip_line_ends (break_at is_line_end (c ∷ cs)).1) ≤ length cs
unfolding break_at
length-next c cs = elim (Bool-cases (is_line_end c)) [
  | inl e ↦ rw e (rw (skip_end c cs e) (length-skip_line_ends cs))
  | inr n ↦
      rw n (omega (arith, length-skip_line_ends (break_at is_line_end cs).1, length-break_at cs))
]

parse_loop_step :
    (fuel : ℕ) (suffix : Bytes) (c : ℕ) (cs : Bytes)
    → parse_loop (suc fuel) suffix (c ∷ cs)
      ≡ found_or
          (parse_line suffix (break_at is_line_end (c ∷ cs)).0)
          (parse_loop fuel suffix (skip_line_ends (break_at is_line_end (c ∷ cs)).1))
unfolding parse_loop
parse_loop_step fuel suffix c cs = refl

parse_loop-empty : (fuel : ℕ) (suffix : Bytes) → parse_loop fuel suffix [] ≡ some clean
unfolding parse_loop
parse_loop-empty zero suffix = refl
parse_loop-empty (suc fuel) suffix = refl

find_count-empty : (suffix : Bytes) → find_count suffix (split_lines []) ≡ none
unfolding find_count split_lines
find_count-empty suffix = rw (line_count-empty suffix) refl

-- The first line is searched, and then those after it.
find_count-lines :
    (suffix cs : Bytes)
    → find_count suffix (split_lines cs)
      ≡ or_else
          (line_count suffix (break_at is_line_end cs).0)
          (find_count suffix (split_lines (skip_line_ends (break_at is_line_end cs).1)))
unfolding find_count
find_count-lines suffix cs =
    let after = (break_at is_line_end cs).1 in
    rw (split_lines-break_at cs) (
      ap (or_else (line_count suffix (break_at is_line_end cs).0)) (
        sym (
          find_count-skip_line_ends suffix after
          ∙ find_count-after_end suffix after (break_at-AtEnd cs))))

found_or-verdict :
    (o other : Option Count) → found_or o (some (verdict other)) ≡ some (verdict (or_else o other))
found_or-verdict none other = refl
found_or-verdict (some n) other = refl

parse_loop_lem :
    (fuel : ℕ) (suffix response : Bytes)
    → All NoColon suffix
    → length response ≤ fuel
    → parse_loop fuel suffix response ≡ some (verdict (find_count suffix (split_lines response)))
parse_loop_lem fuel suffix [] s h =
    parse_loop-empty fuel suffix ∙ ap (λ o. some (verdict o)) (sym (find_count-empty suffix))
parse_loop_lem zero suffix (c ∷ cs) s h = absurd (omega arith)
parse_loop_lem (suc fuel) suffix (c ∷ cs) s h =
    let parts = break_at is_line_end (c ∷ cs) in
    let next =
      parse_loop_lem fuel suffix (skip_line_ends parts.1) s (omega (arith, length-next c cs)) in
    let line = parse_line_lem suffix parts.0 s (break_at-NoEnd (c ∷ cs)) in
    rw (parse_loop_step fuel suffix c cs, line, next, find_count-lines suffix (c ∷ cs))
      (found_or-verdict (line_count suffix parts.0) _)

-- For a suffix with no colon in it, parsing a response of the range service ends, whatever its bytes, and
-- finds the first line, ended by any line-end byte, that starts with the suffix and a colon: the password
-- is leaked exactly if there is one. Its count is the number that the digits of the line's rest spell, if
-- that number is below 2 ^ 63; else the sum overflows, and there is no count.
pub parse_response_lem :
    (suffix response : Bytes)
    → All NoColon suffix
    → parse_response suffix response ≡ some (verdict (find_count suffix (split_lines response)))
unfolding parse_response
parse_response_lem suffix response s =
    parse_loop_lem (length response) suffix response s (omega arith)

parse_loop_total :
    (fuel : ℕ) (suffix response : Bytes)
    → length response ≤ fuel
    → (r : HibpResult) × (parse_loop fuel suffix response ≡ some r)
parse_loop_total fuel suffix [] h = (clean, parse_loop-empty fuel suffix)
parse_loop_total zero suffix (c ∷ cs) h = absurd (omega arith)
parse_loop_total (suc fuel) suffix (c ∷ cs) h =
    let next =
      parse_loop_total fuel suffix (skip_line_ends (break_at is_line_end (c ∷ cs)).1)
        (omega (arith, length-next c cs)) in
    rw (parse_loop_step fuel suffix c cs, next.1)
      (found_or_total (parse_line suffix (break_at is_line_end (c ∷ cs)).0) next.0)
  where
    found_or_total :
        (o : Option Count) (other : HibpResult)
        → (r : HibpResult) × (found_or o (some other) ≡ some r)
    found_or_total none other = (other, refl)
    found_or_total (some count) other = (verdict (some count), refl)

pub parse_response_total :
    (suffix response : Bytes) → (r : HibpResult) × (parse_response suffix response ≡ some r)
unfolding parse_response
parse_response_total suffix response =
    parse_loop_total (length response) suffix response (omega arith)
