-- ===== src/Tests/Hibp.antt =====
-- src/hibp_checker.cpp at concrete inputs.
use duckpass.Hibp.Bounds.{IsShort, parse_response_bounded}
use duckpass.Hibp.Loop.{
  requests, waited, Requests, check_password_bounded, check_password_anonymous,
}
use duckpass.Hibp.Range.{NoColon, split_lines, find_count, verdict, parse_response_lem}
use duckpass.Hibp.{
  HibpResult, Network, responded, endpoint, check_password, parse_response, parse_loop, parse_line,
  match_line,
}
use duckpass.Prelude.{
  ℕ, ◌^◌, ◌≤◌, ◌<◌, ◌≡◌, refl, ◌==◌, true, [], ◌∷◌, ◌++◌, some, Bytes, take, All, arith,
  if◌then◌else◌,
}
use duckpass.Text.CString.{c_str}

-- `ABCDE`, and suffixes `F1` and `F2`.
abbrev pub hash_one : Bytes
hash_one = 65 ∷ 66 ∷ 67 ∷ 68 ∷ 69 ∷ 70 ∷ 49 ∷ []

abbrev pub hash_two : Bytes
hash_two = 65 ∷ 66 ∷ 67 ∷ 68 ∷ 69 ∷ 70 ∷ 50 ∷ []

-- The lines `F0:7` and `F1:42`.
abbrev pub two_lines : Bytes
two_lines = 70 ∷ 48 ∷ 58 ∷ 55 ∷ 13 ∷ 10 ∷ 70 ∷ 49 ∷ 58 ∷ 52 ∷ 50 ∷ []

-- A network that asks to wait once.
abbrev pub slow_network : Network
slow_network = record {
  initialized = true;
  perform = λ attempt url. if attempt == 0 then responded 429 [] else responded 200 two_lines;
}

abbrev suffix : Bytes
suffix = 70 ∷ 49 ∷ []

suffix-NoColon : All NoColon suffix
suffix-NoColon = (refl, (refl, tt))

parse_response_lem_example :
    parse_response suffix two_lines ≡ some (verdict (find_count suffix (split_lines two_lines)))
parse_response_lem_example = parse_response_lem suffix two_lines suffix-NoColon

leaked_42 :
    parse_response suffix two_lines
    ≡ some (record { is_pwned = true; breach_count = some 42; error_message = [] })
unfolding parse_response parse_loop parse_line match_line
leaked_42 = refl

lines-IsShort : All (IsShort suffix) (split_lines two_lines)
unfolding split_lines
lines-IsShort = omega arith

parse_response_bounded_example :
    (r : HibpResult) × (n : ℕ) × (parse_response suffix two_lines ≡ some r)
    × (r.breach_count ≡ some n)
    × (n < 10 ^ 18)
    × (n < 2 ^ 63)
parse_response_bounded_example =
    parse_response_bounded suffix two_lines suffix-NoColon lines-IsShort

check_password_bounded_example :
    (requests (check_password slow_network hash_one).0 ≤ 4)
    × (waited (check_password slow_network hash_one).0 ≤ 14)
    × All (Requests (c_str (endpoint ++ take 5 hash_one))) (check_password slow_network hash_one).0
    × ((r : HibpResult) × ((check_password slow_network hash_one).1 ≡ some r))
check_password_bounded_example = check_password_bounded slow_network hash_one

check_password_anonymous_example :
    (check_password slow_network hash_one).0 ≡ (check_password slow_network hash_two).0
check_password_anonymous_example =
    check_password_anonymous slow_network hash_one hash_two (omega arith) (omega arith) refl
