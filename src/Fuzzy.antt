-- ===== src/Fuzzy.antt =====
-- `fuzzy_match` of src/utils.cpp. The score is an `int` that never falls below 0 before its penalty, and
-- `std::max(1, score)` hides what a subtraction below 0 gives.
pub mod Laws
use duckpass.Prelude.{
  ℕ, suc, ◌+◌, ◌-◌, ◌*◌, max, ◌==◌, Bool, true, false, ◌&&◌, ◌||◌, List, [], ◌∷◌, Option, none,
  some, Bytes, is_empty, length, ltb, leb, if◌then◌else◌,
}

-- `std::tolower` in the C locale.
unfoldable pub tolower : ℕ → ℕ
tolower c = if leb b'A' c && leb c b'Z' then c + 32 else c

-- The first character, or one after a separator. The character before is `none` at the start.
unfoldable pub at_boundary : Option ℕ → Bool
at_boundary none = true
at_boundary (some c) = c == b'.' || c == b'-' || c == b'_'

-- What a matching character adds, when it is the `consecutive`-th in a row.
unfoldable pub points : ℕ → Option ℕ → ℕ
points consecutive before =
    10
    + (if ltb 1 consecutive then (consecutive - 1) * 5 else 0)
    + (if at_boundary before then 25 else 0)

-- The loop, on what is left of the query and of the target; `none` if the query is not used up.
unfoldable pub match_loop : Bytes → Bytes → Option ℕ → ℕ → ℕ → Option ℕ
match_loop [] target before consecutive score = some score
match_loop (q ∷ query) [] before consecutive score = none
match_loop (q ∷ query) (t ∷ target) before consecutive score =
    let found =
      match_loop query target (some t) (consecutive + 1)
        (score + points (consecutive + 1) before) in
    let missed = match_loop (q ∷ query) target (some t) 0 score in
    if tolower q == tolower t then found else missed

unfoldable pub fuzzy_match : Bytes → Bytes → ℕ
fuzzy_match query target =
    if is_empty query
    then 1
    else if is_empty target
    then 0
    else elim (match_loop query target none 0 0) [
      | none ↦ 0
      | some score ↦ max 1 (score - (length target - length query) * 2)
    ]
