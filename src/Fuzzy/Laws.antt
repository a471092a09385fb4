-- ===== src/Fuzzy/Laws.antt =====
-- `fuzzy_match` finds the subsequences, whatever the case of the letters.
use duckpass.Fuzzy.{tolower, points, match_loop, fuzzy_match}
use duckpass.Prelude.{
  ℕ, ◌+◌, ◌<◌, ◌==◌, ==_iff, true, [], ◌∷◌, ◌≡◌, ◌≢◌, ◌↔◌, refl, Option, none, some, Bytes, is_some,
  arith, Bool-cases, Option-cases, inl, inr,
}

-- The characters of the first text stand in the second, in their order.
pub data Subsequence : Bytes → Bytes → Type 0 where
  nil : {t : Bytes} → Subsequence [] t
  keep :
      {a b : ℕ} {q t : Bytes}
      → tolower a ≡ tolower b
      → Subsequence q t
      → Subsequence (a ∷ q) (b ∷ t)
  skip : {b : ℕ} {q t : Bytes} → Subsequence q t → Subsequence q (b ∷ t)

-- To drop a character of the query keeps a subsequence.
tail_of : {a : ℕ} {q t : Bytes} → Subsequence (a ∷ q) t → Subsequence q t
tail_of (keep e s) = skip s
tail_of (skip s) = skip (tail_of s)

-- A match at the first character loses nothing.
greedy : {a b : ℕ} {q t : Bytes} → Subsequence (a ∷ q) (b ∷ t) → Subsequence q t
greedy (keep e s) = s
greedy (skip s) = tail_of s

no_match :
    {a b : ℕ} {q t : Bytes}
    → tolower a ≢ tolower b
    → Subsequence (a ∷ q) (b ∷ t)
    → Subsequence (a ∷ q) t
no_match other (keep e s) = absurd (other e)
no_match other (skip s) = s

not_in_empty : {a : ℕ} {q : Bytes} → ¬ Subsequence (a ∷ q) []
not_in_empty s = elim s [ ]

match_loop_sound :
    (q t : Bytes) (before : Option ℕ) (consecutive score : ℕ)
    → is_some (match_loop q t before consecutive score) ≡ true
    → Subsequence q t
unfolding match_loop
match_loop_sound [] t before consecutive score h = nil
match_loop_sound (a ∷ q) [] before consecutive score h = cc
match_loop_sound (a ∷ q) (b ∷ t) before consecutive score h =
    elim (Bool-cases (tolower a == tolower b)) [
      | inl same ↦ keep ((==_iff _ _).0 same) (
          match_loop_sound q t (some b) (consecutive + 1) (score + points (consecutive + 1) before)
            (rw same at h))
      | inr other ↦ skip (match_loop_sound (a ∷ q) t (some b) 0 score (rw other at h))
    ]

match_loop_complete :
    (q t : Bytes) (before : Option ℕ) (consecutive score : ℕ)
    → Subsequence q t
    → is_some (match_loop q t before consecutive score) ≡ true
unfolding match_loop
match_loop_complete [] t before consecutive score s = refl
match_loop_complete (a ∷ q) [] before consecutive score s = absurd (not_in_empty s)
match_loop_complete (a ∷ q) (b ∷ t) before consecutive score s =
    elim (Bool-cases (tolower a == tolower b)) [
      | inl same ↦ rw same (
          match_loop_complete q t (some b) (consecutive + 1)
            (score + points (consecutive + 1) before) (greedy s))
      | inr other ↦
          rw other (
            match_loop_complete (a ∷ q) t (some b) 0 score
              (no_match (λ e. cc ((==_iff _ _).1 e)) s))
    ]

-- The score is positive exactly when the query is empty or is, but for the case of its letters, a
-- subsequence of the target.
pub fuzzy_match-pos :
    (query target : Bytes) → (0 < fuzzy_match query target) ↔ Subsequence query target
unfolding fuzzy_match
fuzzy_match-pos [] target = (λ h. nil, λ s. omega arith)
fuzzy_match-pos (a ∷ q) [] = (λ h. absurd (omega arith), λ s. absurd (not_in_empty s))
fuzzy_match-pos (a ∷ q) (b ∷ t) = elim (Option-cases (match_loop (a ∷ q) (b ∷ t) none 0 0)) [
  | inl missing ↦ (
    λ h. absurd (let h' = rw (missing, fuzzy_match) at h in omega arith),
    λ s. let all = match_loop_complete (a ∷ q) (b ∷ t) none 0 0 s in cc (rw missing at all),
  )
  | inr (score, found) ↦ (
    λ h. match_loop_sound (a ∷ q) (b ∷ t) none 0 0 (rw found refl),
    λ s. rw (found, fuzzy_match) (omega arith),
  )
]
