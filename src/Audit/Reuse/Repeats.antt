-- ===== src/Audit/Reuse/Repeats.antt =====
-- `report.reused_passwords` against the hashes, in whatever order the hash table is read.
use duckpass.Audit.Reuse.{count_reused}
use duckpass.Audit.Reuse.Table.{group, group-Fresh, Fresh, IsKeyed, positions}
use duckpass.Audit.Scan.{Groups, count_if}
use duckpass.Prelude.{
  ℕ, suc, ◌+◌, ◌==◌, Bool, true, false, List, [], ◌∷◌, ◌≡◌, refl, sym, ap, ◌∙◌, Bytes, bytes_eq,
  bytes_eq_iff, bytes_eq_comm, bytes_eq_refl, length, ltb, if◌then◌else◌, Bool-cases, inl, inr,
  arith,
}

unfoldable pub occurrences : Bytes → List Bytes → ℕ
occurrences h [] = 0
occurrences h (x ∷ hashes) = count_if (bytes_eq h x) (occurrences h hashes)

-- How many different hashes occur more than once: each has one place with exactly one more behind it.
unfoldable pub repeats : List Bytes → ℕ
repeats [] = 0
repeats (h ∷ hashes) = count_if (occurrences h hashes == 1) (repeats hashes)

tail : List ℕ → List ℕ
tail [] = []
tail (i ∷ indices) = indices

-- A table without the first index of a hash.
pop : Bytes → Groups → Groups
pop h [] = []
pop h ((key, indices) ∷ groups) =
    if bytes_eq key h then (key, tail indices) ∷ groups else (key, indices) ∷ pop h groups

group-pop :
    (h x : Bytes) (groups : Groups)
    → group x (pop h groups) ≡ (if bytes_eq h x then tail (group x groups) else group x groups)
unfolding group pop tail
group-pop h x [] = elim (Bool-cases (bytes_eq h x)) [
  | inl same ↦ rw same refl
  | inr other ↦ rw other refl
]
group-pop h x ((key, indices) ∷ groups) = elim (Bool-cases (bytes_eq key h)) [
  | inl here ↦
      let e = (bytes_eq_iff key h).0 here in
      rw (here, e)
        (elim (Bool-cases (bytes_eq h x)) [ inl same ↦ rw same refl | inr other ↦ rw other refl ])
  | inr there ↦ rw there (elim (Bool-cases (bytes_eq key x)) [
    | inl mine ↦
        let e = (bytes_eq_iff key x).0 mine in
        rw (mine, bytes_eq_comm h x ∙ (ap (λ (z : Bytes). bytes_eq z h) (sym e) ∙ there)) refl
    | inr other ↦ rw other (group-pop h x groups)
  ])
]

Fresh-pop : (k h : Bytes) (groups : Groups) → Fresh k groups → Fresh k (pop h groups)
unfolding pop
Fresh-pop k h [] f = tt
Fresh-pop k h ((key, indices) ∷ groups) f = elim (Bool-cases (bytes_eq key h)) [
  | inl here ↦ rw here f
  | inr there ↦ rw there (f.0, Fresh-pop k h groups f.1)
]

IsKeyed-pop : (h : Bytes) (groups : Groups) → IsKeyed groups → IsKeyed (pop h groups)
unfolding pop
IsKeyed-pop h [] k = tt
IsKeyed-pop h ((key, indices) ∷ groups) k = elim (Bool-cases (bytes_eq key h)) [
  | inl here ↦ rw here k
  | inr there ↦ rw there (Fresh-pop key h groups k.0, IsKeyed-pop h groups k.1)
]

count_if-swap : (a b : Bool) (n : ℕ) → count_if a (count_if b n) ≡ count_if b (count_if a n)
count_if-swap true true n = refl
count_if-swap true false n = refl
count_if-swap false true n = refl
count_if-swap false false n = refl

if-count_if : (b : Bool) (n : ℕ) → (if b then suc n else n) ≡ count_if b n
if-count_if true n = refl
if-count_if false n = refl

popped :
    (indices : List ℕ) (n : ℕ)
    → count_if (ltb 1 (length indices)) n
      ≡ count_if (length indices == 2) (count_if (ltb 1 (length (tail indices))) n)
unfolding tail
popped [] n = refl
popped (i ∷ []) n = refl
popped (i ∷ j ∷ []) n = refl
popped (i ∷ j ∷ k ∷ indices) n = rw (three, two, more) refl
  where
    three : ltb 1 (length (i ∷ j ∷ k ∷ indices)) ≡ true
    three = ground arith

    two : (length (i ∷ j ∷ k ∷ indices) == 2) ≡ false
    two = ground arith

    more : ltb 1 (length (j ∷ k ∷ indices)) ≡ true
    more = ground arith

count_reused-pop :
    (h : Bytes) (groups : Groups)
    → count_reused groups ≡ count_if (length (group h groups) == 2) (count_reused (pop h groups))
unfolding count_reused pop group
count_reused-pop h [] = refl
count_reused-pop h ((key, indices) ∷ groups) = elim (Bool-cases (bytes_eq key h)) [
  | inl here ↦
      rw
        (
          here,
          if-count_if (ltb 1 (length indices)) (count_reused groups),
          if-count_if (ltb 1 (length (tail indices))) (count_reused groups),
        )
        (popped indices (count_reused groups))
  | inr there ↦
      rw
        (
          there,
          if-count_if (ltb 1 (length indices)) (count_reused groups),
          if-count_if (ltb 1 (length indices)) (count_reused (pop h groups)),
        )
        (ap (count_if (ltb 1 (length indices))) (count_reused-pop h groups)
          ∙ count_if-swap (ltb 1 (length indices)) (length (group h groups) == 2)
              (count_reused (pop h groups)))
]

length-positions :
    (h : Bytes) (hashes : List Bytes) (n : ℕ) → length (positions h hashes n) ≡ occurrences h hashes
unfolding positions occurrences
length-positions h [] n = refl
length-positions h (x ∷ hashes) n = elim (Bool-cases (bytes_eq h x)) [
  | inl same ↦ rw same (ap suc (length-positions h hashes (n + 1)))
  | inr other ↦ rw other (length-positions h hashes (n + 1))
]

count_reused-empty :
    (groups : Groups)
    → IsKeyed groups
    → ((h : Bytes) → group h groups ≡ [])
    → count_reused groups ≡ 0
unfolding count_reused group
count_reused-empty [] k e = refl
count_reused-empty ((key, indices) ∷ groups) k e =
    let mine : indices ≡ [] = rw (bytes_eq_refl key) at (e key) in
    rw mine (count_reused-empty groups k.1 rest)
  where
    rest : (h : Bytes) → group h groups ≡ []
    rest h = elim (Bool-cases (bytes_eq key h)) [
      | inl same ↦ group-Fresh key h groups same k.0
      | inr other ↦ rw other at (e h)
    ]

pub count_reused-repeats :
    (hashes : List Bytes) (n : ℕ) (groups : Groups)
    → IsKeyed groups
    → ((h : Bytes) → group h groups ≡ positions h hashes n)
    → count_reused groups ≡ repeats hashes
unfolding repeats positions tail
count_reused-repeats [] n groups k found = count_reused-empty groups k found
count_reused-repeats (h ∷ hashes) n groups k found =
    count_reused-pop h groups
    ∙ (ap (λ (l : ℕ). count_if (l == 2) (count_reused (pop h groups)))
          (ap length (found h) ∙ rw (bytes_eq_refl h) (ap suc (length-positions h hashes (n + 1))))
        ∙ (ap (count_if (suc (occurrences h hashes) == 2))
              (count_reused-repeats hashes (n + 1) (pop h groups) (IsKeyed-pop h groups k) rest)
            ∙ ap (λ (b : Bool). count_if b (repeats hashes)) (two (occurrences h hashes))))
  where
    two : (m : ℕ) → (suc m == 2) ≡ (m == 1)
    two m = ground arith

    rest : (x : Bytes) → group x (pop h groups) ≡ positions x hashes (n + 1)
    rest x = group-pop h x groups ∙ elim (Bool-cases (bytes_eq h x)) [
      | inl same ↦ rw (same, found x, bytes_eq_comm x h, same) refl
      | inr other ↦ rw (other, found x, bytes_eq_comm x h, other) refl
    ]
