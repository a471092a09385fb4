-- ===== src/Audit/Reuse/Table.antt =====
-- The groups of equal hashes: a table with every key once, and the places of a hash.
use duckpass.Audit.Scan.{Groups}
use duckpass.Prelude.{
  ℕ, zero, suc, ◌+◌, ◌<◌, true, false, List, [], ◌∷◌, ◌≡◌, refl, sym, ap, subst, ◌∙◌, some, Bytes,
  bytes_eq, bytes_eq_iff, bytes_eq_comm, bytes_eq_refl, get_at, if◌then◌else◌, arith, All,
  Bool-cases, inl, inr,
}
use duckpass.Audit.Reuse.Marks.{NotIn, Once}

-- The indices of a key, and no indices if it is not there.
unfoldable pub group : Bytes → Groups → List ℕ
group h [] = []
group h ((key, indices) ∷ groups) = if bytes_eq key h then indices else group h groups

abbrev pub Fresh : Bytes → Groups → Type 0
Fresh h = All (λ (g : Bytes × List ℕ). bytes_eq h g.0 ≡ false)

-- A hash table has every key once.
abbrev pub IsKeyed : Groups → Type 0
IsKeyed [] = Unit {0}
IsKeyed ((key, indices) ∷ groups) = Fresh key groups × IsKeyed groups

-- The order of a hash table's groups is any, but each key comes once with its indices.
abbrev pub IsOrder : (Groups → Groups) → Type 0
IsOrder order =
    (groups : Groups)
    → IsKeyed groups
    → IsKeyed (order groups) × ((h : Bytes) → group h (order groups) ≡ group h groups)

-- The places of a hash in a list of hashes, counted from `n`.
unfoldable pub positions : Bytes → List Bytes → ℕ → List ℕ
positions h [] n = []
positions h (x ∷ hashes) n =
    let more = positions h hashes (n + 1) in if bytes_eq h x then n ∷ more else more

positions-NotIn_above :
    (h : Bytes) (hashes : List Bytes) (n i : ℕ) → i < n → NotIn i (positions h hashes n)
unfolding positions
positions-NotIn_above h [] n i below = tt
positions-NotIn_above h (x ∷ hashes) n i below = elim (Bool-cases (bytes_eq h x)) [
  | inl same ↦ rw same (ground arith, positions-NotIn_above h hashes (n + 1) i (omega arith))
  | inr other ↦ rw other (positions-NotIn_above h hashes (n + 1) i (omega arith))
]

positions-NotIn :
    (key h : Bytes) (hashes : List Bytes) (n i : ℕ)
    → get_at hashes i ≡ some h
    → bytes_eq key h ≡ false
    → NotIn (n + i) (positions key hashes n)
unfolding positions
positions-NotIn key h [] n i at_i other = cc
positions-NotIn key h (x ∷ hashes) n zero at_i other =
    let same : x ≡ h = cc in
    rw (same, other) (positions-NotIn_above key hashes (n + 1) (n + 0) (omega arith))
positions-NotIn key h (x ∷ hashes) n (suc i) at_i other =
    let later : NotIn (n + suc i) (positions key hashes (n + 1)) =
      subst (λ (k : ℕ). NotIn k (positions key hashes (n + 1))) (omega arith)
        (positions-NotIn key h hashes (n + 1) i at_i other) in
    elim (Bool-cases (bytes_eq key x)) [
      | inl same ↦ rw same (ground arith, later)
      | inr differs ↦ rw differs later
    ]

positions-Once :
    (h : Bytes) (hashes : List Bytes) (n i : ℕ)
    → get_at hashes i ≡ some h
    → Once (n + i) (positions h hashes n)
unfolding positions
positions-Once h [] n i at_i = cc
positions-Once h (x ∷ hashes) n zero at_i =
    let same : x ≡ h = cc in
    rw (same, bytes_eq_refl h)
      (inl (ground arith, positions-NotIn_above h hashes (n + 1) (n + 0) (omega arith)))
positions-Once h (x ∷ hashes) n (suc i) at_i =
    let later : Once (n + suc i) (positions h hashes (n + 1)) =
      subst (λ (k : ℕ). Once k (positions h hashes (n + 1))) (omega arith)
        (positions-Once h hashes (n + 1) i at_i) in
    elim (Bool-cases (bytes_eq h x)) [
      | inl same ↦ rw same (inr (ground arith, later))
      | inr differs ↦ rw differs later
    ]

pub positions-NotIn_at :
    (key h : Bytes) (hashes : List Bytes) (i : ℕ)
    → get_at hashes i ≡ some h
    → bytes_eq key h ≡ false
    → NotIn i (positions key hashes 0)
positions-NotIn_at key h hashes i at_i other =
    subst (λ (k : ℕ). NotIn k (positions key hashes 0)) (omega arith)
      (positions-NotIn key h hashes 0 i at_i other)

pub positions-Once_at :
    (h : Bytes) (hashes : List Bytes) (i : ℕ)
    → get_at hashes i ≡ some h
    → Once i (positions h hashes 0)
positions-Once_at h hashes i at_i =
    subst (λ (k : ℕ). Once k (positions h hashes 0)) (omega arith)
      (positions-Once h hashes 0 i at_i)

pub group-Fresh :
    (key h : Bytes) (groups : Groups)
    → bytes_eq key h ≡ true
    → Fresh key groups
    → group h groups ≡ []
unfolding group
group-Fresh key h [] same f = refl
group-Fresh key h ((other, indices) ∷ groups) same f =
    let e : key ≡ h = (bytes_eq_iff key h).0 same in
    rw (bytes_eq_comm other h ∙ (ap (λ (z : Bytes). bytes_eq z other) (sym e) ∙ f.0))
      (group-Fresh key h groups same f.1)
