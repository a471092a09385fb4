-- ===== src/Audit/Reuse/Marks.antt =====
-- The loops that mark the entries of a group, entry by entry.
use duckpass.Audit.{EntryAuditResult}
use duckpass.Audit.Reuse.{Results, update_at, service_at, others, with_reuse, mark_loop, mark_group}
use duckpass.Prelude.{
  ℕ, zero, suc, ◌==◌, ==_iff, Bool, true, false, List, [], ◌∷◌, ◌≡◌, refl, ◌∙◌, Option, none, some,
  Bytes, length, get_at, ltb, if◌then◌else◌, arith, All, Bool-cases, ◌⊎◌, inl, inr,
}

-- The change of an entry that is there.
abbrev pub changed :
    (EntryAuditResult → EntryAuditResult) → Option EntryAuditResult → Option EntryAuditResult
changed f none = none
changed f (some r) = some (f r)

get_at-update_at :
    (j : ℕ) (f : EntryAuditResult → EntryAuditResult) (rs : Results) (i : ℕ)
    → get_at (update_at j f rs) i ≡ (if j == i then changed f (get_at rs i) else get_at rs i)
unfolding update_at
get_at-update_at j f [] i = ground arith
get_at-update_at zero f (r ∷ rs) zero = ground arith
get_at-update_at zero f (r ∷ rs) (suc i) = ground arith
get_at-update_at (suc j) f (r ∷ rs) zero = ground arith
get_at-update_at (suc j) f (r ∷ rs) (suc i) =
    get_at-update_at j f rs i ∙ choose (j == i) (suc j == suc i) _ _ (ground arith)
  where
    choose :
        (b c : Bool) (x y : Option EntryAuditResult)
        → b ≡ c
        → (if b then x else y) ≡ (if c then x else y)
    choose b c x y e = rw e refl

service_at-update_at :
    (j : ℕ) (names : List Bytes) (rs : Results) (i : ℕ)
    → service_at (update_at j (with_reuse names) rs) i ≡ service_at rs i
unfolding update_at service_at
service_at-update_at j names [] i = refl
service_at-update_at zero names (r ∷ rs) zero = refl
service_at-update_at zero names (r ∷ rs) (suc i) = refl
service_at-update_at (suc j) names (r ∷ rs) zero = refl
service_at-update_at (suc j) names (r ∷ rs) (suc i) = service_at-update_at j names rs i

-- The same services at every index.
abbrev pub SameServices : Results → Results → Type 0
SameServices rs qs = (i : ℕ) → service_at rs i ≡ service_at qs i

pub others_same :
    (i : ℕ) (indices : List ℕ) (rs qs : Results)
    → SameServices rs qs
    → others i indices rs ≡ others i indices qs
unfolding others
others_same i [] rs qs s = refl
others_same i (j ∷ indices) rs qs s = rw (others_same i indices rs qs s, s j) refl

mark_loop_same :
    (left indices : List ℕ) (rs : Results) → SameServices (mark_loop left indices rs) rs
unfolding mark_loop
mark_loop_same [] indices rs i = refl
mark_loop_same (j ∷ left) indices rs i =
    mark_loop_same left indices _ i ∙ service_at-update_at j _ rs i

pub mark_group_same : (indices : List ℕ) (rs : Results) → SameServices (mark_group indices rs) rs
unfolding mark_group
mark_group_same indices rs i = elim (Bool-cases (ltb 1 (length indices))) [
  | inl many ↦ rw many (mark_loop_same indices indices rs i)
  | inr few ↦ rw few refl
]

abbrev pub NotIn : ℕ → List ℕ → Type 0
NotIn i = All (λ (j : ℕ). (j == i) ≡ false)

abbrev pub Once : ℕ → List ℕ → Type 0
Once i [] = ⊥
Once i (j ∷ indices) = (((j == i) ≡ true) × NotIn i indices) ⊎ (((j == i) ≡ false) × Once i indices)

mark_loop-NotIn :
    (i : ℕ) (left indices : List ℕ) (rs : Results)
    → NotIn i left
    → get_at (mark_loop left indices rs) i ≡ get_at rs i
unfolding mark_loop
mark_loop-NotIn i [] indices rs a = refl
mark_loop-NotIn i (j ∷ left) indices rs a =
    mark_loop-NotIn i left indices _ a.1 ∙ (get_at-update_at j _ rs i ∙ rw a.0 refl)

mark_loop-Once :
    (i : ℕ) (left indices : List ℕ) (rs : Results)
    → Once i left
    → get_at (mark_loop left indices rs) i
      ≡ changed (with_reuse (others i indices rs)) (get_at rs i)
unfolding mark_loop
mark_loop-Once i [] indices rs a = absurd a
mark_loop-Once i (j ∷ left) indices rs (inl here) =
    mark_loop-NotIn i left indices _ here.1
    ∙ (get_at-update_at j _ rs i ∙ rw (here.0) (rw ((==_iff j i).0 here.0) refl))
mark_loop-Once i (j ∷ left) indices rs (inr there) =
    let marked = update_at j (with_reuse (others j indices rs)) rs in
    mark_loop-Once i left indices marked there.1
    ∙ rw
        (
          get_at-update_at j (with_reuse (others j indices rs)) rs i,
          there.0,
          others_same i indices marked rs (service_at-update_at j (others j indices rs) rs),
        )
        refl

-- What a group with an entry in it does to the entry.
unfoldable pub effect : ℕ → List ℕ → Results → Option EntryAuditResult → Option EntryAuditResult
effect i indices rs o =
    if ltb 1 (length indices) then changed (with_reuse (others i indices rs)) o else o

pub mark_group-Once :
    (i : ℕ) (indices : List ℕ) (rs : Results)
    → Once i indices
    → get_at (mark_group indices rs) i ≡ effect i indices rs (get_at rs i)
unfolding mark_group effect
mark_group-Once i indices rs once = elim (Bool-cases (ltb 1 (length indices))) [
  | inl many ↦ rw many (mark_loop-Once i indices indices rs once)
  | inr few ↦ rw few refl
]

pub mark_group-NotIn :
    (i : ℕ) (indices : List ℕ) (rs : Results)
    → NotIn i indices
    → get_at (mark_group indices rs) i ≡ get_at rs i
unfolding mark_group
mark_group-NotIn i indices rs a = elim (Bool-cases (ltb 1 (length indices))) [
  | inl many ↦ rw many (mark_loop-NotIn i indices indices rs a)
  | inr few ↦ rw few refl
]
