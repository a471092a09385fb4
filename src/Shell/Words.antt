-- ===== src/Shell/Words.antt =====
-- What the trimming of src/shell_command.cpp leaves of a line.
use duckpass.Prelude.{
  ℕ, suc, true, false, &&_iff, ==_iff, [], ◌∷◌, ◌++◌, ◌≡◌, refl, subst, Bytes, ◌==◌, ◌&&◌,
  if◌then◌else◌, length, drop, is_empty, All, Bool-cases, inl, inr, ◌⊎◌,
}
use duckpass.Shell.{isspace, trim_front, trim_back, starts_with}

-- The first character is there and no space.
abbrev pub IsBegun : Bytes → Type 0
IsBegun [] = ⊥
IsBegun (c ∷ cs) = isspace c ≡ false

-- The last character is there and no space.
abbrev pub IsEnded : Bytes → Type 0
IsEnded [] = ⊥
IsEnded (c ∷ []) = isspace c ≡ false
IsEnded (c ∷ d ∷ cs) = IsEnded (d ∷ cs)

abbrev pub IsTrimmed : Bytes → Type 0
IsTrimmed s = IsBegun s × IsEnded s

abbrev pub IsBlank : Bytes → Type 0
IsBlank s = All (λ c. isspace c ≡ true) s

pub trim_front-blank : (w s : Bytes) → IsBlank w → trim_front (w ++ s) ≡ trim_front s
unfolding trim_front
trim_front-blank [] s h = refl
trim_front-blank (c ∷ w) s h = rw (h.0) (trim_front-blank w s h.1)

pub trim_front-begun : (s : Bytes) → IsBegun s → trim_front s ≡ s
unfolding trim_front
trim_front-begun [] h = absurd h
trim_front-begun (c ∷ cs) h = rw h refl

pub trim_back-blank : (w : Bytes) → IsBlank w → trim_back w ≡ []
unfolding trim_back
trim_back-blank [] h = refl
trim_back-blank (c ∷ w) h = rw (trim_back-blank w h.1, h.0) refl

pub trim_back-ended : (s w : Bytes) → IsEnded s → IsBlank w → trim_back (s ++ w) ≡ s
unfolding trim_back
trim_back-ended [] w e h = absurd e
trim_back-ended (c ∷ []) w e h = rw (trim_back-blank w h, e) refl
trim_back-ended (c ∷ d ∷ cs) w e h = rw (trim_back-ended (d ∷ cs) w e h) refl

pub IsEnded-append : (p s : Bytes) → IsEnded s → IsEnded (p ++ s)
IsEnded-append [] s e = e
IsEnded-append (c ∷ []) [] e = absurd e
IsEnded-append (c ∷ []) (d ∷ s) e = e
IsEnded-append (c ∷ d ∷ p) s e = IsEnded-append (d ∷ p) s e

IsEnded-tail : (c : ℕ) (cs : Bytes) → isspace c ≡ true → IsEnded (c ∷ cs) → IsEnded cs
IsEnded-tail c [] h e = absurd cc
IsEnded-tail c (d ∷ cs) h e = e

pub trim_front-IsTrimmed : (s : Bytes) → IsEnded s → IsTrimmed (trim_front s)
unfolding trim_front
trim_front-IsTrimmed [] e = absurd e
trim_front-IsTrimmed (c ∷ cs) e = elim (Bool-cases (isspace c)) [
  | inl space ↦ rw space (trim_front-IsTrimmed cs (IsEnded-tail c cs space e))
  | inr other ↦ rw other (other, e)
]

starts_with-nil : (q : Bytes) (c : ℕ) → starts_with (q ++ c ∷ []) [] ≡ false
unfolding starts_with
starts_with-nil [] c = refl
starts_with-nil (p ∷ q) c = refl

-- What a command leaves of a line, if its name ends in a space and the line does not.
pub drop-IsEnded :
    (q s : Bytes)
    → starts_with (q ++ 32 ∷ []) s ≡ true
    → IsEnded s
    → IsEnded (drop (suc (length q)) s)
unfolding starts_with
drop-IsEnded q [] h e = absurd e
drop-IsEnded [] (c ∷ s) h e =
    let space : 32 ≡ c = (==_iff 32 c).0 ((&&_iff (32 == c) true).0 h).0 in
    IsEnded-tail c s (subst (λ d. isspace d ≡ true) space refl) e
drop-IsEnded (p ∷ q) (c ∷ []) h e =
    let more = ((&&_iff (p == c) (starts_with (q ++ 32 ∷ []) [])).0 h).1 in
    let nothing = starts_with-nil q 32 in absurd cc
drop-IsEnded (p ∷ q) (c ∷ d ∷ s) h e =
    drop-IsEnded q (d ∷ s) ((&&_iff (p == c) (starts_with (q ++ 32 ∷ []) (d ∷ s))).0 h).1 e

-- Nothing, or a text that ends without a space.
abbrev pub IsCut : Bytes → Type 0
IsCut s = (s ≡ []) ⊎ IsEnded s

cons-IsCut :
    (c : ℕ) (rest : Bytes)
    → IsCut rest
    → IsCut (if is_empty rest && isspace c then [] else c ∷ rest)
cons-IsCut c [] h = elim (Bool-cases (isspace c)) [
  | inl space ↦ rw space (inl refl)
  | inr other ↦ rw other (inr other)
]
cons-IsCut c (d ∷ rest) (inl h) = absurd cc
cons-IsCut c (d ∷ rest) (inr e) = inr e

pub trim_back-IsCut : (s : Bytes) → IsCut (trim_back s)
unfolding trim_back
trim_back-IsCut [] = inl refl
trim_back-IsCut (c ∷ cs) = cons-IsCut c (trim_back cs) (trim_back-IsCut cs)
