-- ===== src/Export/Csv/Laws.antt =====
-- A reader of quoted fields reads what was written, and what it reads is no formula.
use duckpass.Export.Csv.{starts_formula, shield, double_quotes, write_csv_field}
use duckpass.Prelude.{
  ℕ, ◌==◌, ==_iff, true, false, ◌⊎◌, ◌↔◌, subst, arith, [], ◌∷◌, ◌++◌, ◌≡◌, refl, sym, ap, ◌∙◌,
  Option, none, some, Bytes, if◌then◌else◌, Bool-cases, inl, inr, append_assoc,
}

-- A character before what a reader gives.
abbrev pub before : ℕ → Option (Bytes × Bytes) → Option (Bytes × Bytes)
before c none = none
before c (some (field, rest)) = some (c ∷ field, rest)

-- A quoted field, as RFC 4180 has it, after its opening quote: two quotes are one of the field, one ends it.
unfoldable pub read_quoted : Bytes → Option (Bytes × Bytes)
read_quoted [] = none
read_quoted (c ∷ []) = if c == b'"' then some ([], []) else none
read_quoted (c ∷ d ∷ rest) =
    let doubled = before b'"' (read_quoted rest) in
    let plain = before c (read_quoted (d ∷ rest)) in
    if c == b'"' then (if d == b'"' then doubled else some ([], d ∷ rest)) else plain

unfoldable pub read_csv_field : Bytes → Option (Bytes × Bytes)
read_csv_field [] = none
read_csv_field (c ∷ rest) = if c == b'"' then read_quoted rest else none

-- What follows the field does not continue it.
abbrev pub Ends : Bytes → Type 0
Ends [] = Unit {0}
Ends (d ∷ rest) = (d == b'"') ≡ false

-- A spreadsheet takes a field for a formula if its first character is one of these six.
abbrev pub IsFormula : Bytes → Type 0
IsFormula [] = ⊥
IsFormula (c ∷ field) =
    (c ≡ b'=') ⊎ (c ≡ b'+') ⊎ (c ≡ b'-') ⊎ (c ≡ b'@') ⊎ (c ≡ b'\t') ⊎ (c ≡ b'\r')

-- A text as it is, or with an apostrophe before it if it would be a formula.
abbrev pub IsShielded : Bytes → Bytes → Type 0
IsShielded field s = (¬◌ (IsFormula field) × (s ≡ field)) ⊎ (IsFormula field × (s ≡ b'\'' ∷ field))

starts_formula_lem : (c : ℕ) (field : Bytes) → (starts_formula c ≡ true) ↔ IsFormula (c ∷ field)
unfolding starts_formula
starts_formula_lem c field = ground arith

read_quoted_plain :
    (c : ℕ) (rest : Bytes)
    → (c == b'"') ≡ false
    → read_quoted (c ∷ rest) ≡ before c (read_quoted rest)
unfolding read_quoted
read_quoted_plain c [] h = rw h refl
read_quoted_plain c (d ∷ rest) h = rw h refl

read_quoted-double_quotes :
    (field rest : Bytes)
    → Ends rest
    → read_quoted (double_quotes field ++ b'"' ∷ rest) ≡ some (field, rest)
unfolding read_quoted double_quotes
read_quoted-double_quotes [] [] e = refl
read_quoted-double_quotes [] (d ∷ rest) e = rw e refl
read_quoted-double_quotes (c ∷ field) rest e = elim (Bool-cases (c == b'"')) [
  | inl quote ↦ rw quote (
      ap (before b'"') (read_quoted-double_quotes field rest e)
      ∙ ap (λ (x : ℕ). some (x ∷ field, rest)) (sym ((==_iff c b'"').0 quote)))
  | inr plain ↦
      rw plain
        (read_quoted_plain c _ plain ∙ ap (before c) (read_quoted-double_quotes field rest e))
]

shield-IsShielded : (field : Bytes) → IsShielded field (shield field ++ field)
unfolding shield
shield-IsShielded [] = inl ((λ h. h), refl)
shield-IsShielded (c ∷ field) = elim (Bool-cases (starts_formula c)) [
  | inl formula ↦ rw formula (inr ((starts_formula_lem c field).0 formula, refl))
  | inr safe ↦ rw safe (inl ((λ h. let yes = (starts_formula_lem c field).1 h in absurd cc), refl))
]

IsShielded-safe : (field s : Bytes) → IsShielded field s → ¬◌ (IsFormula s)
IsShielded-safe field s (inl (safe, same)) = λ h. safe (subst IsFormula same h)
IsShielded-safe field s (inr (formula, same)) = λ h. apostrophe (subst IsFormula same h)
  where
    apostrophe : ¬◌ (IsFormula (b'\'' ∷ field))
    apostrophe h = ground arith

double_quotes-shield :
    (field : Bytes) → double_quotes (shield field ++ field) ≡ shield field ++ double_quotes field
unfolding shield double_quotes
double_quotes-shield [] = refl
double_quotes-shield (c ∷ field) = elim (Bool-cases (starts_formula c)) [
  | inl formula ↦ rw formula refl
  | inr safe ↦ rw safe refl
]

-- A field that is followed by no quote is read back as it was written, if its first character is none of
-- `=`, `+`, `-`, `@`, tab and carriage return, and else with an apostrophe before it; so what a reader gets
-- never starts with one of the six.
pub read_csv_field-write_csv_field :
    (field rest : Bytes)
    → Ends rest
    → (s : Bytes) × (read_csv_field (write_csv_field field ++ rest) ≡ some (s, rest))
      × IsShielded field s
      × ¬◌ (IsFormula s)
unfolding read_csv_field write_csv_field
read_csv_field-write_csv_field field rest e = (
  shield field ++ field,
  ap read_quoted (
        append_assoc (shield field) _ rest
        ∙ (ap (◌++◌ (shield field)) (append_assoc (double_quotes field) (b'"' ∷ []) rest)
            ∙ (sym (append_assoc (shield field) (double_quotes field) (b'"' ∷ rest))
                ∙ ap (λ (x : Bytes). x ++ b'"' ∷ rest) (sym (double_quotes-shield field)))))
      ∙ read_quoted-double_quotes (shield field ++ field) rest e,
  shield-IsShielded field,
  IsShielded-safe field _ (shield-IsShielded field),
)
