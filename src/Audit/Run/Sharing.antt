-- ===== src/Audit/Run/Sharing.antt =====
-- The entries that share a password, said of the vault, against the groups of the hash table.
use duckpass.Audit.{EntryAuditResult, AuditSystem}
use duckpass.Audit.Reuse.{Results, service_at, others, with_reuse}
use duckpass.Audit.Reuse.Marks.{NotIn, Once, effect, changed}
use duckpass.Audit.Reuse.Table.{positions}
use duckpass.Audit.Scan.Laws.{hash_of}
use duckpass.Crypto.Hash.{hex_loop, hex_chars, read_hex, read_hex-hex_loop}
use duckpass.Prelude.{
  ℕ, zero, suc, ◌+◌, ◌==◌, Bool, true, false, List, [], ◌∷◌, ◌≡◌, refl, sym, ap, ◌∙◌, Option, some,
  Bytes, bytes_eq, bytes_eq_iff, length, get_at, map, ltb, if◌then◌else◌, arith, All, IsByte,
  Bool-cases, inl, inr,
}
use duckpass.Text.CString.{c_str}
use duckpass.Vault.Entries.{VaultEntry, Vault}

-- The services of the entries, from place `n` on, whose passwords have a digest, but for place `i`.
unfoldable pub sharing : AuditSystem → Bytes → ℕ → ℕ → Vault → List Bytes
sharing sys digest i n [] = []
sharing sys digest i n (e ∷ entries) =
    let more = sharing sys digest i (n + 1) entries in
    if bytes_eq digest (sys.sha256 e.password)
    then (if i == n then more else c_str e.service ∷ more)
    else more

abbrev pub is_none : List Bytes → Bool
is_none [] = true
is_none (_ ∷ _) = false

-- OpenSSL's digests are bytes.
abbrev pub GivesBytes : AuditSystem → Type 0
GivesBytes sys = (input : Bytes) → All IsByte (sys.sha256 input)

bytes_eq-hex_loop :
    (a b : Bytes)
    → All IsByte a
    → All IsByte b
    → bytes_eq (hex_loop (hex_chars false) a) (hex_loop (hex_chars false) b) ≡ bytes_eq a b
bytes_eq-hex_loop a b ha hb = elim (Bool-cases (bytes_eq a b)) [
  | inl same ↦
      rw same ((bytes_eq_iff _ _).1 (ap (hex_loop (hex_chars false)) ((bytes_eq_iff a b).0 same)))
  | inr differ ↦
      elim (Bool-cases (bytes_eq (hex_loop (hex_chars false) a) (hex_loop (hex_chars false) b))) [
        | inr also ↦ also ∙ sym differ
        | inl same ↦
            let digests =
              sym (read_hex-hex_loop false a ha)
              ∙ (ap read_hex ((bytes_eq_iff _ _).0 same) ∙ read_hex-hex_loop false b hb) in
            let equal = (bytes_eq_iff a b).1 digests in cc
      ]
]

-- Results with the services of the entries.
abbrev pub Serves : Results → ℕ → Vault → Type 0
Serves rs n entries =
    (j : ℕ) (e : VaultEntry) → get_at entries j ≡ some e → service_at rs (n + j) ≡ c_str e.service

pub others-sharing :
    (sys : AuditSystem) (digest : Bytes) (i n : ℕ) (entries : Vault) (rs : Results)
    → GivesBytes sys
    → All IsByte digest
    → Serves rs n entries
    → others i (positions (hex_loop (hex_chars false) digest) (map (hash_of sys) entries) n) rs
      ≡ sharing sys digest i n entries
unfolding others positions sharing
others-sharing sys digest i n [] rs g d s = refl
others-sharing sys digest i n (e ∷ entries) rs g d s =
    let rest =
      others-sharing sys digest i (n + 1) entries rs g d
        (λ j x h. ap (service_at rs) (omega arith) ∙ s (suc j) x h) in
    let eqs : bytes_eq (hex_loop (hex_chars false) digest) (hash_of sys e)
        ≡ bytes_eq digest (sys.sha256 e.password) =
      unfold hash_of in bytes_eq-hex_loop digest (sys.sha256 e.password) d (g e.password) in
    let here : service_at rs n ≡ c_str e.service =
      ap (service_at rs) (omega arith) ∙ s zero e refl in
    elim (Bool-cases (bytes_eq digest (sys.sha256 e.password))) [
      | inr differs ↦ rw (eqs, differs) rest
      | inl same ↦ rw (eqs, same) (rw (others, here, rest) refl)
    ]

length-others-NotIn :
    (i : ℕ) (indices : List ℕ) (rs : Results)
    → NotIn i indices
    → length (others i indices rs) ≡ length indices
unfolding others
length-others-NotIn i [] rs a = refl
length-others-NotIn i (j ∷ indices) rs a =
    let other : (i == j) ≡ false = ground (arith, a.0) in
    rw other (ap suc (length-others-NotIn i indices rs a.1))

length-others-Once :
    (i : ℕ) (indices : List ℕ) (rs : Results)
    → Once i indices
    → suc (length (others i indices rs)) ≡ length indices
unfolding others
length-others-Once i [] rs a = absurd a
length-others-Once i (j ∷ indices) rs (inl here) =
    let same : (i == j) ≡ true = ground (arith, here.0) in
    rw same (ap suc (length-others-NotIn i indices rs here.1))
length-others-Once i (j ∷ indices) rs (inr there) =
    let other : (i == j) ≡ false = ground (arith, there.0) in
    rw other (ap suc (length-others-Once i indices rs there.1))

-- A result that is marked with the services of others, if there are any.
abbrev pub marked : List Bytes → EntryAuditResult → EntryAuditResult
marked [] r = r
marked (name ∷ names) r = with_reuse (name ∷ names) r

pub effect-Once :
    (i : ℕ) (indices : List ℕ) (rs : Results) (o : Option EntryAuditResult)
    → Once i indices
    → effect i indices rs o ≡ changed (marked (others i indices rs)) o
unfolding effect
effect-Once i indices rs o once =
    by_length (others i indices rs) (length-others-Once i indices rs once)
  where
    by_length :
        (names : List Bytes)
        → suc (length names) ≡ length indices
        → (if ltb 1 (length indices) then changed (with_reuse names) o else o)
          ≡ changed (marked names) o
    by_length [] h = rw (← h) (alone o)
      where
        alone : (o : Option EntryAuditResult) → o ≡ changed (λ r. r) o
        alone Option.none = refl
        alone (some r) = refl
    by_length (name ∷ names) h =
        let many : ltb 1 (length indices) ≡ true = ground (arith, h) in rw many refl
