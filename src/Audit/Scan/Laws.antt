-- ===== src/Audit/Scan/Laws.antt =====
-- What the loop over the entries gathers.
use duckpass.Audit.{EntryAuditResult, Config, AuditSystem, Task}
use duckpass.Audit.Scan.{
  Progress, first_result, add_result, launch_if, scan_entry, scan_loop, count_if,
}
use duckpass.Audit.Scan.Table.{push_all}
use duckpass.Crypto.Hash.{hex_loop, hex_chars, compute_sha256, compute_hash_ok}
use duckpass.Entropy.{EntropyScore}
use duckpass.Hibp.{HibpResult}
use duckpass.Prelude.{
  ℕ, zero, suc, ◌+◌, Bool, true, false, List, [], ◌∷◌, ◌++◌, ◌≡◌, refl, sym, ap, subst, ◌∙◌, Option,
  some, Bytes, length, length-append, get_at, map, arith,
}
use duckpass.Prelude.Result.{ok, bind-eq-ok}
use duckpass.Vault.Entries.{VaultEntry, Vault}

-- The SHA-256 of an entry's password, in hexadecimal digits.
unfoldable pub hash_of : AuditSystem → VaultEntry → Bytes
hash_of sys e = hex_loop (hex_chars false) (sys.sha256 e.password)

-- A round of the loop that returned.
abbrev pub Scanned : AuditSystem → Config → ℕ → VaultEntry → Progress → Progress → Type 0
Scanned sys config i e p q =
    (entropy : EntropyScore) × (started : List (Option HibpResult × Task)) × (sys.estimate_of i
        e.password
      ≡ ok entropy)
    × (launch_if sys config i e.password ≡ ok started)
    × (q ≡ add_result i (first_result sys config i e entropy) (hash_of sys e) started p)

scan_entry-Scanned :
    (sys : AuditSystem) (config : Config) (i : ℕ) (e : VaultEntry) (p : Progress) {q : Progress}
    → scan_entry sys config i e p ≡ ok q
    → Scanned sys config i e p q
unfolding scan_entry hash_of compute_sha256
scan_entry-Scanned sys config i e p {q = q} h =
    let a = bind-eq-ok (sys.estimate_of i e.password) _ h in
    let b = bind-eq-ok (compute_sha256 (sys.calls i) sys.sha256 e.password) _ a.2 in
    let c = bind-eq-ok (launch_if sys config i e.password) _ b.2 in
    let hash = compute_hash_ok (sys.calls i) sys.sha256 false e.password b.1 in
    let done : add_result i (first_result sys config i e a.0) b.0 c.0 p ≡ q = cc in
    (
      a.0,
      c.0,
      a.1,
      c.1,
      sym done ∙ ap (λ (h : Bytes). add_result i (first_result sys config i e a.0) h c.0 p) hash,
    )

-- Every round of a loop that returned has returned.
abbrev pub Rounds : AuditSystem → Config → ℕ → Vault → Progress → Progress → Type 0
Rounds sys config n [] p q = q ≡ p
Rounds sys config n (e ∷ entries) p q =
    (next : Progress) × Scanned sys config n e p next × Rounds sys config (n + 1) entries next q

pub scan_loop-Rounds :
    (sys : AuditSystem) (config : Config) (n : ℕ) (entries : Vault) (p : Progress) {q : Progress}
    → scan_loop sys config n entries p ≡ ok q
    → Rounds sys config n entries p q
unfolding scan_loop
scan_loop-Rounds sys config n [] p h = cc
scan_loop-Rounds sys config n (e ∷ entries) p h =
    let first = bind-eq-ok (scan_entry sys config n e p) _ h in
    (
      first.0,
      scan_entry-Scanned sys config n e p first.1,
      scan_loop-Rounds sys config (n + 1) entries first.0 first.2,
    )

pub hash_to_indices-Rounds :
    (sys : AuditSystem) (config : Config) (n : ℕ) (entries : Vault) (p q : Progress)
    → Rounds sys config n entries p q
    → q.hash_to_indices ≡ push_all n (map (hash_of sys) entries) p.hash_to_indices
unfolding push_all add_result
hash_to_indices-Rounds sys config n [] p q r = ap (λ (x : Progress). x.hash_to_indices) r
hash_to_indices-Rounds sys config n (e ∷ entries) p q (next, (entropy, started, v, l, step), rest) =
    hash_to_indices-Rounds sys config (n + 1) entries next q rest
    ∙ ap (λ (x : Progress). push_all (n + 1) (map (hash_of sys) entries) x.hash_to_indices) step

unfoldable pub count_true : List Bool → ℕ
count_true [] = 0
count_true (b ∷ bs) = count_if b (count_true bs)

abbrev pub weak_of : EntryAuditResult → Bool
weak_of r = r.entropy.is_weak

abbrev pub stale_of : EntryAuditResult → Bool
stale_of r = r.is_stale

abbrev pub HasCounts : Progress → Type 0
HasCounts p =
    (p.weak_passwords ≡ count_true (map weak_of p.results))
    × (p.stale_passwords ≡ count_true (map stale_of p.results))

count_true-end :
    (f : EntryAuditResult → Bool) (rs : List EntryAuditResult) (r : EntryAuditResult)
    → count_true (map f (rs ++ r ∷ [])) ≡ count_if (f r) (count_true (map f rs))
unfolding count_true
count_true-end f [] r = refl
count_true-end f (x ∷ rs) r =
    ap (count_if (f x)) (count_true-end f rs r) ∙ swap (f x) (f r) (count_true (map f rs))
  where
    swap : (a b : Bool) (n : ℕ) → count_if a (count_if b n) ≡ count_if b (count_if a n)
    swap true true n = refl
    swap true false n = refl
    swap false true n = refl
    swap false false n = refl

add_result-HasCounts :
    (i : ℕ) (r : EntryAuditResult) (hash : Bytes) (started : List (Option HibpResult × Task))
    (p : Progress)
    → HasCounts p
    → HasCounts (add_result i r hash started p)
unfolding add_result
add_result-HasCounts i r hash started p h = (
  ap (count_if (weak_of r)) h.0 ∙ sym (count_true-end weak_of p.results r),
  ap (count_if (stale_of r)) h.1 ∙ sym (count_true-end stale_of p.results r),
)

-- The list of results grows at its end.
pub get_at-append :
    {A : Type 0} (xs ys : List A) (i : ℕ) (x : A)
    → get_at xs i ≡ some x
    → get_at (xs ++ ys) i ≡ some x
get_at-append [] ys i x h = cc
get_at-append (y ∷ xs) ys zero x h = h
get_at-append (y ∷ xs) ys (suc i) x h = get_at-append xs ys i x h

pub get_at-end : {A : Type 0} (xs : List A) (x : A) → get_at (xs ++ x ∷ []) (length xs) ≡ some x
get_at-end [] x = refl
get_at-end (y ∷ xs) x = get_at-end xs x

results-kept :
    (sys : AuditSystem) (config : Config) (n : ℕ) (entries : Vault) (p q : Progress) (i : ℕ)
    (x : EntryAuditResult)
    → Rounds sys config n entries p q
    → get_at p.results i ≡ some x
    → get_at q.results i ≡ some x
unfolding add_result
results-kept sys config n [] p q i x r h = ap (λ (y : Progress). get_at y.results i) r ∙ h
results-kept sys config n (e ∷ entries) p q i x (next, (entropy, started, v, l, step), rest) h =
    results-kept sys config (n + 1) entries next q i x rest
      (ap (λ (y : Progress). get_at y.results i) step ∙ get_at-append p.results _ i x h)

-- The result of an entry, as the loop has it.
abbrev pub HasResult : AuditSystem → Config → ℕ → VaultEntry → Progress → Type 0
HasResult sys config i e q =
    (entropy : EntropyScore) × (sys.estimate_of i e.password ≡ ok entropy)
    × (get_at q.results i ≡ some (first_result sys config i e entropy))

pub results-Rounds :
    (sys : AuditSystem) (config : Config) (n : ℕ) (entries : Vault) (p q : Progress) (i : ℕ)
    (e : VaultEntry)
    → length p.results ≡ n
    → Rounds sys config n entries p q
    → get_at entries i ≡ some e
    → HasResult sys config (n + i) e q
unfolding add_result
results-Rounds sys config n [] p q i e len r h = cc
results-Rounds sys config n (x ∷ entries) p q zero e len
      (next, (entropy, started, v, l, step), rest) h =
    let same : x ≡ e = cc in
    let here : n + 0 ≡ n = omega arith in
    rw (here, ← same)
      (
        entropy,
        v,
        results-kept sys config (n + 1) entries next q n _ rest (
            ap (λ (y : Progress). get_at y.results n) step
            ∙ (ap (get_at (p.results ++ first_result sys config n x entropy ∷ [])) (sym len)
                ∙ get_at-end p.results (first_result sys config n x entropy))),
      )
results-Rounds sys config n (x ∷ entries) p q (suc i) e len
      (next, (entropy, started, v, l, step), rest) h =
    let longer : length next.results ≡ n + 1 =
      ap (λ (y : Progress). length y.results) step
      ∙ (length-append p.results _ ∙ omega (arith, len)) in
    subst (λ (k : ℕ). HasResult sys config k e q) (omega arith)
      (results-Rounds sys config (n + 1) entries next q i e longer rest h)

-- The counters of the loop are those of its results.
pub counters-Rounds :
    (sys : AuditSystem) (config : Config) (n : ℕ) (entries : Vault) (p q : Progress)
    → Rounds sys config n entries p q
    → HasCounts p
    → HasCounts q
counters-Rounds sys config n [] p q r h = subst HasCounts (sym r) h
counters-Rounds sys config n (e ∷ entries) p q (next, (entropy, started, v, l, step), rest) h =
    counters-Rounds sys config (n + 1) entries next q rest (
      subst HasCounts (sym step)
        (add_result-HasCounts n (first_result sys config n e entropy) (hash_of sys e) started p h))
