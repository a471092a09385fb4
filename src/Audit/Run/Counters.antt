-- ===== src/Audit/Run/Counters.antt =====
-- The counters of a report against its entries.
use duckpass.Audit.{EntryAuditResult, AuditReport, Config, AuditSystem, Task}
use duckpass.Audit.Reuse.Repeats.{repeats, count_reused-repeats}
use duckpass.Audit.Reuse.Table.{IsOrder}
use duckpass.Audit.Scan.Table.{push_all-Places}
use duckpass.Audit.Reuse.{
  count_reused, Results, others, with_reuse, update_at, mark_loop, mark_group, finalize_reuses,
}
use duckpass.Audit.Run.{fetch, fetch_all, with_hibp, no_progress, finalize, run_audit}
use duckpass.Audit.Run.Laws.{run_audit-eq-ok}
use duckpass.Audit.Scan.{Groups, Progress, first_result, add_result, count_if}
use duckpass.Audit.Scan.Laws.{
  hash_of, hash_to_indices-Rounds, Rounds, HasCounts, counters-Rounds, count_true, weak_of,
  stale_of,
}
use duckpass.Entropy.{EntropyScore}
use duckpass.Hibp.{HibpResult, clean, with_error}
use duckpass.Prelude.{
  ℕ, zero, suc, ◌+◌, Bool, true, false, List, [], ◌∷◌, ◌++◌, ◌≡◌, refl, sym, ap, subst, ◌∙◌, Option,
  Bytes, length, map, ltb, if◌then◌else◌, arith, Bool-cases, inl, inr,
}
use duckpass.Prelude.Result.{ok}
use duckpass.Vault.Entries.{VaultEntry, Vault}

abbrev pub pwned_of : EntryAuditResult → Bool
pwned_of r = r.hibp.is_pwned

-- A member that the marks leave alone.
module _ (f : EntryAuditResult → Bool)
    (kept : (names : List Bytes) (r : EntryAuditResult) → f (with_reuse names r) ≡ f r) where
  map-update_at :
      (i : ℕ) (names : List Bytes) (rs : Results)
      → map f (update_at i (with_reuse names) rs) ≡ map f rs
  unfolding update_at
  map-update_at i names [] = refl
  map-update_at zero names (r ∷ rs) = ap (λ (b : Bool). b ∷ map f rs) (kept names r)
  map-update_at (suc i) names (r ∷ rs) = ap (◌∷◌ (f r)) (map-update_at i names rs)

  map-mark_loop :
      (left indices : List ℕ) (rs : Results) → map f (mark_loop left indices rs) ≡ map f rs
  unfolding mark_loop
  map-mark_loop [] indices rs = refl
  map-mark_loop (i ∷ left) indices rs =
      map-mark_loop left indices _ ∙ map-update_at i (others i indices rs) rs

  map-mark_group : (indices : List ℕ) (rs : Results) → map f (mark_group indices rs) ≡ map f rs
  unfolding mark_group
  map-mark_group indices rs = elim (Bool-cases (ltb 1 (length indices))) [
    | inl many ↦ rw many (map-mark_loop indices indices rs)
    | inr few ↦ rw few refl
  ]

  map-finalize_reuses :
      (groups : Groups) (rs : Results) → map f (finalize_reuses groups rs) ≡ map f rs
  unfolding finalize_reuses
  map-finalize_reuses [] rs = refl
  map-finalize_reuses ((key, indices) ∷ groups) rs =
      map-finalize_reuses groups (mark_group indices rs) ∙ map-mark_group indices rs

-- A member that reading the futures leaves alone.
map-fetch_all :
    (f : EntryAuditResult → Bool)
    → ((hibp : HibpResult) (r : EntryAuditResult) → f (with_hibp hibp r) ≡ f r)
    → (futures : List (Option HibpResult × Task)) (rs : Results)
    → map f (fetch_all futures rs).0 ≡ map f rs
unfolding fetch_all
map-fetch_all f kept [] rs = refl
map-fetch_all f kept (future ∷ futures) [] = refl
map-fetch_all f kept (future ∷ futures) (r ∷ rs) =
    ap (λ (b : Bool). b ∷ map f (fetch_all futures rs).0) (kept (fetch future) r)
    ∙ ap (◌∷◌ (f r)) (map-fetch_all f kept futures rs)

-- No result is of a leak before the futures are read.
abbrev Clean : Results → Type 0
Clean rs = count_true (map pwned_of rs) ≡ 0

pwned-fetch_all :
    (futures : List (Option HibpResult × Task)) (rs : Results)
    → Clean rs
    → (fetch_all futures rs).1 ≡ count_true (map pwned_of (fetch_all futures rs).0)
unfolding fetch_all count_true
pwned-fetch_all [] rs c = sym c
pwned-fetch_all (future ∷ futures) [] c = refl
pwned-fetch_all (future ∷ futures) (r ∷ rs) c = elim (Bool-cases (pwned_of r)) [
  | inl bad ↦ absurd (never (pwned_of r) (count_true (map pwned_of rs)) bad c)
  | inr good ↦
      counted (fetch future).is_pwned _ _
        (pwned-fetch_all futures rs (rest (pwned_of r) (count_true (map pwned_of rs)) c))
]
  where
    never : (b : Bool) (n : ℕ) → b ≡ true → count_if b n ≡ 0 → ⊥
    never true n e h = absurd (omega arith)
    never false n e h = cc

    rest : (b : Bool) (n : ℕ) → count_if b n ≡ 0 → n ≡ 0
    rest true n h = absurd (omega arith)
    rest false n h = h

    counted : (b : Bool) (m n : ℕ) → m ≡ n → (if b then suc m else m) ≡ count_if b n
    counted true m n h = ap suc h
    counted false m n h = h

Clean-end :
    (rs : Results) (r : EntryAuditResult) → pwned_of r ≡ false → Clean rs → Clean (rs ++ r ∷ [])
unfolding count_true
Clean-end [] r good c = rw good refl
Clean-end (x ∷ rs) r good c = elim (Bool-cases (pwned_of x)) [
  | inl bad ↦ absurd (never (pwned_of x) (count_true (map pwned_of rs)) bad c)
  | inr fine ↦
      ap (λ (b : Bool). count_if b (count_true (map pwned_of (rs ++ r ∷ [])))) fine
      ∙ Clean-end rs r good
          (ap (λ (b : Bool). count_if b (count_true (map pwned_of rs))) (sym fine) ∙ c)
]
  where
    never : (b : Bool) (n : ℕ) → b ≡ true → count_if b n ≡ 0 → ⊥
    never true n e h = absurd (omega arith)
    never false n e h = cc

first_result-good :
    (sys : AuditSystem) (config : Config) (i : ℕ) (e : VaultEntry) (entropy : EntropyScore)
    → pwned_of (first_result sys config i e entropy) ≡ false
unfolding first_result
first_result-good sys config i e entropy = unpwned config.check_online _
  where
    unpwned : (b : Bool) (m : Bytes) → (if b then clean else with_error m).is_pwned ≡ false
    unpwned true m = refl
    unpwned false m = refl

Clean-Rounds :
    (sys : AuditSystem) (config : Config) (n : ℕ) (entries : Vault) (p q : Progress)
    → Rounds sys config n entries p q
    → Clean p.results
    → Clean q.results
unfolding add_result
Clean-Rounds sys config n [] p q r c =
    ap (λ (x : Progress). count_true (map pwned_of x.results)) r ∙ c
Clean-Rounds sys config n (e ∷ entries) p q (next, (entropy, started, v, l, step), rest) c =
    Clean-Rounds sys config (n + 1) entries next q rest (
      ap (λ (x : Progress). count_true (map pwned_of x.results)) step
      ∙ Clean-end p.results (first_result sys config n e entropy)
          (first_result-good sys config n e entropy) c)

-- The counters of a report say how many of its entries have each mark.
abbrev pub Counts : AuditReport → Type 0
Counts report =
    (report.weak_passwords ≡ count_true (map weak_of report.entries))
    × (report.stale_passwords ≡ count_true (map stale_of report.entries))
    × (report.pwned_passwords ≡ count_true (map pwned_of report.entries))

finalize-Counts :
    (config : Config) (order : Groups → Groups) (vault : Vault) (p : Progress)
    → HasCounts p
    → Clean p.results
    → Counts (finalize config order vault p)
unfolding finalize
finalize-Counts config order vault p h c =
    leaks config.check_online (finalize_reuses (order p.hash_to_indices) p.results)
      (map-finalize_reuses weak_of (λ names r. refl) (order p.hash_to_indices) p.results)
      (map-finalize_reuses stale_of (λ names r. refl) (order p.hash_to_indices) p.results)
      (ap count_true
          (map-finalize_reuses pwned_of (λ names r. refl) (order p.hash_to_indices) p.results)
        ∙ c)
  where
    leaks :
        (online : Bool) (rs : Results)
        → map weak_of rs ≡ map weak_of p.results
        → map stale_of rs ≡ map stale_of p.results
        → Clean rs
        → (p.weak_passwords
            ≡ count_true (map weak_of (if online then fetch_all p.futures rs else (rs, 0)).0))
          × (p.stale_passwords
              ≡ count_true (map stale_of (if online then fetch_all p.futures rs else (rs, 0)).0))
          × ((if online then fetch_all p.futures rs else (rs, 0)).1
              ≡ count_true (map pwned_of (if online then fetch_all p.futures rs else (rs, 0)).0))
    leaks true rs w s c = (
      h.0 ∙ ap count_true (sym (map-fetch_all weak_of (λ hibp r. refl) p.futures rs ∙ w)),
      h.1 ∙ ap count_true (sym (map-fetch_all stale_of (λ hibp r. refl) p.futures rs ∙ s)),
      pwned-fetch_all p.futures rs c,
    )
    leaks false rs w s c = (h.0 ∙ ap count_true (sym w), h.1 ∙ ap count_true (sym s), sym c)

-- In the report of an audit that returned, the numbers of weak, of stale and of leaked passwords are those
-- of the entries that the report marks so, whether the check was online or not. The total is the number of
-- entries in the vault. The number of reused passwords is not one of entries, but how many different SHA-256
-- sums the passwords of more than one entry have.
pub run_audit-Counts :
    (sys : AuditSystem) (config : Config) (order : Groups → Groups) (vault : Vault)
    (report : AuditReport)
    → IsOrder order
    → run_audit sys config order vault ≡ ok report
    → Counts report
      × (report.total_entries ≡ length vault)
      × (report.reused_passwords ≡ repeats (map (hash_of sys) vault))
unfolding finalize
run_audit-Counts sys config order vault report o h =
    let run = run_audit-eq-ok sys config order vault h in
    let counts = counters-Rounds sys config 0 vault no_progress run.0 run.1 in
    let clean_results = Clean-Rounds sys config 0 vault no_progress run.0 run.1 in
    let table = hash_to_indices-Rounds sys config 0 vault no_progress run.0 run.1 in
    let places = push_all-Places order (map (hash_of sys) vault) o in
    (
      subst Counts (sym run.2) (
          finalize-Counts config order vault run.0 (unfold count_true in counts (refl, refl))
            (unfold count_true in clean_results refl)),
      ap (λ (x : AuditReport). x.total_entries) run.2,
      ap (λ (x : AuditReport). x.reused_passwords) run.2
          ∙ (ap (λ (t : Groups). count_reused (order t)) table
              ∙ count_reused-repeats (map (hash_of sys) vault) 0 _ places.0 places.2),
    )
