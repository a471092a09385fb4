-- ===== src/Audit/Run/Laws.antt =====
-- What `run_audit` reports of each entry, and its counters.
use duckpass.Audit.{EntryAuditResult, AuditReport, Config, AuditSystem, Task}
use duckpass.Audit.Reuse.{Results, service_at, others, with_reuse, finalize_reuses}
use duckpass.Audit.Reuse.Laws.{finalize_reuses_lem}
use duckpass.Audit.Reuse.Marks.{effect, changed}
use duckpass.Audit.Reuse.Table.{IsOrder, positions, positions-Once_at}
use duckpass.Audit.Run.{fetch, fetch_all, with_hibp, no_progress, finalize, run_audit}
use duckpass.Audit.Run.Sharing.{
  sharing, is_none, GivesBytes, Serves, others-sharing, marked, effect-Once,
}
use duckpass.Audit.Scan.{Groups, Progress, first_result, check_stale, scan_loop}
use duckpass.Audit.Scan.Futures.{future_of, futures-Rounds}
use duckpass.Audit.Scan.Laws.{
  hash_of, Rounds, scan_loop-Rounds, hash_to_indices-Rounds, results-Rounds, HasResult,
}
use duckpass.Audit.Scan.Table.{push_all-Places}
use duckpass.Entropy.{EntropyScore}
use duckpass.Hibp.{HibpResult, clean, with_error}
use duckpass.Prelude.{
  ℕ, zero, suc, ◌+◌, Bool, true, false, not, ◌||◌, List, [], ◌∷◌, ◌≡◌, refl, sym, ap, subst, ◌∙◌,
  Option, some, Bytes, text, get_at, map, if◌then◌else◌, arith,
}
use duckpass.Prelude.Result.{ok, bind-eq-ok}
use duckpass.Text.CString.{c_str}
use duckpass.Vault.Entries.{VaultEntry, Vault}

get_at-map :
    {A B : Type 0} (f : A → B) (xs : List A) (i : ℕ) (x : A)
    → get_at xs i ≡ some x
    → get_at (map f xs) i ≡ some (f x)
get_at-map f [] i x h = cc
get_at-map f (y ∷ xs) zero x h = let same : y ≡ x = cc in ap (λ z. some (f z)) same
get_at-map f (y ∷ xs) (suc i) x h = get_at-map f xs i x h

service_at-get_at :
    (rs : Results) (i : ℕ) (r : EntryAuditResult)
    → get_at rs i ≡ some r
    → service_at rs i ≡ r.service
unfolding service_at
service_at-get_at [] i r h = cc
service_at-get_at (x ∷ rs) zero r h =
    let same : x ≡ r = cc in ap (λ (y : EntryAuditResult). y.service) same
service_at-get_at (x ∷ rs) (suc i) r h = service_at-get_at rs i r h

-- The results of the loop serve the vault.
Serves-Rounds :
    (sys : AuditSystem) (config : Config) (vault : Vault) (p : Progress)
    → Rounds sys config 0 vault no_progress p
    → Serves p.results 0 vault
unfolding first_result
Serves-Rounds sys config vault p r j e h =
    let has = results-Rounds sys config 0 vault no_progress p j e refl r h in
    service_at-get_at p.results (0 + j) _ has.2

-- The services of the other entries with an entry's password.
unfoldable pub shared_with : AuditSystem → ℕ → VaultEntry → Vault → List Bytes
unfolding sharing
shared_with sys i e vault = sharing sys (sys.sha256 e.password) i 0 vault

reuses-Rounds :
    (sys : AuditSystem) (config : Config) (order : Groups → Groups) (vault : Vault) (p : Progress)
    (i : ℕ) (e : VaultEntry)
    → IsOrder order
    → GivesBytes sys
    → Rounds sys config 0 vault no_progress p
    → get_at vault i ≡ some e
    → (entropy : EntropyScore) × (sys.estimate_of i e.password ≡ ok entropy)
      × (get_at (finalize_reuses (order p.hash_to_indices) p.results) i
          ≡ some (marked (shared_with sys i e vault) (first_result sys config i e entropy)))
reuses-Rounds sys config order vault p i e o g r h =
    let hashes : List Bytes = map (hash_of sys) vault in
    let table = hash_to_indices-Rounds sys config 0 vault no_progress p r in
    let places = push_all-Places order hashes o in
    let has : HasResult sys config i e p =
      subst (λ (k : ℕ). HasResult sys config k e p) (omega arith)
        (results-Rounds sys config 0 vault no_progress p i e refl r h) in
    let at_hash = get_at-map (hash_of sys) vault i e h in
    let once = positions-Once_at (hash_of sys e) hashes i at_hash in
    let named : others i (positions (hash_of sys e) hashes 0) p.results
        ≡ shared_with sys i e vault =
      others_of sys config vault p i e g r in
    (
      has.0,
      has.1,
      ap (λ (t : Groups). get_at (finalize_reuses (order t) p.results) i) table
          ∙ (finalize_reuses_lem hashes _ p.results i (hash_of sys e) at_hash places.0 places.1
              ∙ (ap (λ (is : List ℕ). effect i is p.results (get_at p.results i))
                    (places.2 (hash_of sys e))
                  ∙ (effect-Once i (positions (hash_of sys e) hashes 0) p.results _ once
                      ∙ (ap (changed _) has.2
                          ∙ ap
                              (λ (names : List Bytes).
                                some (marked names (first_result sys config i e has.0)))
                              named)))),
    )
  where
    others_of :
        (sys : AuditSystem) (config : Config) (vault : Vault) (p : Progress) (i : ℕ)
        (e : VaultEntry)
        → GivesBytes sys
        → Rounds sys config 0 vault no_progress p
        → others i (positions (hash_of sys e) (map (hash_of sys) vault) 0) p.results
          ≡ shared_with sys i e vault
    others_of sys config vault p i e g r =
        unfold hash_of in
        unfold shared_with in
        others-sharing sys (sys.sha256 e.password) i 0 vault p.results g (g e.password)
          (Serves-Rounds sys config vault p r)

get_at-fetch_all :
    (futures : List (Option HibpResult × Task)) (rs : Results) (i : ℕ)
    (f : Option HibpResult × Task) (r : EntryAuditResult)
    → get_at futures i ≡ some f
    → get_at rs i ≡ some r
    → get_at (fetch_all futures rs).0 i ≡ some (with_hibp (fetch f) r)
unfolding fetch_all
get_at-fetch_all [] rs i f r hf hr = cc
get_at-fetch_all (g ∷ futures) [] i f r hf hr = cc
get_at-fetch_all (g ∷ futures) (x ∷ rs) zero f r hf hr =
    let f_same : g ≡ f = cc in
    let r_same : x ≡ r = cc in
    rw (f_same) (ap (λ (y : EntryAuditResult). some (with_hibp (fetch f) y)) r_same)
get_at-fetch_all (g ∷ futures) (x ∷ rs) (suc i) f r hf hr = get_at-fetch_all futures rs i f r hf hr

-- What the report says of leaks.
unfoldable pub leak_of : AuditSystem → Config → ℕ → VaultEntry → HibpResult
unfolding text
leak_of sys config i e =
    if config.check_online
    then fetch (future_of sys i e)
    else with_error (text "Online check disabled")

-- An entry `e` at place `i` of a vault, and its result.
abbrev pub IsAudited : AuditSystem → Config → Vault → ℕ → VaultEntry → EntryAuditResult → Type 0
IsAudited sys config vault i e r =
    (r.service ≡ c_str e.service)
    × (r.username ≡ c_str e.username)
    × (sys.estimate_of i e.password ≡ ok r.entropy)
    × (r.hibp ≡ leak_of sys config i e)
    × (r.last_updated ≡ e.last_updated)
    × (r.is_stale ≡ check_stale sys.now config.stale_threshold_seconds e.last_updated)
    × (r.reused_with ≡ shared_with sys i e vault)
    × (r.is_reused ≡ (sys.uninitialized i || not (is_none (shared_with sys i e vault))))

marked-IsAudited :
    (sys : AuditSystem) (config : Config) (vault : Vault) (i : ℕ) (e : VaultEntry)
    (entropy : EntropyScore) (names : List Bytes) (hibp : HibpResult)
    → sys.estimate_of i e.password ≡ ok entropy
    → names ≡ shared_with sys i e vault
    → hibp ≡ leak_of sys config i e
    → IsAudited sys config vault i e
        (with_hibp hibp (marked names (first_result sys config i e entropy)))
unfolding first_result
marked-IsAudited sys config vault i e entropy [] hibp v n l =
    rw (← n) (refl, refl, v, l, refl, refl, refl, or_false (sys.uninitialized i))
  where
    or_false : (b : Bool) → b ≡ (b || false)
    or_false true = refl
    or_false false = refl
marked-IsAudited sys config vault i e entropy (name ∷ names) hibp v n l =
    rw (← n) (refl, refl, v, l, refl, refl, refl, or_true (sys.uninitialized i))
  where
    or_true : (b : Bool) → true ≡ (b || true)
    or_true true = refl
    or_true false = refl

-- The order and the loop of an audit that returned.
pub run_audit-eq-ok :
    (sys : AuditSystem) (config : Config) (order : Groups → Groups) (vault : Vault)
    {report : AuditReport}
    → run_audit sys config order vault ≡ ok report
    → (p : Progress) × Rounds sys config 0 vault no_progress p
      × (report ≡ finalize config order vault p)
unfolding run_audit
run_audit-eq-ok sys config order vault {report = report} h =
    let loop = bind-eq-ok (scan_loop sys config 0 vault no_progress) _ h in
    let done : finalize config order vault loop.0 ≡ report = cc in
    (loop.0, scan_loop-Rounds sys config 0 vault no_progress loop.1, sym done)

-- Offline, the verdict is there from the no_progress.
first_result-hibp :
    (sys : AuditSystem) (config : Config) (i : ℕ) (e : VaultEntry) (entropy : EntropyScore)
    → config.check_online ≡ false
    → (first_result sys config i e entropy).hibp ≡ leak_of sys config i e
unfolding first_result leak_of
first_result-hibp sys config i e entropy offline =
    choose config.check_online clean (fetch (future_of sys i e))
      (with_error (text "Online check disabled")) offline
  where
    choose :
        (b : Bool) (x y z : HibpResult) → b ≡ false → (if b then x else z) ≡ (if b then y else z)
    choose true x y z h = cc
    choose false x y z h = refl

marked-hibp :
    (names : List Bytes) (r : EntryAuditResult) (hibp : HibpResult)
    → r.hibp ≡ hibp
    → marked names r ≡ with_hibp hibp (marked names r)
marked-hibp [] r hibp h = ap (λ (x : HibpResult). with_hibp x r) h
marked-hibp (name ∷ names) r hibp h =
    ap (λ (x : HibpResult). with_hibp x (with_reuse (name ∷ names) r)) h

finalize-IsAudited :
    (sys : AuditSystem) (config : Config) (order : Groups → Groups) (vault : Vault) (p : Progress)
    (i : ℕ) (e : VaultEntry)
    → IsOrder order
    → GivesBytes sys
    → Rounds sys config 0 vault no_progress p
    → get_at vault i ≡ some e
    → (r : EntryAuditResult) × (get_at (finalize config order vault p).entries i ≡ some r)
      × IsAudited sys config vault i e r
unfolding finalize
finalize-IsAudited sys config order vault p i e o g r h =
    let reused = reuses-Rounds sys config order vault p i e o g r h in
    let future : config.check_online ≡ true → get_at p.futures i ≡ some (future_of sys i e) =
      λ online.
        subst (λ (k : ℕ). get_at p.futures k ≡ some (future_of sys k e)) (omega arith)
          (futures-Rounds sys config 0 vault no_progress p i e online refl r h) in
    (
      _,
      leaks _ _ config.check_online refl future
          (λ offline.
            marked-hibp (shared_with sys i e vault) (first_result sys config i e reused.0)
              (leak_of sys config i e) (first_result-hibp sys config i e reused.0 offline))
          reused.2,
      marked-IsAudited sys config vault i e reused.0 (shared_with sys i e vault)
          (leak_of sys config i e) reused.1 refl refl,
    )
  where
    leaks :
        (rs : Results) (first : EntryAuditResult) (online : Bool)
        → config.check_online ≡ online
        → (config.check_online ≡ true → get_at p.futures i ≡ some (future_of sys i e))
        → (config.check_online ≡ false → first ≡ with_hibp (leak_of sys config i e) first)
        → get_at rs i ≡ some first
        → get_at (if online then fetch_all p.futures rs else (rs, 0)).0 i
          ≡ some (with_hibp (leak_of sys config i e) first)
    leaks rs first true h f offline a =
        get_at-fetch_all p.futures rs i (future_of sys i e) first (f h) a
        ∙ ap (λ (x : HibpResult). some (with_hibp x first)) (unfold leak_of in rw h refl)
    leaks rs first false h f offline a = a ∙ ap (λ (x : EntryAuditResult). some x) (offline h)

-- If an audit of a vault returns, then the report has a result for each entry, at the same place: with
-- the entry's service and user name up to the first NUL, the strength of its password, the verdict of the
-- leak check, its age against the threshold, and the services of exactly the other entries whose passwords
-- have the same SHA-256, in the vault's order. The entry is reported as reused if there are such entries;
-- if there are none, `is_reused` is what the memory held before, since the code does not set it. The order
-- in which the hash table is read does not matter.
pub run_audit_lem :
    (sys : AuditSystem) (config : Config) (order : Groups → Groups) (vault : Vault)
    (report : AuditReport) (i : ℕ) (e : VaultEntry)
    → IsOrder order
    → GivesBytes sys
    → run_audit sys config order vault ≡ ok report
    → get_at vault i ≡ some e
    → (r : EntryAuditResult) × (get_at report.entries i ≡ some r) × IsAudited sys config vault i e r
run_audit_lem sys config order vault report i e o g h at_i =
    let run = run_audit-eq-ok sys config order vault h in
    let audited = finalize-IsAudited sys config order vault run.0 i e o g run.1 at_i in
    (audited.0, ap (λ (x : AuditReport). get_at x.entries i) run.2 ∙ audited.1, audited.2)
