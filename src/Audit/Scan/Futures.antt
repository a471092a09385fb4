-- ===== src/Audit/Scan/Futures.antt =====
-- The checks that the loop starts, one for each entry, if the check is online.
use duckpass.Audit.{Config, AuditSystem, Task}
use duckpass.Audit.Scan.{Progress, add_result, launch, launch_if}
use duckpass.Audit.Scan.Laws.{Rounds, get_at-append, get_at-end}
use duckpass.Crypto.Hash.{hex_loop, hex_chars, compute_sha1, compute_hash_ok}
use duckpass.Hibp.{HibpResult, check_password}
use duckpass.Prelude.{
  ℕ, zero, suc, ◌+◌, Bool, true, false, List, [], ◌∷◌, ◌++◌, ◌≡◌, sym, ap, subst, ◌∙◌, Option, none,
  some, Bytes, length, length-append, get_at, if◌then◌else◌, arith,
}
use duckpass.Prelude.Result.{Error, Result, ok, err, bind-eq-ok}
use duckpass.Vault.Entries.{VaultEntry, Vault}

-- The future of an entry: the check of its password's SHA-1, in capital digits.
unfoldable pub future_of : AuditSystem → ℕ → VaultEntry → Option HibpResult × Task
future_of sys i e = (
  (check_password (sys.network i) (hex_loop (hex_chars true) (sys.sha1 e.password))).1,
  sys.task i,
)

launch-eq-ok :
    (sys : AuditSystem) (i : ℕ) (sha1 : Bytes) {f : Option HibpResult × Task}
    → launch sys i sha1 ≡ ok f
    → f ≡ ((check_password (sys.network i) sha1).1, sys.task i)
unfolding launch
launch-eq-ok sys i sha1 {f = f} h = launched (sys.launch_failure i) h
  where
    launched :
        (failure : Option Error)
        → ◌≡◌ {A = Result (Option HibpResult × Task)}
            (elim failure [
              | some e ↦ err e
              | none ↦ ok ((check_password (sys.network i) sha1).1, sys.task i)
            ])
            (ok f)
        → f ≡ ((check_password (sys.network i) sha1).1, sys.task i)
    launched (some e) h = cc
    launched none h = cc

taken :
    (b : Bool) (x y : Result (List (Option HibpResult × Task)))
    {z : List (Option HibpResult × Task)}
    → b ≡ true
    → (if b then x else y) ≡ ok z
    → x ≡ ok z
taken true x y e h = h
taken false x y e h = cc

launch_if-online :
    (sys : AuditSystem) (config : Config) (i : ℕ) (e : VaultEntry)
    {started : List (Option HibpResult × Task)}
    → config.check_online ≡ true
    → launch_if sys config i e.password ≡ ok started
    → started ≡ future_of sys i e ∷ []
unfolding launch_if future_of compute_sha1
launch_if-online sys config i e {started = started} online h =
    let a = bind-eq-ok _ _ (taken config.check_online _ _ online h) in
    let b = bind-eq-ok (launch sys i a.0) _ a.2 in
    let hash = compute_hash_ok (sys.calls i) sys.sha1 true e.password a.1 in
    let future = launch-eq-ok sys i a.0 b.1 in
    let done : b.0 ∷ [] ≡ started = cc in
    sym done
    ∙ ap (λ (f : Option HibpResult × Task). f ∷ [])
        (future ∙ ap (λ (sha1 : Bytes). ((check_password (sys.network i) sha1).1, sys.task i)) hash)

futures-kept :
    (sys : AuditSystem) (config : Config) (n : ℕ) (entries : Vault) (p q : Progress) (i : ℕ)
    (f : Option HibpResult × Task)
    → Rounds sys config n entries p q
    → get_at p.futures i ≡ some f
    → get_at q.futures i ≡ some f
unfolding add_result
futures-kept sys config n [] p q i f r h = ap (λ (y : Progress). get_at y.futures i) r ∙ h
futures-kept sys config n (e ∷ entries) p q i f (next, (entropy, started, v, l, step), rest) h =
    futures-kept sys config (n + 1) entries next q i f rest
      (ap (λ (y : Progress). get_at y.futures i) step ∙ get_at-append p.futures started i f h)

pub futures-Rounds :
    (sys : AuditSystem) (config : Config) (n : ℕ) (entries : Vault) (p q : Progress) (i : ℕ)
    (e : VaultEntry)
    → config.check_online ≡ true
    → length p.futures ≡ n
    → Rounds sys config n entries p q
    → get_at entries i ≡ some e
    → get_at q.futures (n + i) ≡ some (future_of sys (n + i) e)
unfolding add_result
futures-Rounds sys config n [] p q i e online len r h = cc
futures-Rounds sys config n (x ∷ entries) p q zero e online len
      (next, (entropy, started, v, l, step), rest) h =
    let same : x ≡ e = cc in
    let here : n + 0 ≡ n = omega arith in
    let one = launch_if-online sys config n x online l in
    rw (here, ← same)
      (futures-kept sys config (n + 1) entries next q n _ rest (
        ap (λ (y : Progress). get_at y.futures n) step
        ∙ (ap (λ (fs : List (Option HibpResult × Task)). get_at (p.futures ++ fs) n) one
            ∙ (ap (get_at (p.futures ++ future_of sys n x ∷ [])) (sym len)
                ∙ get_at-end p.futures (future_of sys n x)))))
futures-Rounds sys config n (x ∷ entries) p q (suc i) e online len
      (next, (entropy, started, v, l, step), rest) h =
    let one = launch_if-online sys config n x online l in
    let longer : length next.futures ≡ n + 1 =
      ap (λ (y : Progress). length y.futures) step
      ∙ (length-append p.futures started ∙ omega (arith, len, ap length one)) in
    subst (λ (k : ℕ). get_at q.futures k ≡ some (future_of sys k e)) (omega arith)
      (futures-Rounds sys config (n + 1) entries next q i e online longer rest h)
