-- ===== src/Audit/Scan.antt =====
-- The loop of `run_audit` over the entries, and the `Finalize` steps for reuses and leaks.
pub mod Table
pub mod Laws
pub mod Futures
pub mod Stale
use duckpass.Audit.{
  EntryAuditResult, AuditReport, Config, AuditSystem, Task, returns, throws, throws_unknown,
}
use duckpass.Crypto.Hash.{DigestCalls, compute_sha1, compute_sha256}
use duckpass.Entropy.{EntropyScore}
use duckpass.Hibp.{HibpResult, Network, clean, with_error, check_password}
use duckpass.Prelude.{
  ℕ, zero, suc, ◌+◌, ◌-◌, ◌%◌, ◌^◌, ◌==◌, Bool, true, false, not, ◌&&◌, List, [], ◌∷◌, ◌++◌, Option,
  none, some, Bytes, bytes_eq, text, length, ltb, if◌then◌else◌,
}
use duckpass.Prelude.Result.{Error, Result, ok, err, ◌>>=◌}
use duckpass.Text.CString.{c_str}
use duckpass.Vault.Entries.{VaultEntry, Vault}

-- `hash_to_indices`: the indices of the entries with each hash.
abbrev pub Groups : Type 0
Groups = List (Bytes × List ℕ)

-- `hash_to_indices[hash].push_back(i);`
unfoldable pub push_index : Bytes → ℕ → Groups → Groups
push_index hash i [] = (hash, i ∷ []) ∷ []
push_index hash i ((key, indices) ∷ groups) =
    if bytes_eq key hash
    then (key, indices ++ i ∷ []) ∷ groups
    else (key, indices) ∷ push_index hash i groups

-- The subtraction is one of 64-bit words.
unfoldable pub check_stale : ℕ → ℕ → ℕ → Bool
check_stale now threshold last_updated =
    ltb 0 last_updated && ltb threshold ((now + 2 ^ 64 - last_updated) % 2 ^ 64)

-- What the loop has gathered: the results and futures so far, the groups and the counters.
pub record Progress : Type 0 where
  pub results : List EntryAuditResult
  pub futures : List (Option HibpResult × Task)
  pub hash_to_indices : Groups
  pub weak_passwords : ℕ
  pub stale_passwords : ℕ

-- A future: what `check_password` returns, and how the task ends.
unfoldable pub launch : AuditSystem → ℕ → Bytes → Result (Option HibpResult × Task)
launch sys i sha1 = elim (sys.launch_failure i) [
  | some e ↦ err e
  | none ↦ ok ((check_password (sys.network i) sha1).1, sys.task i)
]

-- `if (config.check_online)`
unfoldable pub launch_if :
    AuditSystem → Config → ℕ → Bytes → Result (List (Option HibpResult × Task))
launch_if sys config i password =
    if config.check_online
    then (compute_sha1 (sys.calls i) sys.sha1 password >>= λ sha1.
        launch sys i sha1 >>= λ future. ok (future ∷ []))
    else ok []

abbrev pub count_if : Bool → ℕ → ℕ
count_if true n = suc n
count_if false n = n

-- The members of `result`. If the check is online, `hibp` is set when the future is read.
unfoldable pub first_result :
    AuditSystem → Config → ℕ → VaultEntry → EntropyScore → EntryAuditResult
unfolding text
first_result sys config i e entropy = record {
  service = c_str e.service;
  username = c_str e.username;
  entropy = entropy;
  hibp = if config.check_online then clean else with_error (text "Online check disabled");
  is_reused = sys.uninitialized i;
  reused_with = [];
  is_stale = check_stale sys.now config.stale_threshold_seconds e.last_updated;
  last_updated = e.last_updated;
}

-- What the body of the loop adds to its variables.
unfoldable pub add_result :
    ℕ → EntryAuditResult → Bytes → List (Option HibpResult × Task) → Progress → Progress
add_result i result hash256 started progress = record {
  results = progress.results ++ result ∷ [];
  futures = progress.futures ++ started;
  hash_to_indices = push_index hash256 i progress.hash_to_indices;
  weak_passwords = count_if result.entropy.is_weak progress.weak_passwords;
  stale_passwords = count_if result.is_stale progress.stale_passwords;
}

-- The body of the loop.
unfoldable pub scan_entry : AuditSystem → Config → ℕ → VaultEntry → Progress → Result Progress
scan_entry sys config i e progress = sys.estimate_of i e.password >>= λ entropy.
    compute_sha256 (sys.calls i) sys.sha256 e.password >>= λ hash256.
    launch_if sys config i e.password >>= λ started.
    ok (add_result i (first_result sys config i e entropy) hash256 started progress)

unfoldable pub scan_loop : AuditSystem → Config → ℕ → Vault → Progress → Result Progress
scan_loop sys config i [] progress = ok progress
scan_loop sys config i (e ∷ entries) progress =
    scan_entry sys config i e progress >>= scan_loop sys config (i + 1) entries
