-- ===== src/Audit/Run.antt =====
-- `Finalize HIBP` of `run_audit`, and `run_audit` as a whole.
pub mod Sharing
pub mod Laws
pub mod Counters
use duckpass.Audit.{
  EntryAuditResult, AuditReport, Config, AuditSystem, Task, returns, throws, throws_unknown,
}
use duckpass.Audit.Reuse.{Results, finalize_reuses, count_reused}
use duckpass.Audit.Scan.{Groups, Progress, scan_loop}
use duckpass.Hibp.{HibpResult, clean, with_error}
use duckpass.Prelude.{
  ℕ, zero, suc, ◌+◌, Bool, true, false, List, [], ◌∷◌, ◌++◌, Option, none, some, Bytes, text,
  length, if◌then◌else◌,
}
use duckpass.Prelude.Result.{Result, ok, ◌>>=◌}
use duckpass.Vault.Entries.{Vault}

-- `hibp_futures[i].get()` and the handlers around it. A check always returns a result, as
-- `check_password_bounded` has it.
unfoldable pub fetch : Option HibpResult × Task → HibpResult
unfolding text
fetch (some r, returns) = r
fetch (none, returns) = clean
fetch (r, throws reason) = with_error (text "HIBP check error: " ++ reason)
fetch (r, throws_unknown) = with_error (text "HIBP check error: unknown exception")

abbrev pub with_hibp : HibpResult → EntryAuditResult → EntryAuditResult
with_hibp hibp r = record r { hibp = hibp }

-- The loop over the futures; the number of leaked passwords comes with the entries.
unfoldable pub fetch_all : List (Option HibpResult × Task) → Results → Results × ℕ
fetch_all [] entries = (entries, 0)
fetch_all (future ∷ futures) [] = ([], 0)
fetch_all (future ∷ futures) (r ∷ entries) =
    let more = fetch_all futures entries in
    let hibp = fetch future in
    (with_hibp hibp r ∷ more.0, if hibp.is_pwned then suc more.1 else more.1)

abbrev pub no_progress : Progress
no_progress = record {
  results = [];
  futures = [];
  hash_to_indices = [];
  weak_passwords = 0;
  stale_passwords = 0;
}

-- After the loop; `order` is the order in which the hash table gives its groups.
unfoldable pub finalize : Config → (Groups → Groups) → Vault → Progress → AuditReport
finalize config order vault p =
    let groups = order p.hash_to_indices in
    let reuses = finalize_reuses groups p.results in
    let leaks = if config.check_online then fetch_all p.futures reuses else (reuses, 0) in
    record {
      entries = leaks.0;
      total_entries = length vault;
      weak_passwords = p.weak_passwords;
      pwned_passwords = leaks.1;
      reused_passwords = count_reused groups;
      stale_passwords = p.stale_passwords;
    }

unfoldable pub run_audit : AuditSystem → Config → (Groups → Groups) → Vault → Result AuditReport
run_audit sys config order vault =
    scan_loop sys config 0 vault no_progress >>= λ p. ok (finalize config order vault p)
