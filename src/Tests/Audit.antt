-- ===== src/Tests/Audit.antt =====
-- src/audit_engine.cpp at concrete inputs.
use duckpass.Audit.Reuse.Table.{IsOrder}
use duckpass.Audit.Reuse.{
  finalize_reuses, mark_group, mark_loop, update_at, others, service_at, count_reused,
}
use duckpass.Audit.Reuse.Repeats.{repeats}
use duckpass.Audit.Scan.Laws.{hash_of}
use duckpass.Audit.Run.Counters.{Counts, run_audit-Counts}
use duckpass.Audit.Run.Laws.{IsAudited, run_audit_lem}
use duckpass.Audit.Run.Sharing.{GivesBytes}
use duckpass.Audit.Run.{run_audit, finalize}
use duckpass.Audit.Scan.Stale.{check_stale_lem}
use duckpass.Audit.Scan.{
  Groups, check_stale, scan_loop, scan_entry, launch_if, push_index, first_result, add_result,
}
use duckpass.Audit.{AuditReport, AuditSystem, EntryAuditResult, default_config, returns}
use duckpass.Crypto.Hash.{compute_hash, compute_sha256, hex_loop, hex_chars}
use duckpass.Entropy.{EntropyScore}
use duckpass.Hibp.{with_error}
use duckpass.Prelude.Result.{ok}
use duckpass.Prelude.{
  ℕ, ◌-◌, ◌%◌, ◌^◌, ◌≤◌, ◌<◌, ◌≡◌, ◌↔◌, ◌⊎◌, refl, Bool, true, false, List, bytes_eq, [], ◌∷◌, none,
  some, Bytes, text, length, map, get_at, arith,
}
use duckpass.Text.CString.{c_str}
use duckpass.Tests.Hibp.{slow_network}
use duckpass.Vault.Entries.{VaultEntry, Vault}

-- Two entries with one password, and one with another; the last time is ahead of the clock.
abbrev entry_of : ℕ → ℕ → ℕ → VaultEntry
entry_of service password last_updated = record {
  service = service ∷ [];
  username = 1 ∷ [];
  password = password ∷ [];
  totp_secret = [];
  last_updated = last_updated;
}

abbrev vault : Vault
vault = entry_of 5 8 900 ∷ entry_of 6 9 900 ∷ entry_of 7 8 1001 ∷ []

abbrev weak_score : EntropyScore
weak_score = record { score = 1; entropy_bits = 2; crack_time_seconds = 3; is_weak = true }

abbrev first_byte : Bytes → ℕ
first_byte [] = 0
first_byte (b ∷ rest) = b

abbrev sys : AuditSystem
sys = record {
  now = 1000;
  estimate_of = λ i password. ok weak_score;
  sha1 = λ input. 171 ∷ 205 ∷ 239 ∷ [];
  sha256 = λ input. length input % 256 ∷ first_byte input % 256 ∷ [];
  calls = λ i. record { created = true; initialized = true; updated = true; finalized = true };
  launch_failure = λ i. none;
  task = λ i. returns;
  network = λ i. slow_network;
  uninitialized = λ i. false;
}

abbrev order : Groups → Groups
order groups = groups

order-IsOrder : IsOrder order
order-IsOrder groups keyed = (keyed, (λ h. refl))

sys-GivesBytes : GivesBytes sys
sys-GivesBytes input = (omega arith, (omega arith, tt))

abbrev is_filled : List Bytes → Bool
is_filled [] = false
is_filled (_ ∷ _) = true

result_of : ℕ → List Bytes → Bool → ℕ → EntryAuditResult
unfolding text
result_of service names stale last_updated = record {
  service = service ∷ [];
  username = 1 ∷ [];
  entropy = weak_score;
  hibp = with_error (text "Online check disabled");
  is_reused = is_filled names;
  reused_with = names;
  is_stale = stale;
  last_updated = last_updated;
}

report : AuditReport
unfolding result_of
report = record {
  entries =
      result_of 5 ((7 ∷ []) ∷ []) false 900
      ∷ result_of 6 [] false 900
      ∷ result_of 7 ((5 ∷ []) ∷ []) true 1001
      ∷ [];
  total_entries = 3;
  weak_passwords = 3;
  pwned_passwords = 0;
  reused_passwords = 1;
  stale_passwords = 1;
}

audited : run_audit sys default_config order vault ≡ ok report
unfolding run_audit finalize scan_loop scan_entry launch_if push_index first_result add_result
    check_stale compute_sha256 compute_hash hex_loop hex_chars c_str finalize_reuses mark_group
    mark_loop update_at others service_at count_reused report result_of bytes_eq text
audited = refl

run_audit_lem_example :
    (r : EntryAuditResult) × (get_at report.entries 2 ≡ some r)
    × IsAudited sys default_config vault 2 (entry_of 7 8 1001) r
run_audit_lem_example =
    run_audit_lem sys default_config order vault report 2 (entry_of 7 8 1001) order-IsOrder
      sys-GivesBytes audited refl

run_audit-Counts_example :
    Counts report
    × (report.total_entries ≡ length vault)
    × (report.reused_passwords ≡ repeats (map (hash_of sys) vault))
run_audit-Counts_example =
    run_audit-Counts sys default_config order vault report order-IsOrder audited

check_stale_lem_example : (check_stale 1000 31536000 1001 ≡ true) ↔ (
    (0 < 1001)
    × (((1001 ≤ 1000) × (31536000 < 1000 - 1001))
        ⊎ ((1000 < 1001) × (31536000 < 2 ^ 64 - (1001 - 1000)))))
check_stale_lem_example = check_stale_lem 1000 31536000 1001 (omega arith) (omega arith)
