-- ===== src/Audit/Reuse.antt =====
-- `Finalize Reuses` of `run_audit`: the passwords that several entries share.
pub mod Marks
pub mod Table
pub mod Repeats
pub mod Laws
use duckpass.Audit.{EntryAuditResult}
use duckpass.Audit.Scan.{Groups}
use duckpass.Prelude.{
  ℕ, zero, suc, ◌+◌, ◌==◌, Bool, true, List, [], ◌∷◌, ◌++◌, Bytes, length, ltb, if◌then◌else◌,
}

abbrev pub Results : Type 0
Results = List EntryAuditResult

-- `report.entries[i]`, changed.
unfoldable pub update_at : ℕ → (EntryAuditResult → EntryAuditResult) → Results → Results
update_at i change [] = []
update_at zero change (r ∷ entries) = change r ∷ entries
update_at (suc i) change (r ∷ entries) = r ∷ update_at i change entries

-- `report.entries[i].service`
unfoldable pub service_at : Results → ℕ → Bytes
service_at [] i = []
service_at (r ∷ entries) zero = r.service
service_at (r ∷ entries) (suc i) = service_at entries i

-- The loop over `other_idx`.
unfoldable pub others : ℕ → List ℕ → Results → List Bytes
others idx [] entries = []
others idx (other_idx ∷ indices) entries =
    let more = others idx indices entries in
    if idx == other_idx then more else service_at entries other_idx ∷ more

abbrev pub with_reuse : List Bytes → EntryAuditResult → EntryAuditResult
with_reuse names r = record r { is_reused = true; reused_with = r.reused_with ++ names }

-- The loop over `idx`, which ranges over what is left of the group `indices`.
unfoldable pub mark_loop : List ℕ → List ℕ → Results → Results
mark_loop [] indices entries = entries
mark_loop (idx ∷ left) indices entries =
    mark_loop left indices (update_at idx (with_reuse (others idx indices entries)) entries)

-- The body of the loop over the groups.
unfoldable pub mark_group : List ℕ → Results → Results
mark_group indices entries =
    if ltb 1 (length indices) then mark_loop indices indices entries else entries

unfoldable pub finalize_reuses : Groups → Results → Results
finalize_reuses [] entries = entries
finalize_reuses ((key, indices) ∷ groups) entries =
    finalize_reuses groups (mark_group indices entries)

-- `report.reused_passwords`
unfoldable pub count_reused : Groups → ℕ
count_reused [] = 0
count_reused ((key, indices) ∷ groups) =
    let more = count_reused groups in if ltb 1 (length indices) then suc more else more
