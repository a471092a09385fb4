-- ===== src/Service/Merge.antt =====
-- `merge_disk_state_with_lock_held` of src/vault_service.cpp.
pub mod Laws
use duckpass.Crypto.{CryptoHandler}
use duckpass.Prelude.{
  ℕ, Bool, true, false, ◌||◌, List, [], ◌∷◌, Option, none, some, Bytes, bytes_eq, any_of, ltb,
  if◌then◌else◌,
}
use duckpass.Prelude.Result.{Result, ok, err, ◌>>=◌}
use duckpass.Service.State.{VaultService, Env, load_vault}
use duckpass.Storage.Disk.{Disk, exists}
use duckpass.Vault.Entries.{VaultEntry, Vault, add_entry, get_entry}

-- `std::find` in `deleted_services_`
unfoldable pub is_deleted : List Bytes → Bytes → Bool
is_deleted deleted service = any_of (λ d. bytes_eq d service) deleted

-- `!local_entry || disk_entry.last_updated > local_entry->last_updated`
unfoldable pub is_newer : VaultEntry → Option VaultEntry → Bool
is_newer disk_entry none = true
is_newer disk_entry (some local_entry) = ltb local_entry.last_updated disk_entry.last_updated

-- The body of the loop.
unfoldable pub merge_entry : ℕ → List Bytes → VaultEntry → Vault → Vault
merge_entry now deleted e vault =
    if is_deleted deleted e.service
    then vault
    else if is_newer e (get_entry e.service vault)
    then add_entry now e vault
    else vault

unfoldable pub merge_entries : ℕ → List Bytes → Vault → Vault → Vault
merge_entries now deleted [] vault = vault
merge_entries now deleted (e ∷ entries) vault =
    merge_entries now deleted entries (merge_entry now deleted e vault)

module _ (c : CryptoHandler) where
  unfoldable pub merge_disk_state : Env → Disk → VaultService → Result VaultService
  merge_disk_state env disk s =
      if exists disk s.vault_path
      then (load_vault c env disk s.vault_path s.master_password >>= λ disk_vault.
          ok (record s { vault = merge_entries env.now s.deleted_services disk_vault s.vault }))
      else ok s
