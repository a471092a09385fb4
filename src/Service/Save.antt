-- ===== src/Service/Save.antt =====
-- `save` and `commit_vault_with_lock_held` of src/vault_service.cpp, and `save_vault` of src/vault.cpp.
pub mod Laws
pub mod Reopen
use duckpass.Crypto.{CryptoHandler}
use duckpass.Prelude.{ℕ, Bool, true, List, [], Bytes}
use duckpass.Prelude.Result.{Result, ok, err}
use duckpass.Service.Merge.{merge_disk_state}
use duckpass.Service.State.{VaultService, Env, Outcome}
use duckpass.Storage.Disk.{Storage}
use duckpass.Storage.Lock.{acquire_file_lock}
use duckpass.Storage.Write.{write_file_atomic}
use duckpass.Vault.Entries.{Vault}
use duckpass.Vault.File.{serialize_and_encrypt_vault}

-- After `write_file_atomic` in `commit_vault_with_lock_held`.
unfoldable pub committed : VaultService → Result (Unit {0}) × Storage → Outcome
committed s (err e, storage) = (err e, s, storage)
committed s (ok _, storage) = (ok tt, record s { deleted_services = [] }, storage)

module _ (c : CryptoHandler) where
  -- `save_vault`, with a backup, and the clearing of `deleted_services_`.
  unfoldable pub commit_vault : Env → Bytes → VaultService → Storage → Outcome
  commit_vault env target_password s storage =
      elim (serialize_and_encrypt_vault c env.salt env.iv s.vault target_password) [
        | err e ↦ (err e, s, storage)
        | ok blob ↦ committed s (write_file_atomic env.vault_write s.vault_path blob true storage)
      ]

  -- With the lock held.
  unfoldable pub save_locked : Env → VaultService → Result (Unit {0}) × Storage → Outcome
  save_locked env s (err e, storage) = (err e, s, storage)
  save_locked env s (ok _, storage) = elim (merge_disk_state c env storage.disk s) [
    | err e ↦ (err e, s, storage)
    | ok merged ↦ commit_vault env merged.master_password merged storage
  ]

  unfoldable pub save : Env → VaultService → Storage → Outcome
  save env s storage = save_locked env s (acquire_file_lock env.lock s.vault_path storage)
