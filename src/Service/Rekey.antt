-- ===== src/Service/Rekey.antt =====
-- `rekey` of src/vault_service.cpp.
pub mod Laws
pub mod Password
use duckpass.Crypto.{CryptoHandler}
use duckpass.Prelude.{ℕ, Bool, false, List, [], Bytes, text, is_empty, if◌then◌else◌}
use duckpass.Prelude.Result.{Result, ok, err, invalid_argument}
use duckpass.Service.Merge.{merge_disk_state}
use duckpass.Service.State.{VaultService, Env, Outcome}
use duckpass.Storage.Disk.{Storage, backup_path}
use duckpass.Storage.Lock.{acquire_file_lock}
use duckpass.Storage.Write.{write_file_atomic}
use duckpass.Vault.File.{serialize_and_encrypt_vault}

-- Step 5, after the write of the vault file.
unfoldable pub rekeyed : Bytes → VaultService → Result (Unit {0}) × Storage → Outcome
rekeyed new_password s (err e, storage) = (err e, s, storage)
rekeyed new_password s (ok _, storage) =
    (ok tt, record s { master_password = new_password; deleted_services = [] }, storage)

-- Step 4, after the write of the backup.
unfoldable pub write_current :
    Env → Bytes → Bytes → VaultService → Result (Unit {0}) × Storage → Outcome
write_current env new_password new_blob s (err e, storage) = (err e, s, storage)
write_current env new_password new_blob s (ok _, storage) =
    rekeyed new_password s (write_file_atomic env.vault_write s.vault_path new_blob false storage)

module _ (c : CryptoHandler) where
  -- Steps 2 and 3.
  unfoldable pub write_backup : Env → Bytes → VaultService → Storage → Outcome
  write_backup env new_password s storage =
      elim (serialize_and_encrypt_vault c env.salt env.iv s.vault new_password) [
        | err e ↦ (err e, s, storage)
        | ok new_blob ↦
            write_current env new_password new_blob s
              (write_file_atomic env.backup_write (backup_path s.vault_path) new_blob false storage)
      ]

  -- Step 1, with the lock held.
  unfoldable pub rekey_locked : Env → Bytes → VaultService → Result (Unit {0}) × Storage → Outcome
  rekey_locked env new_password s (err e, storage) = (err e, s, storage)
  rekey_locked env new_password s (ok _, storage) = elim (merge_disk_state c env storage.disk s) [
    | err e ↦ (err e, s, storage)
    | ok merged ↦ write_backup env new_password merged storage
  ]

  unfoldable pub rekey : Env → Bytes → VaultService → Storage → Outcome
  rekey env new_password s storage =
      if is_empty new_password
      then (err (invalid_argument (text "New master password cannot be empty.")), s, storage)
      else rekey_locked env new_password s (acquire_file_lock env.lock s.vault_path storage)
