-- ===== src/Service/Entries/Password.antt =====
-- Saving, adding, updating and deleting leave the master password as it was.
use duckpass.Crypto.{CryptoHandler}
use duckpass.Prelude.{Bool, true, false, ◌≡◌, refl, ap, ◌∙◌, Bytes, Option, inl, inr}
use duckpass.Prelude.Result.{Result, ok, err, Result-cases}
use duckpass.Service.Entries.{
  check_new, store, add_entry, updated, update_entry, delete_removed, delete_entry,
}
use duckpass.Service.Merge.{merge_disk_state}
use duckpass.Service.Save.Laws.{merge_shape}
use duckpass.Service.Save.{committed, commit_vault, save_locked, save}
use duckpass.Service.State.{VaultService, Env}
use duckpass.Storage.Disk.{Storage}
use duckpass.Vault.Entries.{VaultEntry, Vault}
use duckpass.Vault.Entries
use duckpass.Vault.File.{serialize_and_encrypt_vault}

committed-master_password :
    (s : VaultService) (r : Result (Unit {0}) × Storage)
    → (committed s r).1.master_password ≡ s.master_password
unfolding committed
committed-master_password s (ok _, storage) = refl
committed-master_password s (err e, storage) = refl

module _ (c : CryptoHandler) where
  commit_vault-master_password :
      (env : Env) (target : Bytes) (s : VaultService) (storage : Storage)
      → (commit_vault c env target s storage).1.master_password ≡ s.master_password
  unfolding commit_vault
  commit_vault-master_password env target s storage =
      elim (Result-cases (serialize_and_encrypt_vault c env.salt env.iv s.vault target)) [
        | inr (e, failed) ↦ rw (failed, commit_vault) refl
        | inl (blob, made) ↦ rw (made, commit_vault) (committed-master_password s _)
      ]

  save_locked-master_password :
      (env : Env) (s : VaultService) (r : Result (Unit {0}) × Storage)
      → (save_locked c env s r).1.master_password ≡ s.master_password
  unfolding save_locked
  save_locked-master_password env s (err e, storage) = refl
  save_locked-master_password env s (ok _, storage) =
      elim (Result-cases (merge_disk_state c env storage.disk s)) [
        | inr (e, failed) ↦ rw (failed, save_locked) refl
        | inl (m, merged) ↦
            rw (merged, save_locked)
              (commit_vault-master_password env m.master_password m storage
                ∙ ap (λ (x : VaultService). x.master_password)
                    (merge_shape c env storage.disk s m merged))
      ]

  store-master_password :
      (env : Env) (entry : VaultEntry) (s : VaultService) (storage : Storage)
      → (store c env entry s storage).1.master_password ≡ s.master_password
  unfolding store save
  store-master_password env entry s storage = save_locked-master_password env _ _

  pub add_entry-master_password :
      (env : Env) (service username password totp_secret : Bytes) (s : VaultService)
      (storage : Storage)
      → (add_entry c env service username password totp_secret s storage).1.master_password
        ≡ s.master_password
  unfolding add_entry
  add_entry-master_password env service username password totp_secret s storage =
      elim (Result-cases (check_new s.vault service username password totp_secret)) [
        | inr (e, failed) ↦ rw (failed, add_entry) refl
        | inl (_, passed) ↦ rw (passed, add_entry) (store-master_password env _ s storage)
      ]

  pub update_entry-master_password :
      (env : Env) (service : Bytes) (new_username new_password new_totp_secret : Option Bytes)
      (s : VaultService) (storage : Storage)
      → (update_entry c env service new_username new_password new_totp_secret s
          storage).1.master_password
        ≡ s.master_password
  unfolding update_entry
  update_entry-master_password env service new_username new_password new_totp_secret s storage =
      elim (Result-cases
        (updated env.now s.vault service new_username new_password new_totp_secret)) [
          | inr (e, failed) ↦ rw (failed, update_entry) refl
          | inl (entry, passed) ↦
              rw (passed, update_entry) (store-master_password env entry s storage)
        ]

  pub delete_entry-master_password :
      (env : Env) (service : Bytes) (s : VaultService) (storage : Storage)
      → (delete_entry c env service s storage).1.master_password ≡ s.master_password
  unfolding delete_entry delete_removed save
  delete_entry-master_password env service s storage = cases (Entries.remove_entry service s.vault)
    where
      cases :
          (r : Bool × Vault)
          → (delete_removed c env service r s storage).1.master_password ≡ s.master_password
      cases (true, vault) = save_locked-master_password env _ _
      cases (false, vault) = refl
