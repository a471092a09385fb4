-- ===== src/Service/Rekey/Password.antt =====
-- Which master password a `rekey` leaves in the memory.
use duckpass.Crypto.{CryptoHandler}
use duckpass.Prelude.{◌≡◌, refl, ap, inl, inr, Bytes, is_empty, Bool-cases}
use duckpass.Prelude.Result.{Result, ok, err, Result-cases}
use duckpass.Service.Merge.{merge_disk_state}
use duckpass.Service.Rekey.{rekeyed, write_current, write_backup, rekey_locked, rekey}
use duckpass.Service.Save.Laws.{merge_shape}
use duckpass.Service.State.{VaultService, Env, Outcome}
use duckpass.Storage.Disk.{Storage}
use duckpass.Vault.File.{serialize_and_encrypt_vault}

-- It is the new one if the call returns, and the old one if it throws.
pub data Switches (s : VaultService) (new_password : Bytes) : Outcome → Type 0 where
  returned :
      (s' : VaultService) (storage : Storage)
      → s'.master_password ≡ new_password
      → Switches s new_password (ok tt, s', storage)
  threw :
      {e : _} (s' : VaultService) (storage : Storage)
      → s'.master_password ≡ s.master_password
      → Switches s new_password (err e, s', storage)

rekeyed-Switches :
    (s s' : VaultService) (new_password : Bytes) (r : Result (Unit {0}) × Storage)
    → s'.master_password ≡ s.master_password
    → Switches s new_password (rekeyed new_password s' r)
unfolding rekeyed
rekeyed-Switches s s' new_password (err e, storage) h = Switches.threw s' storage h
rekeyed-Switches s s' new_password (ok tt, storage) h = Switches.returned _ storage refl

write_current-Switches :
    (env : Env) (s s' : VaultService) (new_password blob : Bytes) (r : Result (Unit {0}) × Storage)
    → s'.master_password ≡ s.master_password
    → Switches s new_password (write_current env new_password blob s' r)
unfolding write_current
write_current-Switches env s s' new_password blob (err e, storage) h = Switches.threw s' storage h
write_current-Switches env s s' new_password blob (ok tt, storage) h =
    rekeyed-Switches s s' new_password _ h

module _ (c : CryptoHandler) where
  write_backup-Switches :
      (env : Env) (s s' : VaultService) (new_password : Bytes) (storage : Storage)
      → s'.master_password ≡ s.master_password
      → Switches s new_password (write_backup c env new_password s' storage)
  unfolding write_backup
  write_backup-Switches env s s' new_password storage h =
      elim (Result-cases (serialize_and_encrypt_vault c env.salt env.iv s'.vault new_password)) [
        | inr (e, failed) ↦ rw (failed, write_backup) (Switches.threw s' storage h)
        | inl (blob, made) ↦
            rw (made, write_backup) (write_current-Switches env s s' new_password blob _ h)
      ]

  rekey_locked-Switches :
      (env : Env) (s : VaultService) (new_password : Bytes) (r : Result (Unit {0}) × Storage)
      → Switches s new_password (rekey_locked c env new_password s r)
  unfolding rekey_locked
  rekey_locked-Switches env s new_password (err e, storage) = Switches.threw s storage refl
  rekey_locked-Switches env s new_password (ok _, storage) =
      elim (Result-cases (merge_disk_state c env storage.disk s)) [
        | inr (e, failed) ↦ rw (failed, rekey_locked) (Switches.threw s storage refl)
        | inl (m, merged) ↦
            rw (merged, rekey_locked)
              (write_backup-Switches env s m new_password storage (
                ap (λ (x : VaultService). x.master_password)
                  (merge_shape c env storage.disk s m merged)))
      ]

  pub rekey-Switches :
      (env : Env) (s : VaultService) (new_password : Bytes) (storage : Storage)
      → Switches s new_password (rekey c env new_password s storage)
  unfolding rekey
  rekey-Switches env s new_password storage = elim (Bool-cases (is_empty new_password)) [
    | inl empty ↦ rw empty (Switches.threw s storage refl)
    | inr given ↦ rw given (rekey_locked-Switches env s new_password _)
  ]
