-- ===== src/Service/Rekey/Laws.antt =====
-- A change of the master password is all or nothing, for the files and for the memory.
use duckpass.Crypto.{CryptoHandler}
use duckpass.Prelude.{
  false, List, [], ◌∷◌, ◌≡◌, refl, sym, ap, ◌∙◌, subst, ◌⊎◌, inl, inr, some, Bytes, bytes_eq,
  bytes_eq_comm, text, is_empty, All, arith, Bool-cases, append_assoc,
}
use duckpass.Prelude.Result.{Result, ok, err, Error, Result-cases}
use duckpass.Service.Merge.{merge_disk_state}
use duckpass.Service.Rekey.{rekeyed, write_current, write_backup, rekey_locked, rekey}
use duckpass.Service.Save.Laws.{All-map, acquire_keeps, merge_shape, merge_reads}
use duckpass.Service.State.{VaultService, Env, Outcome}
use duckpass.Storage.Disk.{Disk, Storage, backup_path}
use duckpass.Storage.Write.Atomic.{tmp-ne-backup, backup-ne-path, bytes_eq_longer}
use duckpass.Storage.Write.Crash.{OldOrNew, Replaced, write_file_atomic-Keeps}
use duckpass.Storage.Write.Frame.{write_file_atomic-Unchanged}
use duckpass.Storage.Write.{TempName, tmp_path, write_file_atomic}
use duckpass.Vault.Entries.{Vault}
use duckpass.Vault.File.{serialize_and_encrypt_vault}

-- The temporary file of the backup is not the vault file.
backup-tmp-ne-path :
    (path : Bytes) (n : TempName) → bytes_eq (tmp_path (backup_path path) n) path ≡ false
unfolding backup_path tmp_path text
backup-tmp-ne-path path n =
    rw (append_assoc path (text ".bak") _) (bytes_eq_longer path _ (omega arith))

all_true : (xs : List Disk) → All (λ (d : Disk). Unit {0}) xs
all_true [] = tt
all_true (x ∷ xs) = (tt, all_true xs)

module _ (c : CryptoHandler) where
  -- `blob` is the merged vault `v`, encrypted under the new password.
  pub record Rewritten (env : Env) (disk : Disk) (s : VaultService) (new_password : Bytes)
      (v : Vault) (blob : Bytes) : Type 0 where
    pub merged : merge_disk_state c env disk s ≡ ok (record s { vault = v })
    pub encrypted : serialize_and_encrypt_vault c env.salt env.iv v new_password ≡ ok blob

  -- In this state of the disk, the vault file is the old one or the rewritten one.
  abbrev pub Intact : Env → Disk → VaultService → Bytes → Disk → Type 0
  Intact env disk s new_password d =
      (d s.vault_path ≡ disk s.vault_path)
      ⊎ ((v : Vault) × (blob : Bytes) × Rewritten env disk s new_password v blob
          × (d s.vault_path ≡ some blob))

  -- How a rekey from the disk `disk` ends.
  pub record Rekeys (env : Env) (disk : Disk) (s : VaultService) (new_password : Bytes)
      (o : Outcome) : Type 0 where
    pub on_ok :
        o.0 ≡ ok tt
        → (v : Vault) × (blob : Bytes) × Rewritten env disk s new_password v blob
          × (o.2.disk s.vault_path ≡ some blob)
          × (o.2.disk (backup_path s.vault_path) ≡ some blob)
          × (o.1 ≡ record s { vault = v; master_password = new_password; deleted_services = [] })
    pub on_err :
        (e : Error)
        → o.0 ≡ err e
        → (o.2.disk s.vault_path ≡ disk s.vault_path)
          × (o.1.master_password ≡ s.master_password)
          × (o.1.deleted_services ≡ s.deleted_services)
    pub steady : All (Intact env disk s new_password) o.2.history

  stopped-Rekeys :
      (env : Env) (disk : Disk) (s s' : VaultService) (new_password : Bytes) (e : Error)
      (storage : Storage)
      → s'.master_password ≡ s.master_password
      → s'.deleted_services ≡ s.deleted_services
      → storage.disk s.vault_path ≡ disk s.vault_path
      → All (Intact env disk s new_password) storage.history
      → Rekeys env disk s new_password (err e, s', storage)
  stopped-Rekeys env disk s s' new_password e storage pw del same past = record {
    on_ok = λ h. cc;
    on_err = λ e' h. (same, pw, del);
    steady = past;
  }

  module _ (env : Env) (disk : Disk) (s : VaultService) (new_password : Bytes) (v : Vault)
      (blob : Bytes) (w : Rewritten env disk s new_password v blob) where
    crash_point :
        (d : Disk)
        → OldOrNew s.vault_path (disk s.vault_path) blob d
        → Intact env disk s new_password d
    crash_point d (inl old) = inl old
    crash_point d (inr new) = inr (v, blob, w, new)

    rekeyed-Rekeys :
        {remove_fails : _} (tmp : Bytes) (r : Result (Unit {0}) × Storage)
        → Replaced
            (OldOrNew s.vault_path (disk s.vault_path) blob)
            s.vault_path
            remove_fails
            tmp
            (disk s.vault_path)
            blob
            r
        → r.1.disk (backup_path s.vault_path) ≡ some blob
        → Rekeys env disk s new_password (rekeyed new_password (record s { vault = v }) r)
    unfolding rekeyed
    rekeyed-Rekeys tmp (err e, storage) r b =
        stopped-Rekeys env disk s (record s { vault = v }) new_password e storage refl refl
          (r.on_err e refl) (All-map crash_point storage.history r.steady)
    rekeyed-Rekeys tmp (ok tt, storage) r b = record {
      on_ok = λ h. (v, blob, w, r.on_ok refl, b, refl);
      on_err = λ e h. cc;
      steady = All-map crash_point storage.history r.steady;
    }

    -- The vault file waits while the backup is written, and the backup while the vault file is.
    write_current-Rekeys :
        (r : Result (Unit {0}) × Storage)
        → (r.0 ≡ ok tt → r.1.disk (backup_path s.vault_path) ≡ some blob)
        → r.1.disk s.vault_path ≡ disk s.vault_path
        → All (OldOrNew s.vault_path (disk s.vault_path) blob) r.1.history
        → Rekeys env disk s new_password
            (write_current env new_password blob (record s { vault = v }) r)
    unfolding write_current
    write_current-Rekeys (err e, storage) b same past =
        stopped-Rekeys env disk s (record s { vault = v }) new_password e storage refl refl same
          (All-map crash_point storage.history past)
    write_current-Rekeys (ok tt, storage) b same past =
        let path = s.vault_path in
        let kept =
          write_file_atomic-Unchanged (backup_path path) (some blob) (λ (d : Disk). Unit {0})
            (λ d h. tt) env.vault_write path blob false (bytes_eq_comm _ _ ∙ backup-ne-path path)
            (tmp-ne-backup path env.vault_write.name) (λ h. cc) storage
            (b refl, all_true storage.history) in
        rekeyed-Rekeys (tmp_path path env.vault_write.name)
          (write_file_atomic env.vault_write path blob false storage)
          (write_file_atomic-Keeps (OldOrNew path (disk path) blob) path env.vault_write (disk path)
            blob false (λ d h. inl h) (λ d h. inr h) storage same past)
          kept.0

  write_backup-Rekeys :
      (env : Env) (disk : Disk) (s : VaultService) (new_password : Bytes) (v : Vault)
      (storage : Storage)
      → merge_disk_state c env disk s ≡ ok (record s { vault = v })
      → storage.disk s.vault_path ≡ disk s.vault_path
      → All (λ (d : Disk). d s.vault_path ≡ disk s.vault_path) storage.history
      → Rekeys env disk s new_password
          (write_backup c env new_password (record s { vault = v }) storage)
  unfolding write_backup
  write_backup-Rekeys env disk s new_password v storage m same past =
      elim (Result-cases (serialize_and_encrypt_vault c env.salt env.iv v new_password)) [
        | inr (e, failed) ↦
            rw (failed, write_backup)
              (stopped-Rekeys env disk s (record s { vault = v }) new_password e storage refl refl
                same (All-map (λ d h. inl h) storage.history past))
        | inl (blob, made) ↦
            let path = s.vault_path in
            let backup = backup_path path in
            let replaced =
              write_file_atomic-Keeps (λ (d : Disk). Unit {0}) backup env.backup_write
                (storage.disk backup) blob false (λ d h. tt) (λ d h. tt) storage refl
                (all_true storage.history) in
            let kept =
              write_file_atomic-Unchanged path (disk path) (OldOrNew path (disk path) blob)
                (λ d h. inl h) env.backup_write backup blob false (backup-ne-path path)
                (backup-tmp-ne-path path env.backup_write.name) (λ h. cc) storage
                (same, All-map (λ d h. inl h) storage.history past) in
            rw (made, write_backup)
              (write_current-Rekeys env disk s new_password v blob
                (record { merged = m; encrypted = made })
                (write_file_atomic env.backup_write backup blob false storage) replaced.on_ok kept.0
                kept.1)
      ]

  rekey_locked-Rekeys :
      (env : Env) (disk : Disk) (s : VaultService) (new_password : Bytes)
      (r : Result (Unit {0}) × Storage)
      → r.1.disk s.vault_path ≡ disk s.vault_path
      → All (λ (d : Disk). d s.vault_path ≡ disk s.vault_path) r.1.history
      → Rekeys env disk s new_password (rekey_locked c env new_password s r)
  unfolding rekey_locked
  rekey_locked-Rekeys env disk s new_password (err e, storage) same past =
      stopped-Rekeys env disk s s new_password e storage refl refl same
        (All-map (λ d h. inl h) storage.history past)
  rekey_locked-Rekeys env disk s new_password (ok _, storage) same past =
      elim (Result-cases (merge_disk_state c env storage.disk s)) [
        | inr (e, failed) ↦
            rw (failed, rekey_locked)
              (stopped-Rekeys env disk s s new_password e storage refl refl same
                (All-map (λ d h. inl h) storage.history past))
        | inl (m, merged) ↦
            let shape = merge_shape c env storage.disk s m merged in
            let merged' =
              sym (merge_reads c env storage.disk disk s same) ∙ (merged ∙ ap ok shape) in
            rw (merged, rekey_locked)
              (subst
                (λ (x : VaultService).
                  Rekeys env disk s new_password (write_backup c env new_password x storage))
                (sym shape)
                (write_backup-Rekeys env disk s new_password m.vault storage merged' same past))
      ]

  -- A rekey that returns has written the merge of the disk and the memory, encrypted under the new
  -- password, to the vault file and to its backup, and only then took the new password. One that throws has
  -- left the vault file, the master password and the list of deleted services as they were. In every state
  -- of the disk on the way, the vault file is the old one or all of the new one.
  pub rekey-Rekeys :
      (env : Env) (s : VaultService) (new_password : Bytes) (disk : Disk)
      → Rekeys env disk s new_password
          (rekey c env new_password s (record { disk = disk; history = [] }))
  unfolding rekey
  rekey-Rekeys env s new_password disk = elim (Bool-cases (is_empty new_password)) [
    | inl empty ↦ rw empty (stopped-Rekeys env disk s s new_password _ _ refl refl refl tt)
    | inr given ↦
        let start : Storage = record { disk = disk; history = [] } in
        let (same, past) =
          acquire_keeps (λ (d : Disk). d s.vault_path ≡ disk s.vault_path) env.lock s.vault_path
            start (λ d h. h) tt in
        rw given (rekey_locked-Rekeys env disk s new_password _ same past)
  ]
