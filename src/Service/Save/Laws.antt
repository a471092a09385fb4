-- ===== src/Service/Save/Laws.antt =====
-- A save that returns has put the merged vault on the disk; one that throws has left the file alone.
use duckpass.Crypto.{CryptoHandler}
use duckpass.Prelude.{
  true, false, List, [], ◌∷◌, ◌≡◌, refl, sym, ap, ◌∙◌, subst, some, Bytes, bytes_eq, text, All,
  arith, Bool-cases, Option-cases, inl, inr, ◌⊎◌,
}
use duckpass.Prelude.Result.{Result, ok, err, Error, bind-eq-ok, Result-cases}
use duckpass.Storage.Read.Laws.{read_file_reads}
use duckpass.Service.Merge.{merge_disk_state, merge_entries}
use duckpass.Service.Save.{committed, commit_vault, save_locked, save}
use duckpass.Service.State.{VaultService, Env, Outcome, load_vault}
use duckpass.Storage.Disk.{Disk, Storage, commit, exists}
use duckpass.Storage.Lock.{LockAnswers, lock_path, acquire_file_lock}
use duckpass.Storage.Write.Atomic.{put_other, bytes_eq_longer}
use duckpass.Storage.Write.Crash.{OldOrNew, Replaced, write_file_atomic-Keeps}
use duckpass.Vault.Entries.{Vault}
use duckpass.Vault.File.{serialize_and_encrypt_vault}

-- The lock file is another file.
pub lock-ne-path : (path : Bytes) → bytes_eq (lock_path path) path ≡ false
unfolding lock_path text
lock-ne-path path = bytes_eq_longer path _ (omega arith)

-- Taking the lock keeps the vault file, and what was true of every state of the disk in which it is there.
pub acquire_keeps {κ} :
    (R : Disk → Type κ) (a : LockAnswers) (path : Bytes) (s : Storage)
    → ((d : Disk) → d path ≡ s.disk path → R d)
    → All R s.history
    → let s' = (acquire_file_lock a path s).1 in (s'.disk path ≡ s.disk path) × All R s'.history
unfolding acquire_file_lock commit
acquire_keeps R a path s holds past = elim (Option-cases a.open_fails) [
  | inr (why, failed) ↦ rw (failed, acquire_file_lock) (refl, past)
  | inl opened ↦ elim (Bool-cases (exists s.disk (lock_path path))) [
    | inl there ↦ rw (opened, there, acquire_file_lock) (refl, past)
    | inr fresh ↦
        let same = put_other s.disk (lock_path path) path (some []) (lock-ne-path path) in
        rw (opened, fresh, acquire_file_lock) (same, (holds _ same, past))
  ]
]

pub All-map {ℓ κ} :
    {A : Type ℓ} {P Q : A → Type κ} (f : (a : A) → P a → Q a) (xs : List A) → All P xs → All Q xs
All-map f [] a = tt
All-map f (x ∷ xs) a = (f x a.0, All-map f xs a.1)

module _ (c : CryptoHandler) where
  -- The merge changes the vault at most, and reads the vault file only.
  pub merge_shape :
      (env : Env) (disk : Disk) (s m : VaultService)
      → merge_disk_state c env disk s ≡ ok m
      → m ≡ record s { vault = m.vault }
  unfolding merge_disk_state
  merge_shape env disk s m h = elim (Bool-cases (exists disk s.vault_path)) [
    | inr missing ↦
        let same : s ≡ m = cc (rw missing at h) in
        subst (λ (x : VaultService). x ≡ record s { vault = x.vault }) same refl
    | inl there ↦
        let (v, _, e) =
          bind-eq-ok (load_vault c env disk s.vault_path s.master_password) _ (rw there at h) in
        let same : record s { vault = merge_entries env.now s.deleted_services v s.vault } ≡ m =
          cc in
        subst (λ (x : VaultService). x ≡ record s { vault = x.vault }) same refl
  ]

  pub merge_reads :
      (env : Env) (d d' : Disk) (s : VaultService)
      → d s.vault_path ≡ d' s.vault_path
      → merge_disk_state c env d s ≡ merge_disk_state c env d' s
  unfolding merge_disk_state load_vault
  merge_reads env d d' s e = rw (e, read_file_reads env.reads d d' s.vault_path e) refl

  -- `blob` is the merged vault `v`, encrypted.
  pub record Written (env : Env) (disk : Disk) (s : VaultService) (v : Vault) (blob : Bytes)
      : Type 0 where
    pub merged : merge_disk_state c env disk s ≡ ok (record s { vault = v })
    pub encrypted : serialize_and_encrypt_vault c env.salt env.iv v s.master_password ≡ ok blob

  -- In this state of the disk, the vault file is the old one or the merged vault, encrypted.
  abbrev pub Unbroken : Env → Disk → VaultService → Disk → Type 0
  Unbroken env disk s d =
      (d s.vault_path ≡ disk s.vault_path)
      ⊎ ((v : Vault) × (blob : Bytes) × Written env disk s v blob × (d s.vault_path ≡ some blob))

  -- How a save from the disk `disk` ends.
  pub record Saves (env : Env) (disk : Disk) (s : VaultService) (o : Outcome) : Type 0 where
    pub on_ok :
        o.0 ≡ ok tt
        → (v : Vault) × (blob : Bytes) × Written env disk s v blob
          × (o.2.disk s.vault_path ≡ some blob)
          × (o.1 ≡ record s { vault = v; deleted_services = [] })
    pub on_err : (e : Error) → o.0 ≡ err e → o.2.disk s.vault_path ≡ disk s.vault_path
    pub steady : All (Unbroken env disk s) o.2.history

  crash_point :
      (env : Env) (disk : Disk) (s : VaultService) (v : Vault) (blob : Bytes)
      → Written env disk s v blob
      → (d : Disk) → OldOrNew s.vault_path (disk s.vault_path) blob d
      → Unbroken env disk s d
  crash_point env disk s v blob w d (inl old) = inl old
  crash_point env disk s v blob w d (inr new) = inr (v, blob, w, new)

  committed-Saves :
      (env : Env) (disk : Disk) (s : VaultService) (v : Vault) (blob : Bytes) {remove_fails : _}
      (tmp : Bytes) (r : Result (Unit {0}) × Storage)
      → Written env disk s v blob
      → Replaced
          (OldOrNew s.vault_path (disk s.vault_path) blob)
          s.vault_path
          remove_fails
          tmp
          (disk s.vault_path)
          blob
          r
      → Saves env disk s (committed (record s { vault = v }) r)
  unfolding committed
  committed-Saves env disk s v blob tmp (err e, storage) w r = record {
    on_ok = λ h. cc;
    on_err = λ e' h. r.on_err e refl;
    steady = All-map (crash_point env disk s v blob w) storage.history r.steady;
  }
  committed-Saves env disk s v blob tmp (ok tt, storage) w r = record {
    on_ok = λ h. (v, blob, w, r.on_ok refl, refl);
    on_err = λ e' h. cc;
    steady = All-map (crash_point env disk s v blob w) storage.history r.steady;
  }

  -- A save that stops before it writes.
  stopped-Saves :
      (env : Env) (disk : Disk) (s s' : VaultService) (e : Error) (storage : Storage)
      → storage.disk s.vault_path ≡ disk s.vault_path
      → All (λ (d : Disk). d s.vault_path ≡ disk s.vault_path) storage.history
      → Saves env disk s (err e, s', storage)
  stopped-Saves env disk s s' e storage same past = record {
    on_ok = λ h. cc;
    on_err = λ e' h. same;
    steady = All-map (λ d h. inl h) storage.history past;
  }

  commit_vault-Saves :
      (env : Env) (disk : Disk) (s : VaultService) (v : Vault) (storage : Storage)
      → merge_disk_state c env disk s ≡ ok (record s { vault = v })
      → storage.disk s.vault_path ≡ disk s.vault_path
      → All (λ (d : Disk). d s.vault_path ≡ disk s.vault_path) storage.history
      → Saves env disk s (commit_vault c env s.master_password (record s { vault = v }) storage)
  unfolding commit_vault
  commit_vault-Saves env disk s v storage m same past =
      elim (Result-cases (serialize_and_encrypt_vault c env.salt env.iv v s.master_password)) [
        | inr (e, failed) ↦
            rw (failed, commit_vault) (stopped-Saves env disk s _ e storage same past)
        | inl (blob, made) ↦
            rw (made, commit_vault)
              (committed-Saves env disk s v blob _ _ (record { merged = m; encrypted = made })
                (write_file_atomic-Keeps (OldOrNew s.vault_path (disk s.vault_path) blob)
                  s.vault_path env.vault_write (disk s.vault_path) blob true (λ d h. inl h)
                  (λ d h. inr h) storage same (All-map (λ d h. inl h) storage.history past)))
      ]

  save_locked-Saves :
      (env : Env) (disk : Disk) (s : VaultService) (r : Result (Unit {0}) × Storage)
      → r.1.disk s.vault_path ≡ disk s.vault_path
      → All (λ (d : Disk). d s.vault_path ≡ disk s.vault_path) r.1.history
      → Saves env disk s (save_locked c env s r)
  unfolding save_locked
  save_locked-Saves env disk s (err e, storage) same past =
      stopped-Saves env disk s s e storage same past
  save_locked-Saves env disk s (ok tt, storage) same past =
      elim (Result-cases (merge_disk_state c env storage.disk s)) [
        | inr (e, failed) ↦
            rw (failed, save_locked) (stopped-Saves env disk s s e storage same past)
        | inl (m, merged) ↦
            let shape = merge_shape env storage.disk s m merged in
            let merged' = sym (merge_reads env storage.disk disk s same) ∙ (merged ∙ ap ok shape) in
            rw (merged, save_locked)
              (subst
                (λ (x : VaultService).
                  Saves env disk s (commit_vault c env x.master_password x storage))
                (sym shape) (commit_vault-Saves env disk s m.vault storage merged' same past))
      ]

  -- A save that returns has written the merge of the disk and the memory, encrypted, over the vault file,
  -- and made it the vault in memory with nothing marked as deleted. One that throws has left the file as it
  -- was. In every state of the disk on the way the file is the old one or all of the new one.
  pub save-Saves :
      (env : Env) (s : VaultService) (disk : Disk)
      → Saves env disk s (save c env s (record { disk = disk; history = [] }))
  unfolding save
  save-Saves env s disk =
      let start : Storage = record { disk = disk; history = [] } in
      let (same, past) =
        acquire_keeps (λ (d : Disk). d s.vault_path ≡ disk s.vault_path) env.lock s.vault_path start
          (λ d h. h) tt in
      save_locked-Saves env disk s _ same past
