-- ===== src/Storage/Write/Frame.antt =====
-- `write_file_atomic` leaves the files that it does not name alone.
use duckpass.Prelude.{
  Bool, true, false, ◌&&◌, [], ◌≡◌, ◌∙◌, inl, inr, Option, none, some, Bytes, bytes_eq, All,
  Bool-cases, Option-cases, &&_iff,
}
use duckpass.Prelude.Result.{Result, ok, err, Error}
use duckpass.Storage.Disk.{Disk, Storage, put, commit, exists, backup_path}
use duckpass.Storage.Write.Atomic.{put_other, write_all-keeps}
use duckpass.Storage.Write.{
  WriteAnswers, tmp_path, abandon, make_backup, rename, replace_target, sync_and_replace,
  write_file_atomic,
}

module _ {κ} (q : Bytes) (v : Option Bytes) (R : Disk → Type κ)
    (holds : (d : Disk) → d q ≡ v → R d) where
  -- The file `q` is `v`, and `R` held in every state.
  abbrev pub Unchanged : Storage → Type κ
  Unchanged s = (s.disk q ≡ v) × All R s.history

  put-Unchanged :
      (p : Bytes) (s : Storage) (c : Option Bytes)
      → bytes_eq p q ≡ false
      → Unchanged s
      → Unchanged (commit (put s.disk p c) s)
  unfolding commit
  put-Unchanged p s c h u = let e = put_other s.disk p q c h ∙ u.0 in (e, (holds _ e, u.1))

  module _ (a : WriteAnswers) (path bytes : Bytes) (create_backup : Bool)
      (apart : bytes_eq path q ≡ false) (tmp_apart : bytes_eq (tmp_path path a.name) q ≡ false)
      (backup_apart : create_backup ≡ true → bytes_eq (backup_path path) q ≡ false) where
    abandon-Unchanged :
        (e : Error) (s : Storage) → Unchanged s → Unchanged (abandon a (tmp_path path a.name) e s).1
    unfolding abandon
    abandon-Unchanged e s u = elim (Bool-cases a.remove_fails) [
      | inl left ↦ rw left u
      | inr gone ↦ rw gone (put-Unchanged (tmp_path path a.name) s none tmp_apart u)
    ]

    rename-Unchanged :
        (s : Storage) → Unchanged s → Unchanged (rename (tmp_path path a.name) path s)
    unfolding rename commit
    rename-Unchanged s u =
        let e =
          put_other _ (tmp_path path a.name) q none tmp_apart
          ∙ (put_other s.disk path q _ apart ∙ u.0) in
        (e, (holds _ e, u.1))

    replace_target-Unchanged :
        (s : Storage) → Unchanged s → Unchanged (replace_target a (tmp_path path a.name) path s).1
    unfolding replace_target
    replace_target-Unchanged s u = elim (Option-cases a.injected) [
      | inr (e, thrown) ↦ rw (thrown, replace_target) (abandon-Unchanged e s u)
      | inl quiet ↦ elim (Option-cases a.rename_fails) [
        | inr (why, failed) ↦ rw (quiet, failed, replace_target) (abandon-Unchanged _ s u)
        | inl renamed ↦ rw (quiet, renamed, replace_target) (rename-Unchanged s u)
      ]
    ]

    make_backup-Unchanged :
        (s : Storage) → Unchanged s → Unchanged (make_backup a path create_backup s)
    unfolding make_backup
    make_backup-Unchanged s u = elim (Bool-cases (create_backup && exists s.disk path)) [
      | inr skipped ↦ rw skipped u
      | inl wanted ↦
          let other = backup_apart ((&&_iff create_backup (exists s.disk path)).0 wanted).0 in
          elim (Option-cases a.copy_fails) [
            | inl copied ↦
                rw (wanted, copied, make_backup) (put-Unchanged (backup_path path) s _ other u)
            | inr (left, failed) ↦
                rw (wanted, failed, make_backup) (put-Unchanged (backup_path path) s _ other u)
          ]
    ]

    sync_and_replace-Unchanged :
        (r : Result (Unit {0}) × Storage)
        → Unchanged r.1
        → Unchanged (sync_and_replace a (tmp_path path a.name) path create_backup r).1
    unfolding sync_and_replace
    sync_and_replace-Unchanged (err e, s) u = abandon-Unchanged e s u
    sync_and_replace-Unchanged (ok tt, s) u = elim (Option-cases a.sync_fails) [
      | inr (why, failed) ↦ rw (failed, sync_and_replace) (abandon-Unchanged _ s u)
      | inl synced ↦
          rw (synced, sync_and_replace) (replace_target-Unchanged _ (make_backup-Unchanged s u))
    ]

    pub write_file_atomic-Unchanged :
        (s : Storage) → Unchanged s → Unchanged (write_file_atomic a path bytes create_backup s).1
    unfolding write_file_atomic
    write_file_atomic-Unchanged s u = elim (Option-cases a.open_fails) [
      | inr (why, failed) ↦ rw (failed, write_file_atomic) (abandon-Unchanged _ s u)
      | inl opened ↦
          let first = put-Unchanged (tmp_path path a.name) s (some []) tmp_apart u in
          rw (opened, write_file_atomic)
            (sync_and_replace-Unchanged _ (
              write_all-keeps Unchanged (tmp_path path a.name)
                (λ t c x. put-Unchanged (tmp_path path a.name) t c tmp_apart x) a.calls [] bytes _
                first))
    ]
