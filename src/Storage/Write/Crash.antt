-- ===== src/Storage/Write/Crash.antt =====
-- What a reader, or a restart after a crash, can find under the target of `write_file_atomic`.
use duckpass.Prelude.{
  Bool, false, ◌&&◌, [], ◌≡◌, refl, ◌∙◌, ◌⊎◌, inl, inr, Option, none, some, Bytes, bytes_eq,
  bytes_eq_comm, All, Bool-cases, Option-cases,
}
use duckpass.Prelude.Result.{Result, ok, err, Error}
use duckpass.Storage.Disk.{Disk, Storage, put, commit, exists, backup_path}
use duckpass.Storage.Write.Atomic.{
  tmp-ne-path, backup-ne-path, tmp-ne-backup, put_self, put_other, write_all-keeps,
  write_all_complete,
}
use duckpass.Storage.Write.{
  WriteAnswers, tmp_path, abandon, make_backup, rename, replace_target, sync_and_replace,
  write_file_atomic,
}

-- The file is the old one or the new one.
abbrev pub OldOrNew : Bytes → Option Bytes → Bytes → Disk → Type 0
OldOrNew path old bytes d = (d path ≡ old) ⊎ (d path ≡ some bytes)

-- How a replacement ends; `R` held in every state.
pub record Replaced {κ} (R : Disk → Type κ) (path : Bytes) (remove_fails : Bool) (tmp : Bytes)
    (old : Option Bytes) (bytes : Bytes) (r : Result (Unit {0}) × Storage) : Type κ where
  pub on_ok : r.0 ≡ ok tt → r.1.disk path ≡ some bytes
  pub on_err : (e : Error) → r.0 ≡ err e → r.1.disk path ≡ old
  pub renamed : r.0 ≡ ok tt → r.1.disk tmp ≡ none
  pub removed : remove_fails ≡ false → r.1.disk tmp ≡ none
  pub steady : All R r.1.history

module _ {κ} (R : Disk → Type κ) (path tmp : Bytes) (old : Option Bytes) (bytes : Bytes)
    (was_old : (d : Disk) → d path ≡ old → R d) (was_new : (d : Disk) → d path ≡ some bytes → R d)
    (apart : bytes_eq tmp path ≡ false) where
  -- The target is still the old file.
  Waiting : Storage → Type κ
  Waiting s = (s.disk path ≡ old) × All R s.history

  put-Waiting :
      (q : Bytes) (c : Option Bytes) (s : Storage)
      → bytes_eq q path ≡ false
      → Waiting s
      → Waiting (commit (put s.disk q c) s)
  unfolding Waiting commit
  put-Waiting q c s h w = let e = put_other s.disk q path c h ∙ w.0 in (e, (was_old _ e, w.1))

  abandon-Replaced :
      (a : WriteAnswers) (e : Error) (s : Storage)
      → Waiting s
      → Replaced R path a.remove_fails tmp old bytes (abandon a tmp e s)
  unfolding abandon Waiting commit
  abandon-Replaced a e s w = elim (Bool-cases a.remove_fails) [
    | inl left ↦ rw left (record {
      on_ok = λ h. cc;
      on_err = λ e' h. w.0;
      renamed = λ h. cc;
      removed = λ h. cc;
      steady = w.1;
    })
    | inr gone ↦ rw gone (record {
      on_ok = λ h. cc;
      on_err = λ e' h. (put-Waiting tmp none s apart w).0;
      renamed = λ h. cc;
      removed = λ h. put_self s.disk tmp none;
      steady = (put-Waiting tmp none s apart w).1;
    })
  ]

  rename-Replaced :
      (remove_fails : Bool) (s : Storage)
      → s.disk tmp ≡ some bytes
      → Waiting s
      → Replaced R path remove_fails tmp old bytes (ok tt, rename tmp path s)
  unfolding rename Waiting commit
  rename-Replaced remove_fails s h w =
      let moved : put (put s.disk path (s.disk tmp)) tmp none path ≡ some bytes =
        put_other _ tmp path none apart ∙ (put_self s.disk path _ ∙ h) in
      record {
        on_ok = λ _. moved;
        on_err = λ e r. cc;
        renamed = λ _. put_self _ tmp none;
        removed = λ _. put_self _ tmp none;
        steady = (was_new _ moved, w.1);
      }

  replace_target-Replaced :
      (a : WriteAnswers) (s : Storage)
      → s.disk tmp ≡ some bytes
      → Waiting s
      → Replaced R path a.remove_fails tmp old bytes (replace_target a tmp path s)
  unfolding replace_target
  replace_target-Replaced a s h w = elim (Option-cases a.injected) [
    | inr (e, thrown) ↦ rw (thrown, replace_target) (abandon-Replaced a e s w)
    | inl quiet ↦ elim (Option-cases a.rename_fails) [
      | inr (why, failed) ↦ rw (quiet, failed, replace_target) (abandon-Replaced a _ s w)
      | inl renamed ↦ rw (quiet, renamed, replace_target) (rename-Replaced a.remove_fails s h w)
    ]
  ]

module _ {κ} (R : Disk → Type κ) (path : Bytes) (a : WriteAnswers) (old : Option Bytes)
    (bytes : Bytes) (create_backup : Bool) (was_old : (d : Disk) → d path ≡ old → R d)
    (was_new : (d : Disk) → d path ≡ some bytes → R d) where
  abbrev tmp : Bytes
  tmp = tmp_path path a.name

  abbrev IsWaiting : Storage → Type κ
  IsWaiting s = (s.disk path ≡ old) × All R s.history

  -- The backup touches neither the target nor the temporary file.
  make_backup-Waiting :
      (s : Storage)
      → IsWaiting s
      → IsWaiting (make_backup a path create_backup s)
        × ((make_backup a path create_backup s).disk tmp ≡ s.disk tmp)
  unfolding make_backup Waiting commit
  make_backup-Waiting s w = elim (Bool-cases (create_backup && exists s.disk path)) [
    | inr skipped ↦ rw skipped (w, refl)
    | inl wanted ↦ elim (Option-cases a.copy_fails) [
      | inl copied ↦
          rw (wanted, copied, make_backup)
            (
              put-Waiting R path tmp old bytes was_old was_new (tmp-ne-path path a.name)
                  (backup_path path) (s.disk path) s (backup-ne-path path) w,
              put_other s.disk (backup_path path) tmp _
                  (bytes_eq_comm _ _ ∙ tmp-ne-backup path a.name),
            )
      | inr (left, failed) ↦
          rw (wanted, failed, make_backup)
            (
              put-Waiting R path tmp old bytes was_old was_new (tmp-ne-path path a.name)
                  (backup_path path) left s (backup-ne-path path) w,
              put_other s.disk (backup_path path) tmp _
                  (bytes_eq_comm _ _ ∙ tmp-ne-backup path a.name),
            )
    ]
  ]

  sync_and_replace-Replaced :
      (r : Result (Unit {0}) × Storage)
      → (r.0 ≡ ok tt → r.1.disk tmp ≡ some bytes)
      → IsWaiting r.1
      → Replaced R path a.remove_fails tmp old bytes (sync_and_replace a tmp path create_backup r)
  unfolding sync_and_replace Waiting
  sync_and_replace-Replaced (err e, s) written w =
      abandon-Replaced R path tmp old bytes was_old was_new (tmp-ne-path path a.name) a e s w
  sync_and_replace-Replaced (ok tt, s) written w =
      let (w', same) = make_backup-Waiting s w in
      elim (Option-cases a.sync_fails) [
        | inr (why, failed) ↦
            rw (failed, sync_and_replace)
              (abandon-Replaced R path tmp old bytes was_old was_new (tmp-ne-path path a.name) a _ s
                w)
        | inl synced ↦
            rw (synced, sync_and_replace)
              (replace_target-Replaced R path tmp old bytes was_old was_new
                (tmp-ne-path path a.name) a (make_backup a path create_backup s)
                (same ∙ written refl) w')
      ]

  pub write_file_atomic-Keeps :
      (s : Storage)
      → s.disk path ≡ old
      → All R s.history
      → Replaced R path a.remove_fails
          (tmp_path path a.name)
          old
          bytes
          (write_file_atomic a path bytes create_backup s)
  unfolding write_file_atomic Waiting commit
  write_file_atomic-Keeps s h past = elim (Option-cases a.open_fails) [
    | inr (why, failed) ↦
        rw (failed, write_file_atomic)
          (abandon-Replaced R path tmp old bytes was_old was_new (tmp-ne-path path a.name) a _ s
            (h, past))
    | inl opened ↦
        let (w, w') =
          put-Waiting R path tmp old bytes was_old was_new (tmp-ne-path path a.name) tmp (some []) s
            (tmp-ne-path path a.name) (h, past) in
        let kept =
          write_all-keeps IsWaiting tmp
            (λ t c x.
              put-Waiting R path tmp old bytes was_old was_new (tmp-ne-path path a.name) tmp c t
                (tmp-ne-path path a.name) x)
            a.calls [] bytes (commit (put s.disk tmp (some [])) s) (w, w') in
        rw (opened, write_file_atomic)
          (sync_and_replace-Replaced _
            (write_all_complete a.calls tmp [] bytes _ (put_self s.disk tmp _)) kept)
  ]

-- Whatever the system answers, a replacement that returns has put the new data under the path, and one
-- that throws has left the old file there. The temporary file is gone if the replacement returned, and also
-- if it threw and the file could be removed. In every state on the way the path holds the old file or all
-- of the new data.
pub write_file_atomic-Replaced :
    (a : WriteAnswers) (path bytes : Bytes) (create_backup : Bool) (s : Storage)
    → All (OldOrNew path (s.disk path) bytes) s.history
    → Replaced
        (OldOrNew path (s.disk path) bytes)
        path
        a.remove_fails
        (tmp_path path a.name)
        (s.disk path)
        bytes
        (write_file_atomic a path bytes create_backup s)
write_file_atomic-Replaced a path bytes create_backup s past =
    write_file_atomic-Keeps (OldOrNew path (s.disk path) bytes) path a (s.disk path) bytes
      create_backup (λ d h. inl h) (λ d h. inr h) s refl past
