-- ===== src/Storage/Write.antt =====
-- `write_all` and `write_file_atomic` of src/local_storage.cpp.
pub mod Atomic
pub mod Frame
pub mod Crash
use duckpass.Prelude.{
  ℕ, ◌+◌, ◌-◌, ◌==◌, Bool, true, false, ◌&&◌, List, [], ◌∷◌, ◌++◌, Option, none, some, Bytes, text,
  length, take, drop, is_empty, if◌then◌else◌,
}
use duckpass.Prelude.Result.{Result, ok, err, Error, vault_io_error}
use duckpass.Storage.Disk.{Disk, Storage, put, commit, exists, backup_path}
use duckpass.Text.Decimal.{to_string}

-- An answer of `write` that does not take all that is left. After the listed answers a call takes all.
pub data WriteCall : Type 0 where
  -- so many bytes were taken
  some_written : ℕ → WriteCall
  -- -1 with EINTR
  write_interrupted : WriteCall
  -- -1 with another `errno`, and its text
  write_failed : Bytes → WriteCall

-- What makes the name of a temporary file unique.
pub record TempName : Type 0 where
  pub pid : ℕ
  pub now_ns : ℕ
  pub counter : ℕ

pub record WriteAnswers : Type 0 where
  pub name : TempName
  pub open_fails : Option Bytes
  pub calls : List WriteCall
  pub sync_fails : Option Bytes
  -- what a failed copy left in the backup
  pub copy_fails : Option (Option Bytes)
  -- what the test seam throws
  pub injected : Option Error
  pub rename_fails : Option Bytes
  -- whether the temporary file can not be removed, which is ignored
  pub remove_fails : Bool

-- `parent_dir / unique_tmp_name`, for a path in the form `parent_dir / filename`.
unfoldable pub tmp_path : Bytes → TempName → Bytes
tmp_path path n =
    path
    ++ (text ".tmp."
        ++ (to_string n.pid
            ++ (text "." ++ (to_string n.now_ns ++ (text "." ++ to_string n.counter)))))

-- `data` is what is left to write to the file `tmp`, which holds `written`.
unfoldable pub write_all :
    List WriteCall → Bytes → Bytes → Bytes → Storage → Result (Unit {0}) × Storage
write_all [] tmp written bytes s =
    if is_empty bytes
    then (ok tt, s)
    else (ok tt, commit (put s.disk tmp (some (written ++ bytes))) s)
write_all (write_interrupted ∷ calls) tmp written bytes s = write_all calls tmp written bytes s
write_all (write_failed why ∷ calls) tmp written bytes s =
    if is_empty bytes
    then (ok tt, s)
    else (err (vault_io_error (text "POSIX write failed: " ++ why)), s)
write_all (some_written n ∷ calls) tmp written bytes s =
    let grown = written ++ take n bytes in
    let rest = write_all calls tmp grown (drop n bytes) (commit (put s.disk tmp (some grown)) s) in
    if is_empty bytes then (ok tt, s) else rest

-- A throw while the temporary file is guarded: `~TempFileGuard` removes it, if it can.
unfoldable pub abandon : WriteAnswers → Bytes → Error → Storage → Result (Unit {0}) × Storage
abandon a tmp e s = if a.remove_fails then (err e, s) else (err e, commit (put s.disk tmp none) s)

-- A failed copy is only a warning.
unfoldable pub make_backup : WriteAnswers → Bytes → Bool → Storage → Storage
make_backup a path create_backup s =
    if create_backup && exists s.disk path
    then elim a.copy_fails [
      | none ↦ commit (put s.disk (backup_path path) (s.disk path)) s
      | some left ↦ commit (put s.disk (backup_path path) left) s
    ]
    else s

-- `rename` replaces the target in one step.
unfoldable pub rename : Bytes → Bytes → Storage → Storage
rename tmp path s = commit (put (put s.disk path (s.disk tmp)) tmp none) s

-- From the test seam on.
unfoldable pub replace_target : WriteAnswers → Bytes → Bytes → Storage → Result (Unit {0}) × Storage
replace_target a tmp path s = elim a.injected [
  | some e ↦ abandon a tmp e s
  | none ↦ elim a.rename_fails [
    | some why ↦
        abandon a tmp (vault_io_error (text "Failed to atomically rename vault file: " ++ why)) s
    | none ↦ (ok tt, rename tmp path s)
  ]
]

-- From the end of `write_all` on.
unfoldable pub sync_and_replace :
    WriteAnswers → Bytes → Bytes → Bool → Result (Unit {0}) × Storage → Result (Unit {0}) × Storage
sync_and_replace a tmp path create_backup (err e, s) = abandon a tmp e s
sync_and_replace a tmp path create_backup (ok _, s) = elim a.sync_fails [
  | some why ↦ abandon a tmp (vault_io_error (text "Failed to sync file to disk: " ++ why)) s
  | none ↦ replace_target a tmp path (make_backup a path create_backup s)
]

unfoldable pub write_file_atomic :
    WriteAnswers → Bytes → Bytes → Bool → Storage → Result (Unit {0}) × Storage
write_file_atomic a path bytes create_backup s =
    let tmp = tmp_path path a.name in
    elim a.open_fails [
      | some why ↦
          abandon a tmp
            (vault_io_error (
              text "Failed to create temporary file: "
              ++ (tmp ++ (text " (" ++ (why ++ text ")")))))
            s
      | none ↦
          sync_and_replace a tmp path create_backup
            (write_all a.calls tmp [] bytes (commit (put s.disk tmp (some [])) s))
    ]
