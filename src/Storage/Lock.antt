-- ===== src/Storage/Lock.antt =====
-- `acquire_file_lock` of src/local_storage.cpp.
use duckpass.Prelude.{List, [], ◌∷◌, ◌++◌, Option, none, some, Bytes, text, if◌then◌else◌}
use duckpass.Prelude.Result.{Result, ok, err, vault_io_error}
use duckpass.Storage.Disk.{Storage, put, commit, exists}

-- The answers of `flock` before it grants the lock.
pub data LockCall : Type 0 where
  lock_interrupted : LockCall
  lock_failed : Bytes → LockCall

pub record LockAnswers : Type 0 where
  pub open_fails : Option Bytes
  pub calls : List LockCall

unfoldable pub lock_path : Bytes → Bytes
lock_path path = path ++ text ".lock"

unfoldable pub flock_loop : List LockCall → Bytes → Result (Unit {0})
flock_loop [] path = ok tt
flock_loop (lock_interrupted ∷ calls) path = flock_loop calls path
flock_loop (lock_failed why ∷ calls) path = err (
    vault_io_error
      (text "Failed to acquire flock on: " ++ (lock_path path ++ (text " (" ++ (why ++ text ")")))))

-- The lock file is created if it is not there.
unfoldable pub acquire_file_lock : LockAnswers → Bytes → Storage → Result (Unit {0}) × Storage
acquire_file_lock a path s = elim a.open_fails [
  | some why ↦ (
    err (
        vault_io_error (
          text "Failed to open lock file: "
          ++ (lock_path path ++ (text " (" ++ (why ++ text ")"))))),
    s,
  )
  | none ↦ (
    flock_loop a.calls path,
    if exists s.disk (lock_path path) then s else commit (put s.disk (lock_path path) (some [])) s,
  )
]
