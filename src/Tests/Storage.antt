-- ===== src/Tests/Storage.antt =====
-- src/local_storage.cpp at concrete inputs.
use duckpass.Prelude.{
  false, ℕ, ◌≡◌, refl, true, [], ◌∷◌, none, some, Bytes, bytes_eq, All, if◌then◌else◌, arith,
}
use duckpass.Prelude.Result.{ok}
use duckpass.Storage.Disk.{Disk, Storage}
use duckpass.Storage.Lock.{LockAnswers, lock_interrupted}
use duckpass.Storage.Read.Laws.{Progresses, read_file_complete}
use duckpass.Storage.Read.{
  some_bytes, read_interrupted, ReadAnswers, read_file, read_opened, read_all, read_rest,
}
use duckpass.Storage.Write.Crash.{OldOrNew, Replaced, write_file_atomic-Replaced}
use duckpass.Storage.Write.{
  some_written, write_interrupted, WriteAnswers, tmp_path, write_file_atomic,
}

abbrev pub vault_path : Bytes
vault_path = 118 ∷ []

-- A disk with one file.
abbrev pub one_file : Bytes → Disk
one_file file path = if bytes_eq path vault_path then some file else none

abbrev pub read_answers : ReadAnswers
read_answers = record {
  open_fails = none;
  stat_fails = none;
  calls = read_interrupted ∷ some_bytes 2 ∷ [];
}

abbrev pub write_answers : ℕ → WriteAnswers
write_answers n = record {
  name = record { pid = 1; now_ns = 2; counter = n };
  open_fails = none;
  calls = some_written 1 ∷ write_interrupted ∷ [];
  sync_fails = none;
  copy_fails = none;
  injected = none;
  rename_fails = none;
  remove_fails = false;
}

abbrev pub lock_answers : LockAnswers
lock_answers = record { open_fails = none; calls = lock_interrupted ∷ [] }

abbrev file : Bytes
file = 7 ∷ 8 ∷ 9 ∷ []

all_progress : All Progresses read_answers.calls
all_progress = (tt, (omega arith, tt))

read_file_complete_example : read_file read_answers (one_file file) vault_path ≡ ok file
unfolding bytes_eq
read_file_complete_example =
    read_file_complete read_answers (one_file file) vault_path file refl refl all_progress
      file_there (omega arith)
  where
    file_there : one_file file vault_path ≡ some file
    file_there = refl

file_read : read_file read_answers (one_file file) vault_path ≡ ok file
unfolding read_file read_opened read_all read_rest bytes_eq
file_read = refl

abbrev start : Storage
start = record { disk = one_file file; history = [] }

write_file_atomic-Replaced_example :
    Replaced
      (OldOrNew vault_path (one_file file vault_path) (4 ∷ 5 ∷ []))
      vault_path
      false
      (tmp_path vault_path (write_answers 3).name)
      (one_file file vault_path)
      (4 ∷ 5 ∷ [])
      (write_file_atomic (write_answers 3) vault_path (4 ∷ 5 ∷ []) true start)
write_file_atomic-Replaced_example =
    write_file_atomic-Replaced (write_answers 3) vault_path (4 ∷ 5 ∷ []) true start tt
