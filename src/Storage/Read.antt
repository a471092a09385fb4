-- ===== src/Storage/Read.antt =====
-- `read_all` and `read_file` of src/local_storage.cpp.
pub mod Laws
use duckpass.Prelude.{
  ℕ, ◌+◌, ◌-◌, ◌*◌, ◌==◌, Bool, List, [], ◌∷◌, ◌++◌, Option, none, some, Bytes, text, length, take,
  drop, min, ltb, if◌then◌else◌,
}
use duckpass.Prelude.Result.{
  Result, ok, err, vault_io_error, vault_corrupted_error, throw_if, ◌>>=◌, ◌>>◌,
}
use duckpass.Storage.Disk.{Disk}

-- An answer of `read` that is not all that was asked for. After the listed answers a call gives all that
-- is asked for, as far as the file goes.
pub data ReadCall : Type 0 where
  -- at most so many bytes; 0 is the end of the file
  some_bytes : ℕ → ReadCall
  -- -1 with EINTR
  read_interrupted : ReadCall
  -- -1 with another `errno`, and its text
  read_failed : Bytes → ReadCall

abbrev eof {ℓ} : {A : Type ℓ} → Result A
eof = err (vault_corrupted_error (text "Unexpected EOF while reading storage"))

-- The last call asks for the `count` bytes that are missing.
unfoldable pub read_rest : ℕ → Bytes → Bytes → Result Bytes
read_rest count file got = if ltb (length file) count then eof else ok (got ++ take count file)

-- `file` is what the descriptor has not delivered, and `got` is the filled part of the buffer.
unfoldable pub read_all : List ReadCall → ℕ → Bytes → Bytes → Result Bytes
read_all [] count file got = read_rest count file got
read_all (read_interrupted ∷ calls) count file got = read_all calls count file got
read_all (read_failed why ∷ calls) count file got =
    if count == 0 then ok got else err (vault_io_error (text "POSIX read failed: " ++ why))
read_all (some_bytes n ∷ calls) count file got =
    let chunk = take (min n count) file in
    let rest = read_all calls (count - length chunk) (drop (length chunk) file) (got ++ chunk) in
    if count == 0 then ok got else if length chunk == 0 then eof else rest

pub record ReadAnswers : Type 0 where
  -- the text of `errno`, where the call fails
  pub open_fails : Option Bytes
  pub stat_fails : Option Bytes
  pub calls : List ReadCall

abbrev pub max_file_size : ℕ
max_file_size = 500 * 1024 * 1024

abbrev about : Bytes → Bytes → Bytes → Bytes
about what path why = what ++ (path ++ (text " (" ++ (why ++ text ")")))

-- The part after `open`.
unfoldable pub read_opened : ReadAnswers → Bytes → Bytes → Result Bytes
read_opened answers path file = elim answers.stat_fails [
  | some why ↦ err (vault_io_error (about (text "Failed to stat file: ") path why))
  | none ↦
      if ltb max_file_size (length file)
      then err (vault_io_error (text "Vault file is too large (over 500MB). Possible tampering."))
      else if length file == 0
      then ok []
      else read_all answers.calls (length file) file []
]

abbrev no_such_file : Bytes
no_such_file = text "No such file or directory"

unfoldable pub read_file : ReadAnswers → Disk → Bytes → Result Bytes
read_file answers disk path = elim answers.open_fails [
  | some why ↦ err (vault_io_error (about (text "Failed to open file: ") path why))
  | none ↦ elim (disk path) [
    | none ↦ err (vault_io_error (about (text "Failed to open file: ") path no_such_file))
    | some file ↦ read_opened answers path file
  ]
]
