-- ===== src/Service/State.antt =====
-- The fields of `VaultService`, and what an operation of it needs and gives.
use duckpass.Crypto.{CryptoHandler, Draw}
use duckpass.Prelude.{ℕ, List, [], Bytes}
use duckpass.Prelude.Result.{Result, ok, ◌>>=◌}
use duckpass.Storage.Disk.{Disk, Storage}
use duckpass.Storage.Lock.{LockAnswers}
use duckpass.Storage.Read.{ReadAnswers, read_file}
use duckpass.Storage.Write.{WriteAnswers}
use duckpass.Vault.Entries.{Vault}
use duckpass.Vault.File.{load_blob}

pub record VaultService : Type 0 where
  pub vault_path : Bytes
  pub master_password : Bytes
  pub vault : Vault
  pub deleted_services : List Bytes

-- The clock, and what the system answers to the calls of one operation.
pub record Env : Type 0 where
  pub now : ℕ
  pub lock : LockAnswers
  pub reads : ReadAnswers
  pub salt : Draw
  pub iv : Draw
  pub backup_write : WriteAnswers
  pub vault_write : WriteAnswers

-- The result, with the service and the storage after the call, also when it throws.
abbrev pub Outcome : Type 0
Outcome = Result (Unit {0}) × VaultService × Storage

module _ (c : CryptoHandler) where
  -- `vault_handler::load_vault`
  unfoldable pub load_vault : Env → Disk → Bytes → Bytes → Result Vault
  load_vault env disk vault_path master_password = do
    blob ← read_file env.reads disk vault_path
    load_blob c env.now blob master_password

  -- The constructor.
  unfoldable pub open_service : Env → Disk → Bytes → Bytes → Result VaultService
  open_service env disk path master_password = do
    vault ← load_vault env disk path master_password
    let service : VaultService = record {
      vault_path = path;
      master_password = master_password;
      vault = vault;
      deleted_services = [];
    }
    ok service
