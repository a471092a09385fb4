-- ===== src/Shell/Session.antt =====
-- The commands of `run_interactive_shell` that change the vault, on the lines that are typed for them.
-- What is printed is left out.
use duckpass.Crypto.{CryptoHandler}
use duckpass.Prelude.{
  ℕ, suc, Bool, ◌||◌, not, List, [], ◌∷◌, Option, none, some, Bytes, text, bytes_eq, is_empty,
  is_some, map, if◌then◌else◌,
}
use duckpass.Prelude.Result.{Result, ok, err, Error, ◌>>=◌}
use duckpass.Service.Entries.{add_entry, update_entry, delete_entry}
use duckpass.Service.Rekey.{rekey}
use duckpass.Service.State.{VaultService, Env, Outcome}
use duckpass.Shell.{Command, trim_front, trim_back}
use duckpass.Storage.Disk.{Storage}
use duckpass.Vault.Entries.{VaultEntry, Vault}
use duckpass.Vault.Entries

-- The service on its storage, the services that TAB completes, and how often the agent was told to lock.
pub record Session : Type 0 where
  pub vault_service : VaultService
  pub storage : Storage
  pub services : List Bytes
  pub locks : ℕ

-- What one command needs from outside: the answers of the system, whether the agent is available, and
-- `generate_password(20)`.
pub record Outside : Type 0 where
  pub env : Env
  pub is_agent_available : Bool
  pub generated : Result Bytes

-- After a command: the prompt comes back, the shell ends, an exception ends it, or it waits for a line.
pub data Next : Type 0 where
  prompts : Session → Next
  exits : Session → Next
  throws : Error → Session → Next
  waits : Next

unfoldable pub refresh_services : Session → Session
refresh_services s = record s {
  services = map (λ (e : VaultEntry). e.service) s.vault_service.vault;
}

unfoldable pub sync_agent : Outside → Session → Session
sync_agent outside s = if outside.is_agent_available then record s { locks = suc s.locks } else s

abbrev pub moved : VaultService → Storage → Session → Session
moved vault_service storage s = record s { vault_service = vault_service; storage = storage }

-- The end of a `try` block with `refresh_services` and `sync_agent`; the handlers print the exception.
unfoldable pub refreshed : Outside → Session → Outcome → Session
refreshed outside s (ok _, vault_service, storage) =
    sync_agent outside (refresh_services (moved vault_service storage s))
refreshed outside s (err e, vault_service, storage) = moved vault_service storage s

-- One with `sync_agent` alone.
unfoldable pub synced : Outside → Session → Outcome → Session
synced outside s (ok _, vault_service, storage) = sync_agent outside (moved vault_service storage s)
synced outside s (err e, vault_service, storage) = moved vault_service storage s

-- `trim_secure` and `trim_sec`
abbrev pub trim_secure : Bytes → Bytes
trim_secure s = trim_back (trim_front s)

-- The loop that asks for a service, with the lines behind the one that it takes.
unfoldable pub read_service : Vault → List Bytes → Option (Bytes × List Bytes)
read_service vault [] = none
read_service vault (line ∷ lines) =
    let service = trim_secure line in
    let again = read_service vault lines in
    if is_empty service || is_some (Entries.get_entry service vault)
    then again
    else some (service, lines)

unfoldable pub read_username : List Bytes → Option (Bytes × List Bytes)
read_username [] = none
read_username (line ∷ lines) =
    let username = trim_secure line in
    let again = read_username lines in if is_empty username then again else some (username, lines)

-- A password is not trimmed.
unfoldable pub read_new_password : List Bytes → Option (Bytes × List Bytes)
read_new_password [] = none
read_new_password (line ∷ lines) =
    let again = read_new_password lines in if is_empty line then again else some (line, lines)

-- An empty line keeps the value.
unfoldable pub new_value : Bytes → Option Bytes
new_value line = if is_empty line then none else some line

unfoldable pub new_password_of : Result Bytes → Bytes → Result (Option Bytes)
unfolding text
new_password_of generated line =
    if is_empty line
    then ok none
    else if bytes_eq line (text "g")
    then (generated >>= λ password. ok (some password))
    else ok (some line)

module _ (c : CryptoHandler) (outside : Outside) where
  unfoldable pub run_delete : Bytes → Session → Session
  run_delete service s =
      refreshed outside s (delete_entry c outside.env service s.vault_service s.storage)

  -- The four values, and the last line is the secret.
  unfoldable pub add_typed : Bytes → Bytes → Bytes → List Bytes → Session → Next
  add_typed service username password [] s = waits
  add_typed service username password (line ∷ _) s = prompts (
      refreshed outside s (
        add_entry c outside.env service username password (trim_secure line) s.vault_service
          s.storage))

  unfoldable pub add_named : Bytes → Bytes → Option (Bytes × List Bytes) → Session → Next
  add_named service username none s = waits
  add_named service username (some (password, lines)) s =
      add_typed service username password lines s

  unfoldable pub add_service : Bytes → Option (Bytes × List Bytes) → Session → Next
  add_service service none s = waits
  add_service service (some (username, lines)) s =
      add_named service username (read_new_password lines) s

  unfoldable pub add_to : Option (Bytes × List Bytes) → Session → Next
  add_to none s = waits
  add_to (some (service, lines)) s = add_service service (read_username lines) s

  unfoldable pub run_add : List Bytes → Session → Next
  run_add lines s = add_to (read_service s.vault_service.vault lines) s

  -- `generate_password` stands outside of the `try` block.
  unfoldable pub edit_typed : Bytes → Bytes → Result (Option Bytes) → Bytes → Session → Next
  edit_typed service new_user (err e) new_totp s = throws e s
  edit_typed service new_user (ok new_pass) new_totp s = prompts (
      synced outside s (
        update_entry c outside.env service (new_value (trim_secure new_user)) new_pass
          (new_value (trim_secure new_totp)) s.vault_service s.storage))

  unfoldable pub edit_found : Bytes → List Bytes → Session → Next
  edit_found service (new_user ∷ new_pass ∷ new_totp ∷ _) s =
      edit_typed service new_user (new_password_of outside.generated new_pass) new_totp s
  edit_found service (_ ∷ _ ∷ []) s = waits
  edit_found service (_ ∷ []) s = waits
  edit_found service [] s = waits

  unfoldable pub run_edit : Bytes → List Bytes → Session → Next
  run_edit service lines s =
      if is_some (Entries.get_entry service s.vault_service.vault)
      then edit_found service lines s
      else prompts s

  -- The current password is asked for and not looked at.
  unfoldable pub run_rekey : List Bytes → Session → Next
  run_rekey (curr_pwd ∷ new_pwd1 ∷ new_pwd2 ∷ _) s =
      if not (bytes_eq new_pwd1 new_pwd2)
      then prompts s
      else if is_empty new_pwd1
      then prompts s
      else prompts (synced outside s (rekey c outside.env new_pwd1 s.vault_service s.storage))
  run_rekey (_ ∷ _ ∷ []) s = waits
  run_rekey (_ ∷ []) s = waits
  run_rekey [] s = waits

  -- The other commands read the vault only.
  unfoldable pub run_command : Command → List Bytes → Session → Next
  run_command Command.exit lines s = exits s
  run_command (Command.delete service) lines s = prompts (run_delete service s)
  run_command Command.add lines s = run_add lines s
  run_command (Command.edit service) lines s = run_edit service lines s
  run_command Command.rekey lines s = run_rekey lines s
  run_command _ lines s = prompts s
