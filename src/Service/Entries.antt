-- ===== src/Service/Entries.antt =====
-- `add_entry`, `update_entry`, `delete_entry` and `get_totp_code` of src/vault_service.cpp.
pub mod Checks
pub mod Store
pub mod Laws
pub mod Password
pub mod Update
use duckpass.Crypto.{CryptoHandler}
use duckpass.Prelude.{
  ℕ, Bool, true, false, List, [], ◌∷◌, ◌++◌, Option, none, some, Bytes, text, is_empty, is_some,
  if◌then◌else◌,
}
use duckpass.Prelude.Result.{
  Result, ok, err, Error, invalid_argument, throw_if, or_throw, ◌>>=◌, ◌>>◌,
}
use duckpass.Service.Save.{save}
use duckpass.Service.State.{VaultService, Env, Outcome}
use duckpass.Storage.Disk.{Storage}
use duckpass.Totp.Base32.{decode_base32}
use duckpass.Totp.Code.{generate_totp}
use duckpass.Vault.Entries.{VaultEntry, Vault}
use duckpass.Vault.Entries

abbrev argument_error : Bytes → Error
argument_error = invalid_argument

-- `if (!totp_secret.empty()) totp::decode_base32(totp_secret);`
unfoldable pub check_secret : Bytes → Result (Unit {0})
check_secret totp_secret =
    if is_empty totp_secret then ok tt else (decode_base32 totp_secret >>= λ _. ok tt)

-- The checks of `add_entry`, in their order.
unfoldable pub check_new : Vault → Bytes → Bytes → Bytes → Bytes → Result (Unit {0})
check_new vault service username password totp_secret = do
  throw_if (is_empty service) (argument_error (text "Service name cannot be empty."))
  throw_if (is_some (Entries.get_entry service vault)) (
      argument_error (text "Service already exists. Please delete it first if you want to update."))
  throw_if (is_empty username) (argument_error (text "Username cannot be empty."))
  throw_if (is_empty password) (argument_error (text "Password cannot be empty."))
  check_secret totp_secret

-- A new value for a field that cannot be empty.
unfoldable pub set_field : Option Bytes → Bytes → Error → Result Bytes
set_field none old e = ok old
set_field (some new) old e = if is_empty new then err e else ok new

unfoldable pub set_secret : Option Bytes → Bytes → Result Bytes
set_secret none old = ok old
set_secret (some new) old = check_secret new >> ok new

-- The entry that `update_entry` stores.
unfoldable pub updated :
    ℕ → Vault → Bytes → Option Bytes → Option Bytes → Option Bytes → Result VaultEntry
updated now vault service new_username new_password new_totp_secret = do
  existing ← or_throw (Entries.get_entry service vault) (argument_error (text "Service not found."))
  username ←
      set_field new_username existing.username (argument_error (text "Username cannot be empty."))
  password ←
      set_field new_password existing.password (argument_error (text "Password cannot be empty."))
  totp_secret ← set_secret new_totp_secret existing.totp_secret
  ok (record existing {
    username = username;
    password = password;
    totp_secret = totp_secret;
    last_updated = now;
  })

module _ (c : CryptoHandler) where
  -- `vault_.add_entry(entry); save();`
  unfoldable pub store : Env → VaultEntry → VaultService → Storage → Outcome
  store env entry s storage =
      save c env (record s { vault = Entries.add_entry env.now entry s.vault }) storage

  unfoldable pub add_entry : Env → Bytes → Bytes → Bytes → Bytes → VaultService → Storage → Outcome
  add_entry env service username password totp_secret s storage =
      elim (check_new s.vault service username password totp_secret) [
        | err e ↦ (err e, s, storage)
        | ok _ ↦
            store env
              (record {
                service = service;
                username = username;
                password = password;
                totp_secret = totp_secret;
                last_updated = env.now;
              })
              s storage
      ]

  unfoldable pub update_entry :
      Env → Bytes → Option Bytes → Option Bytes → Option Bytes → VaultService → Storage → Outcome
  update_entry env service new_username new_password new_totp_secret s storage =
      elim (updated env.now s.vault service new_username new_password new_totp_secret) [
        | err e ↦ (err e, s, storage)
        | ok entry ↦ store env entry s storage
      ]

  -- After `remove_entry`, which answers whether anything was removed.
  unfoldable pub delete_removed : Env → Bytes → Bool × Vault → VaultService → Storage → Outcome
  delete_removed env service (true, vault) s storage =
      let deleted : List Bytes = s.deleted_services ++ service ∷ [] in
      save c env (record s { vault = vault; deleted_services = deleted }) storage
  delete_removed env service (false, vault) s storage =
      (err (argument_error (text "Service not found.")), s, storage)

  unfoldable pub delete_entry : Env → Bytes → VaultService → Storage → Outcome
  delete_entry env service s storage =
      delete_removed env service (Entries.remove_entry service s.vault) s storage

module _ (hmac_sha1 : Bytes → Bytes → Option Bytes) where
  -- The code and its remaining seconds, at time `now`.
  unfoldable pub get_totp_code : ℕ → Bytes → Vault → Result (Bytes × ℕ)
  get_totp_code now service vault = do
    entry ← or_throw (Entries.get_entry service vault) (argument_error (text "Service not found."))
    throw_if (is_empty entry.totp_secret) (
        argument_error
          (text "Service '" ++ (service ++ text "' does not have a 2FA TOTP secret configured.")))
    generate_totp hmac_sha1 entry.totp_secret 0 now 30 6
