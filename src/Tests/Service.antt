-- ===== src/Tests/Service.antt =====
-- src/vault_service.cpp at concrete inputs.
use duckpass.Crypto.Gcm.{encrypt_data, add_aad}
use duckpass.Crypto.Handler.{handler}
use duckpass.Prelude.{
  ◌<◌, ◌≤◌, ◌≡◌, refl, sym, subst, ◌∙◌, ◌^◌, bytes_eq, [], ◌∷◌, none, some, Bytes, text, length,
  All, arith,
}
use duckpass.Prelude.Result.{ok, err, Error}
use duckpass.Service.Entries.Laws.{add_entry_lem}
use duckpass.Service.Entries.Store.{IsLatest}
use duckpass.Service.Entries.Checks.{IsAcceptable}
use duckpass.Service.Entries.Update.{changed, IsUpdatable, update_entry_lem}
use duckpass.Service.Entries.{update_entry, add_entry}
use duckpass.Service.Merge.Laws.{newest, get_entry-merge_entries}
use duckpass.Service.Merge.{is_deleted, merge_entries, merge_disk_state}
use duckpass.Service.Rekey.Laws.{Rekeys, rekey-Rekeys}
use duckpass.Service.Rekey.{rekey}
use duckpass.Service.Save.Laws.{Saves, save-Saves}
use duckpass.Service.Save.{committed, commit_vault, save_locked, save}
use duckpass.Service.Save.Reopen.{IsSized, Readable, open_service-save}
use duckpass.Service.State.{VaultService, Env, Outcome, open_service}
use duckpass.Storage.Disk.{Disk, Storage, put, commit, exists}
use duckpass.Storage.Lock.{acquire_file_lock, flock_loop, lock_path}
use duckpass.Storage.Write.{
  tmp_path, write_all, abandon, make_backup, rename, replace_target, sync_and_replace,
  write_file_atomic,
}
use duckpass.Tests.Storage.{vault_path, one_file, read_answers, write_answers, lock_answers}
use duckpass.Text.Decimal.{to_string, digits_loop}
use duckpass.Tests.Toy.{toy, toy-IsAead}
use duckpass.Tests.Vault.{
  mail, bank, two_entries, two_entries-IsDistinct, two_entries-Fits, drawn_size, blob, password,
  salt, nonce,
}
use duckpass.Vault.Entries
use duckpass.Vault.File.{make_header, serialize_and_encrypt_vault}
use duckpass.Vault.Serial.RoundTrip.{Fits}
use duckpass.Vault.Serial.{serialize, write_entries, write_entry}
use duckpass.Vault.Wire.{write_uint32, write_uint64, write_string}
use duckpass.Storage.Read.{max_file_size}
use duckpass.Vault.Entries.{VaultEntry, Vault}

abbrev pub env : Env
env = record {
  now = 100;
  lock = lock_answers;
  reads = read_answers;
  salt = some salt;
  iv = some nonce;
  backup_write = write_answers 1;
  vault_write = write_answers 2;
}

-- `bank` is deleted here, and the disk still has it.
abbrev pub service : VaultService
service = record {
  vault_path = vault_path;
  master_password = password;
  vault = mail ∷ [];
  deleted_services = bank.service ∷ [];
}

abbrev pub disk : Disk
disk = one_file blob

abbrev pub storage : Storage
storage = record { disk = disk; history = [] }

get_entry-merge_entries_example :
    Entries.get_entry bank.service (merge_entries 100 (bank.service ∷ []) two_entries (mail ∷ []))
    ≡ newest 100
        (is_deleted (bank.service ∷ []) bank.service)
        (Entries.get_entry bank.service two_entries)
        (Entries.get_entry bank.service (mail ∷ []))
get_entry-merge_entries_example =
    get_entry-merge_entries 100 (bank.service ∷ []) two_entries (mail ∷ []) bank.service
      two_entries-IsDistinct

save-Saves_example : Saves toy env disk service (save toy env service storage)
save-Saves_example = save-Saves toy env service disk

rekey-Rekeys_example : Rekeys toy env disk service (6 ∷ []) (rekey toy env (6 ∷ []) service storage)
rekey-Rekeys_example = rekey-Rekeys toy env service (6 ∷ []) disk

abbrev added : VaultEntry
added = record {
  service = 2 ∷ [];
  username = 3 ∷ [];
  password = 4 ∷ [];
  totp_secret = [];
  last_updated = 100;
}

add_entry_lem_example :
    let o = add_entry toy env (2 ∷ []) (3 ∷ []) (4 ∷ []) [] service storage in
    (o.0 ≡ ok tt
      → IsAcceptable service.vault (2 ∷ []) (3 ∷ []) (4 ∷ []) []
        × ((f : VaultEntry) × (Entries.get_entry (2 ∷ []) o.1.vault ≡ some f)
            × IsLatest toy env disk service (2 ∷ []) added f))
    × (¬◌ (IsAcceptable service.vault (2 ∷ []) (3 ∷ []) (4 ∷ []) [])
        → (e : Error) × (o ≡ (err e, service, storage)))
    × (IsAcceptable service.vault (2 ∷ []) (3 ∷ []) (4 ∷ []) []
        → o
          ≡ save toy env
              (record service { vault = Entries.add_entry 100 added service.vault })
              storage)
add_entry_lem_example = add_entry_lem toy env (2 ∷ []) (3 ∷ []) (4 ∷ []) [] service disk

abbrev empty_disk : Disk
empty_disk path = none

abbrev new_service : VaultService
new_service = record service { vault = two_entries; deleted_services = [] }

-- What the first save gives.
abbrev first_save : Outcome
first_save = save toy env new_service (record { disk = empty_disk; history = [] })

first_saved :
    (first_save.0 ≡ ok tt)
    × (first_save.1.vault ≡ two_entries)
    × (first_save.2.disk vault_path ≡ some blob)
unfolding save save_locked commit_vault committed acquire_file_lock flock_loop merge_disk_state
    lock_path text commit put exists serialize_and_encrypt_vault handler encrypt_data add_aad
    write_file_atomic tmp_path write_all make_backup replace_target sync_and_replace abandon rename
    bytes_eq serialize write_entries write_entry write_string write_uint32 write_uint64 make_header
    blob to_string digits_loop
first_saved = (refl, refl, refl)

blob_small : length blob ≤ max_file_size
unfolding blob make_header write_uint32 serialize write_entries write_entry write_uint64
    write_string
blob_small = omega arith

small : (b : Bytes) → first_save.2.disk vault_path ≡ some b → length b ≤ max_file_size
small b e =
    let same : blob ≡ b = the_same blob b (sym (first_saved.2) ∙ e) in
    subst (λ (x : Bytes). length x ≤ max_file_size) same blob_small
  where
    the_same : (x y : Bytes) → some x ≡ some y → x ≡ y
    the_same x y h = cc

env-IsSized : IsSized env
env-IsSized = record {
  salt_size = λ b e. drawn_size salt 16 refl b e;
  iv_size = λ b e. drawn_size nonce 12 refl b e;
}

all_read : Readable read_answers
all_read = record { opens = refl; stats = refl; progresses = (tt, (omega arith, tt)) }

open_service-save_example :
    open_service toy env first_save.2.disk vault_path password ≡ ok first_save.1
open_service-save_example =
    open_service-save toy env env new_service empty_disk toy-IsAead env-IsSized
      two_entries-IsDistinct first_saved.0
      (subst (λ (v : Vault). length v < 2 ^ 32) (sym first_saved.1) (omega arith))
      (subst (λ (v : Vault). All Fits v) (sym first_saved.1) two_entries-Fits) all_read small

update_entry_lem_example :
    let o = update_entry toy env mail.service none (some (9 ∷ [])) none service storage in
    (o.0 ≡ ok tt
      → IsUpdatable service.vault mail.service none (some (9 ∷ [])) none
        × ((old : VaultEntry) × (f : VaultEntry) × (Entries.get_entry mail.service service.vault
              ≡ some old)
            × (Entries.get_entry mail.service o.1.vault ≡ some f)
            × IsLatest toy env disk service mail.service
                (changed 100 old none (some (9 ∷ [])) none)
                f))
    × (¬◌ (IsUpdatable service.vault mail.service none (some (9 ∷ [])) none)
        → (e : Error) × (o ≡ (err e, service, storage)))
    × ((old : VaultEntry)
        → Entries.get_entry mail.service service.vault ≡ some old
        → IsUpdatable service.vault mail.service none (some (9 ∷ [])) none
        → o
          ≡ save toy env
              (record service {
                vault =
                    Entries.add_entry 100 (changed 100 old none (some (9 ∷ [])) none) service.vault;
              })
              storage)
update_entry_lem_example =
    update_entry_lem toy env mail.service none (some (9 ∷ [])) none service disk
