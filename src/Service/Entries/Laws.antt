-- ===== src/Service/Entries/Laws.antt =====
-- What `add_entry` and `delete_entry` of src/vault_service.cpp have made of the vault.
use duckpass.Crypto.{CryptoHandler}
use duckpass.Prelude.{
  Bool, true, false, List, [], ◌∷◌, ◌++◌, ◌≡◌, ◌≢◌, refl, ap, ◌∙◌, inl, inr, none, some, Bytes,
  bytes_eq_refl, is_some, any_of, arith,
}
use duckpass.Prelude.Result.{ok, err, Error, Result-cases}
use duckpass.Service.Entries.Checks.{IsAcceptable, check_new-IsAcceptable, IsAcceptable-check_new}
use duckpass.Service.Save.{save}
use duckpass.Service.Entries.{check_new, store, add_entry, delete_removed, delete_entry}
use duckpass.Service.Merge.{is_deleted}
use duckpass.Service.Save.Laws.{save-Saves}
use duckpass.Service.State.{VaultService, Env}
use duckpass.Storage.Disk.{Disk, Storage}
use duckpass.Vault.Entries.Laws.{remove_entry_lem}
use duckpass.Vault.Entries.{VaultEntry, Vault, stamp, IsDistinct}
use duckpass.Vault.Entries
use duckpass.Service.Entries.Store.{IsLatest, merge_disk_state-finds, newest_deleted, store_lem}

any_of-last : (deleted : List Bytes) (k : Bytes) → is_deleted (deleted ++ k ∷ []) k ≡ true
unfolding is_deleted any_of
any_of-last [] k = rw (bytes_eq_refl k) refl
any_of-last (d ∷ deleted) k = ground (arith, any_of-last deleted k)

module _ (c : CryptoHandler) where
  -- An `add_entry` is acceptable if its service is not empty and has no entry in memory, the user name and
  -- the password are not empty, and the TOTP secret is empty or base 32. One that returned was acceptable,
  -- and the vault then has under the service the new entry, with the time of the call, or the one that the
  -- vault file had there, if that has a later time. One that is not acceptable throws, and leaves the service
  -- and the disk as they were. One that is acceptable saves the vault in memory with the new entry in it.
  pub add_entry_lem :
      (env : Env) (service username password totp_secret : Bytes) (s : VaultService) (disk : Disk)
      → let storage : Storage = record { disk = disk; history = [] } in
        let entry : VaultEntry = record {
          service = service;
          username = username;
          password = password;
          totp_secret = totp_secret;
          last_updated = env.now;
        } in
        let o = add_entry c env service username password totp_secret s storage in
        (o.0 ≡ ok tt
          → IsAcceptable s.vault service username password totp_secret
            × ((f : VaultEntry) × (Entries.get_entry service o.1.vault ≡ some f)
                × IsLatest c env disk s service entry f))
        × (¬◌ (IsAcceptable s.vault service username password totp_secret)
            → (e : Error) × (o ≡ (err e, s, storage)))
        × (IsAcceptable s.vault service username password totp_secret
            → o ≡ save c env (record s { vault = Entries.add_entry env.now entry s.vault }) storage)
  unfolding add_entry
  add_entry_lem env service username password totp_secret s disk =
      elim (Result-cases (check_new s.vault service username password totp_secret)) [
        | inr (e, failed) ↦
            rw (failed, add_entry)
              (
                (λ h. cc),
                (λ h. (e, refl)),
                (λ h.
                    let passed =
                      IsAcceptable-check_new s.vault service username password totp_secret h in
                    absurd cc),
              )
        | inl (x, passed) ↦
            let entry : VaultEntry = record {
              service = service;
              username = username;
              password = password;
              totp_secret = totp_secret;
              last_updated = env.now;
            } in
            let fine =
              check_new-IsAcceptable s.vault service username password totp_secret passed in
            rw (passed, add_entry)
              (
                (λ h. (fine, store_lem c env entry s disk refl h)),
                (λ h. absurd (h fine)),
                (λ h. unfold store in refl),
              )
      ]

  -- A `delete_entry` that returned leaves no entry under the service, whatever other processes have written
  -- there, and no service is left marked as deleted. Without an entry of the service in memory it throws and
  -- leaves the service and the disk as they were.
  pub delete_entry_lem :
      (env : Env) (service : Bytes) (s : VaultService) (disk : Disk)
      → let storage : Storage = record { disk = disk; history = [] } in
        let o = delete_entry c env service s storage in
        (o.0 ≡ ok tt → (Entries.get_entry service o.1.vault ≡ none) × (o.1.deleted_services ≡ []))
        × (Entries.get_entry service s.vault ≡ none → (o.0 ≢ ok tt) × (o.1 ≡ s) × (o.2 ≡ storage))
  unfolding delete_entry delete_removed
  delete_entry_lem env service s disk =
      let (found, gone) = remove_entry_lem service service s.vault in
      let missing : Entries.get_entry service (Entries.remove_entry service s.vault).1 ≡ none =
        gone ∙ rw (bytes_eq_refl service) refl in
      delete_cases (Entries.remove_entry service s.vault) found missing
    where
      delete_cases :
          (r : Bool × Vault)
          → r.0 ≡ is_some (Entries.get_entry service s.vault)
          → Entries.get_entry service r.1 ≡ none
          → let storage : Storage = record { disk = disk; history = [] } in
            let o = delete_removed c env service r s storage in
            (o.0 ≡ ok tt
              → (Entries.get_entry service o.1.vault ≡ none) × (o.1.deleted_services ≡ []))
            × (Entries.get_entry service s.vault ≡ none
                → (o.0 ≢ ok tt) × (o.1 ≡ s) × (o.2 ≡ storage))
      delete_cases (false, vault) found missing = ((λ h. cc), (λ h. ((λ d. cc), refl, refl)))
      delete_cases (true, vault) found missing = (
        (λ done.
            let s' : VaultService = record s {
              vault = vault;
              deleted_services = s.deleted_services ++ service ∷ [];
            } in
            let (v, blob, w, file, now_held) = (save-Saves c env s' disk).on_ok done in
            let (on_disk, _, finds) =
              merge_disk_state-finds c env disk s' (record s' { vault = v }) service w.merged in
            (
              ap (λ (x : VaultService). Entries.get_entry service x.vault) now_held
                  ∙ (finds
                      ∙ (rw (any_of-last s.deleted_services service, missing)
                          (newest_deleted c env.now on_disk))),
              ap (λ (x : VaultService). x.deleted_services) now_held,
            )),
        (λ h. absurd cc),
      )
