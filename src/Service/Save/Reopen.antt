-- ===== src/Service/Save/Reopen.antt =====
-- What was saved is what the next start of the program opens.
use duckpass.Crypto.{CryptoHandler, IsAead, salt_bytes, iv_bytes}
use duckpass.Prelude.{
  ◌^◌, ◌≤◌, ◌<◌, [], ◌≡◌, refl, sym, ap, ◌∙◌, subst, none, some, Bytes, length, All, Bool-cases,
  inl, inr,
}
use duckpass.Prelude.Result.{ok, bind-eq-ok}
use duckpass.Service.Merge.Laws.{merge_entries-IsDistinct}
use duckpass.Service.Merge.{merge_disk_state, merge_entries}
use duckpass.Service.Save.Laws.{save-Saves}
use duckpass.Service.Save.{save}
use duckpass.Service.State.{VaultService, Env, load_vault, open_service}
use duckpass.Storage.Disk.{Disk, exists}
use duckpass.Storage.Read.Laws.{Progresses, read_file_complete}
use duckpass.Storage.Read.{ReadAnswers, max_file_size}
use duckpass.Vault.Entries.{Vault, IsDistinct}
use duckpass.Vault.File.RoundTrip.{load_blob-serialize_and_encrypt_vault}
use duckpass.Vault.File.{serialize_and_encrypt_vault}
use duckpass.Vault.Serial.RoundTrip.{Fits}

-- The random bytes come in the sizes that were asked for.
pub record IsSized (env : Env) : Type 0 where
  pub salt_size : (b : Bytes) → env.salt ≡ some b → length b ≡ salt_bytes
  pub iv_size : (b : Bytes) → env.iv ≡ some b → length b ≡ iv_bytes

-- No call of a read fails.
pub record Readable (a : ReadAnswers) : Type 0 where
  pub opens : a.open_fails ≡ none
  pub stats : a.stat_fails ≡ none
  pub progresses : All Progresses a.calls

-- What the format can hold.
pub record Storable (v : Vault) : Type 0 where
  pub count : length v < 2 ^ 32
  pub entries_fit : All Fits v
  pub distinct : IsDistinct v

module _ (c : CryptoHandler) where
  pub merge_disk_state-IsDistinct :
      (env : Env) (disk : Disk) (s m : VaultService)
      → IsDistinct s.vault
      → merge_disk_state c env disk s ≡ ok m
      → IsDistinct m.vault
  unfolding merge_disk_state
  merge_disk_state-IsDistinct env disk s m d h = elim (Bool-cases (exists disk s.vault_path)) [
    | inr missing ↦
        let same : s ≡ m = cc (rw missing at h) in
        subst (λ (x : VaultService). IsDistinct x.vault) same d
    | inl there ↦
        let (v, _, e) =
          bind-eq-ok (load_vault c env disk s.vault_path s.master_password) _ (rw there at h) in
        let same : record s { vault = merge_entries env.now s.deleted_services v s.vault } ≡ m =
          cc in
        subst (λ (x : VaultService). IsDistinct x.vault) same
          (merge_entries-IsDistinct env.now s.deleted_services v s.vault d)
  ]

  -- A readable file that holds a saved vault opens with its password.
  pub open_saved :
      (env env' : Env) (disk : Disk) (path password blob : Bytes) (v : Vault)
      → IsAead c
      → IsSized env
      → Storable v
      → serialize_and_encrypt_vault c env.salt env.iv v password ≡ ok blob
      → Readable env'.reads
      → disk path ≡ some blob
      → length blob ≤ max_file_size
      → open_service c env' disk path password
        ≡ ok (record {
          vault_path = path;
          master_password = password;
          vault = v;
          deleted_services = [];
        })
  unfolding open_service load_vault
  open_saved env env' disk path password blob v laws sized fits made r found small =
      rw
        (
          read_file_complete env'.reads disk path blob r.opens r.stats r.progresses found small,
          load_blob-serialize_and_encrypt_vault c laws env.salt env.iv v password blob env'.now
              sized.salt_size sized.iv_size fits.count fits.entries_fit fits.distinct made,
        )
        refl

  -- With a cipher that decrypts what it encrypts, salts of 16 bytes and nonces of 12, and distinct services
  -- in memory before the save: after a save that returned, if the vault in memory has fewer than 2^32
  -- entries, with strings shorter than 2^32 bytes and times that are set and below 2^64, and if no call that
  -- reads its file fails and the file is not above the limit, then the file opens under the same password
  -- to the service as the save left it.
  pub open_service-save :
      (env env' : Env) (s : VaultService) (disk : Disk)
      → IsAead c
      → IsSized env
      → IsDistinct s.vault
      → let o = save c env s (record { disk = disk; history = [] }) in
        o.0 ≡ ok tt
        → length o.1.vault < 2 ^ 32
        → All Fits o.1.vault
        → Readable env'.reads
        → ((b : Bytes) → o.2.disk s.vault_path ≡ some b → length b ≤ max_file_size)
        → open_service c env' o.2.disk s.vault_path s.master_password ≡ ok o.1
  open_service-save env env' s disk laws sized d done count fit r small =
      let (v, blob, w, file, now_held) = (save-Saves c env s disk).on_ok done in
      let opened =
        open_saved env env' _ s.vault_path s.master_password blob v laws sized
          (record {
            count = subst (λ (x : VaultService). length x.vault < 2 ^ 32) now_held count;
            entries_fit = subst (λ (x : VaultService). All Fits x.vault) now_held fit;
            distinct = merge_disk_state-IsDistinct env disk s (record s { vault = v }) d w.merged;
          })
          w.encrypted r file (small blob file) in
      opened ∙ ap ok (sym now_held)
