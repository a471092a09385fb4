-- ===== src/Service/Entries/Store.antt =====
-- What a vault holds under a service, once an entry was stored and the merge with the vault file has returned.
use duckpass.Crypto.{CryptoHandler}
use duckpass.Prelude.{
  ℕ, ◌<◌, ◌==◌, Bool, true, false, [], ◌≡◌, refl, sym, ap, ◌∙◌, subst, ◌⊎◌, inl, inr, Option, none,
  some, Bytes, bytes_eq_refl, ltb, ltb→lt, arith, Bool-cases,
}
use duckpass.Prelude.Result.{ok, bind-eq-ok}
use duckpass.Service.Entries.{store}
use duckpass.Service.Merge.Laws.{newest, get_entry-merge_entries}
use duckpass.Service.Merge.{is_deleted, is_newer, merge_entries, merge_disk_state}
use duckpass.Service.Save.Laws.{save-Saves}
use duckpass.Service.State.{VaultService, Env, load_vault}
use duckpass.Storage.Disk.{Disk, exists}
use duckpass.Storage.Read.{read_file}
use duckpass.Vault.Entries.Laws.{get_entry-add_entry}
use duckpass.Vault.Entries.{VaultEntry, Vault, stamp, IsDistinct}
use duckpass.Vault.Entries
use duckpass.Vault.File.Guards.{load_blob-IsDistinct}

module _ (c : CryptoHandler) where
  load_vault-IsDistinct :
      (env : Env) (disk : Disk) (path password : Bytes) (v : Vault)
      → load_vault c env disk path password ≡ ok v
      → IsDistinct v
  unfolding load_vault
  load_vault-IsDistinct env disk path password v h =
      let (blob, _, loaded) = bind-eq-ok (read_file env.reads disk path) _ h in
      load_blob-IsDistinct c env.now blob password v loaded

  -- What the vault file holds under a service, if it is there.
  abbrev pub IsOnDisk : Env → Disk → VaultService → Bytes → Option VaultEntry → Type 0
  IsOnDisk env disk s k none = Unit {0}
  IsOnDisk env disk s k (some d) =
      (v : Vault) × (load_vault c env disk s.vault_path s.master_password ≡ ok v)
      × (Entries.get_entry k v ≡ some d)

  -- The entry of this call, or a later one that the vault file had before it.
  abbrev pub IsLatest : Env → Disk → VaultService → Bytes → VaultEntry → VaultEntry → Type 0
  IsLatest env disk s k entry f =
      (f ≡ entry) ⊎ (IsOnDisk env disk s k (some f) × (env.now < f.last_updated))

  found-IsOnDisk :
      (env : Env) (disk : Disk) (s : VaultService) (k : Bytes) (v : Vault)
      → load_vault c env disk s.vault_path s.master_password ≡ ok v
      → (o : Option VaultEntry) → Entries.get_entry k v ≡ o
      → IsOnDisk env disk s k o
  found-IsOnDisk env disk s k v loaded none h = tt
  found-IsOnDisk env disk s k v loaded (some d) h = (v, loaded, h)

  -- A merge finds under each service what the disk or the memory had, as `newest` says.
  pub merge_disk_state-finds :
      (env : Env) (disk : Disk) (s m : VaultService) (k : Bytes)
      → merge_disk_state c env disk s ≡ ok m
      → (on_disk : Option VaultEntry) × IsOnDisk env disk s k on_disk
        × (Entries.get_entry k m.vault
            ≡ newest env.now
                (is_deleted s.deleted_services k)
                on_disk
                (Entries.get_entry k s.vault))
  unfolding merge_disk_state newest
  merge_disk_state-finds env disk s m k h = elim (Bool-cases (exists disk s.vault_path)) [
    | inr missing ↦
        let same : s ≡ m = cc (rw missing at h) in
        (none, tt, ap (λ (x : VaultService). Entries.get_entry k x.vault) (sym same))
    | inl there ↦
        let (v, loaded, e) =
          bind-eq-ok (load_vault c env disk s.vault_path s.master_password) _ (rw there at h) in
        let same : record s { vault = merge_entries env.now s.deleted_services v s.vault } ≡ m =
          cc in
        (
          Entries.get_entry k v,
          found-IsOnDisk env disk s k v loaded (Entries.get_entry k v) refl,
          ap (λ (x : VaultService). Entries.get_entry k x.vault) (sym same)
              ∙ get_entry-merge_entries env.now s.deleted_services v s.vault k
                  (load_vault-IsDistinct env disk s.vault_path s.master_password v loaded),
        )
  ]

  -- A merge keeps an entry of this moment, unless the disk has one of a later moment.
  newest_added :
      (env : Env) (disk : Disk) (s : VaultService) (k : Bytes) (deleted : Bool)
      (on_disk : Option VaultEntry) (e : VaultEntry)
      → IsOnDisk env disk s k on_disk
      → e.last_updated ≡ env.now
      → (f : VaultEntry) × (newest env.now deleted on_disk (some e) ≡ some f)
        × IsLatest env disk s k e f
  unfolding newest is_newer stamp
  newest_added env disk s k deleted none e there h = (e, refl, inl refl)
  newest_added env disk s k true (some d) e there h = (e, refl, inl refl)
  newest_added env disk s k false (some d) e there h =
      elim (Bool-cases (ltb e.last_updated d.last_updated)) [
        | inr older ↦ (e, rw older refl, inl refl)
        | inl newer ↦
            let later : env.now < d.last_updated =
              subst (λ n. n < d.last_updated) h (ltb→lt _ _ newer) in
            (d, rw newer (ground arith), inr (there, later))
      ]

  pub newest_deleted : (now : ℕ) (on_disk : Option VaultEntry) → newest now true on_disk none ≡ none
  unfolding newest
  newest_deleted now none = refl
  newest_deleted now (some d) = refl

  stamp_now : (now : ℕ) (e : VaultEntry) → e.last_updated ≡ now → stamp now e ≡ e
  unfolding stamp
  stamp_now now e h = elim (Bool-cases (e.last_updated == 0)) [
    | inr later ↦ rw later refl
    | inl start ↦ rw (start, sym h) refl
  ]

  -- After storing an entry of this moment, a save that returned has it in the vault, or a later one of the
  -- vault file.
  pub store_lem :
      (env : Env) (entry : VaultEntry) (s : VaultService) (disk : Disk)
      → entry.last_updated ≡ env.now
      → let o = store c env entry s (record { disk = disk; history = [] }) in
        o.0 ≡ ok tt
        → (f : VaultEntry) × (Entries.get_entry entry.service o.1.vault ≡ some f)
          × IsLatest env disk s entry.service entry f
  unfolding store
  store_lem env entry s disk stamped done =
      let s' : VaultService = record s { vault = Entries.add_entry env.now entry s.vault } in
      let (v, blob, w, file, now_held) = (save-Saves c env s' disk).on_ok done in
      let (on_disk, there, finds) =
        merge_disk_state-finds env disk s' (record s' { vault = v }) entry.service w.merged in
      let (f, kept, which) =
        newest_added env disk s entry.service (is_deleted s.deleted_services entry.service) on_disk
          entry there stamped in
      let held : Entries.get_entry entry.service s'.vault ≡ some entry =
        get_entry-add_entry env.now entry.service entry s.vault
        ∙ (rw (bytes_eq_refl entry.service) (ap some (stamp_now env.now entry stamped))) in
      (
        f,
        ap (λ (x : VaultService). Entries.get_entry entry.service x.vault) now_held
            ∙ (finds
                ∙ (ap (newest env.now (is_deleted s.deleted_services entry.service) on_disk) held
                    ∙ kept)),
        which,
      )
