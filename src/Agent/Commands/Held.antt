-- ===== src/Agent/Commands/Held.antt =====
-- Only an `UNLOCK` changes the master password that the agent holds.
use duckpass.Agent.Commands.{
  Reply, Answer, outcome_reply, serve, handle_unlock, handle_get, handle_add, handle_delete,
  handle_list, handle_totp, handle_command,
}
use duckpass.Agent.State.{AgentServer, Call, lock, unlock, check_idle_timeout, not_watched}
use duckpass.Crypto.{CryptoHandler}
use duckpass.Ipc.Opcode.{
  CommandOpcode, ping_command, status_command, unlock_command, lock_command, get_entry_command,
  add_entry_command, delete_entry_command, list_entries_command, get_totp_command, stop_command,
}
use duckpass.Ipc.Wire.{extract_string}
use duckpass.Prelude.{
  ℕ, Bool, true, false, List, [], ◌≡◌, refl, sym, ap, ◌∙◌, ◌⊎◌, inl, inr, Option, none, some, Bytes,
  if◌then◌else◌, Bool-cases, Option-cases,
}
use duckpass.Prelude.Result.{ok, err, Result-cases}
use duckpass.Service.Entries.Password.{add_entry-master_password, delete_entry-master_password}
use duckpass.Service.Search.{MatchResult}
use duckpass.Service.State.{VaultService, Outcome, open_service, load_vault}
use duckpass.Storage.Disk.{Disk, Storage, exists}

-- The agent is unlocked with this master password.
abbrev pub Holds : Bytes → AgentServer → Type 0
Holds p a = (s : VaultService) × (a.vault_service ≡ some s) × (s.master_password ≡ p)

-- The payload is a master password, as `UNLOCK` sends it.
abbrev pub Unlocks : Bytes → Option CommandOpcode → Bytes → Type 0
Unlocks p command payload =
    (command ≡ some unlock_command)
    × ((extract_string payload 0 []).found ≡ true)
    × ((extract_string payload 0 []).out_str ≡ p)

same_service : (s t : VaultService) → some s ≡ some t → s ≡ t
same_service s t h = cc

serve_locked :
    (clock : ℕ) (a : AgentServer) (storage : Storage)
    (f : VaultService → Reply × VaultService × Storage)
    → a.vault_service ≡ none
    → (serve clock a storage f).1.vault_service ≡ none
unfolding serve
serve_locked clock a storage f h = rw (h, serve) h

serve_unlocked :
    (clock : ℕ) (a : AgentServer) (storage : Storage)
    (f : VaultService → Reply × VaultService × Storage) (s : VaultService)
    → a.vault_service ≡ some s
    → (serve clock a storage f).1.vault_service ≡ some (f s).1
unfolding serve
serve_unlocked clock a storage f s h = rw (h, serve) refl

module _ (p : Bytes) where
  Holds-serve :
      (clock : ℕ) (a : AgentServer) (storage : Storage)
      (f : VaultService → Reply × VaultService × Storage)
      → ((s : VaultService) → (f s).1.master_password ≡ s.master_password)
      → Holds p (serve clock a storage f).1
      → Holds p a
  Holds-serve clock a storage f kept (t, e, q) = elim (Option-cases a.vault_service) [
    | inl locked ↦ absurd (let off = serve_locked clock a storage f locked in cc)
    | inr (s, unlocked) ↦
        let same = same_service (f s).1 t (sym (serve_unlocked clock a storage f s unlocked) ∙ e) in
        (s, unlocked, sym (kept s) ∙ (ap (λ (x : VaultService). x.master_password) same ∙ q))
  ]

  pub Holds-lock : (a : AgentServer) → Holds p (lock a) → Holds p a
  unfolding lock
  Holds-lock a (t, e, q) = absurd cc

  pub Holds-timeout :
      (watched late : Bool) (a : AgentServer)
      → Holds p (if watched then a else if late then lock a else a)
      → Holds p a
  Holds-timeout true late a h = h
  Holds-timeout false true a h = Holds-lock a h
  Holds-timeout false false a h = h

  pub Holds-check_idle_timeout :
      (now : ℕ) (a : AgentServer) → Holds p (check_idle_timeout now a) → Holds p a
  unfolding check_idle_timeout
  Holds-check_idle_timeout now a h = Holds-timeout (not_watched a) _ a h

  Holds-checked :
      (good : Bool) (r : Reply) (a : AgentServer) (storage : Storage) (o : Answer)
      → (Holds p o.1 → Holds p a)
      → Holds p (if good then o else (r, a, storage)).1
      → Holds p a
  Holds-checked true r a storage o f h = f h
  Holds-checked false r a storage o f h = h

  Holds-outcome : (o : Outcome) → (outcome_reply o).1.master_password ≡ o.1.master_password
  unfolding outcome_reply
  Holds-outcome (ok _, s, storage) = refl
  Holds-outcome (err e, s, storage) = refl

module _ (p : Bytes) (c : CryptoHandler) where
  -- An `unlock` that changes the vault service keeps the password it was given.
  Holds-unlock :
      (call : Call) (master_password : Bytes) (a : AgentServer) (disk : Disk)
      → Holds p (unlock c call master_password a disk).1
      → Holds p a ⊎ (master_password ≡ p)
  unfolding unlock open_service
  Holds-unlock call master_password a disk h = elim (Result-cases call.vault_path) [
    | inr (e, failed) ↦ inl (rw (failed, unlock) at h)
    | inl (path, found) ↦ elim (Bool-cases (exists disk path)) [
      | inr missing ↦ inl (rw (found, missing, unlock) at h)
      | inl there ↦ elim (Result-cases (load_vault c call.env disk path master_password)) [
        | inr (e, failed) ↦ inl (rw (found, there, failed, unlock, open_service) at h)
        | inl (v, loaded) ↦
            let (t, e, q) = rw (found, there, loaded, unlock, open_service) at h in
            inr (ap (λ (x : VaultService). x.master_password) (same_service _ t e) ∙ q)
      ]
    ]
  ]

module _ (p : Bytes) (c : CryptoHandler) (hmac_sha1 : Bytes → Bytes → Option Bytes)
    (sort : List MatchResult → List MatchResult) where
  Holds-handle_unlock :
      (call : Call) (payload : Bytes) (a : AgentServer) (storage : Storage)
      → Holds p (handle_unlock c hmac_sha1 sort call payload a storage).1
      → Holds p a ⊎ Unlocks p (some unlock_command) payload
  unfolding handle_unlock
  Holds-handle_unlock call payload a storage h =
      elim (Bool-cases (extract_string payload 0 []).found) [
        | inr malformed ↦ inl (rw malformed at h)
        | inl found ↦
            let pwd = (extract_string payload 0 []).out_str in
            elim (Option-cases (unlock c call pwd a storage.disk).0) [
              | inl done ↦
                  after found (Holds-unlock p c call pwd a storage.disk (rw (found, done) at h))
              | inr (e, failed) ↦
                  after found (Holds-unlock p c call pwd a storage.disk (rw (found, failed) at h))
            ]
      ]
    where
      after :
          (extract_string payload 0 []).found ≡ true
          → Holds p a ⊎ ((extract_string payload 0 []).out_str ≡ p)
          → Holds p a ⊎ Unlocks p (some unlock_command) payload
      after found (inl held) = inl held
      after found (inr same) = inr (refl, found, same)

  pub Holds-handle_command :
      (call : Call) (command : Option CommandOpcode) (payload : Bytes) (a : AgentServer)
      (storage : Storage)
      → Holds p (handle_command c hmac_sha1 sort call command payload a storage).1
      → Holds p a ⊎ Unlocks p command payload
  unfolding handle_command handle_get handle_add handle_delete handle_list handle_totp
  Holds-handle_command call none payload a storage h = inl h
  Holds-handle_command call (some ping_command) payload a storage h = inl h
  Holds-handle_command call (some status_command) payload a storage h = inl h
  Holds-handle_command call (some unlock_command) payload a storage h =
      Holds-handle_unlock call payload a storage h
  Holds-handle_command call (some lock_command) payload a storage h = inl (Holds-lock p a h)
  Holds-handle_command call (some get_entry_command) payload a storage h =
      inl (Holds-checked p _ _ a storage _ (Holds-serve p _ a storage _ (λ s. refl)) h)
  Holds-handle_command call (some add_entry_command) payload a storage h = inl (
      Holds-checked p _ _ a storage _
        (Holds-serve p _ a storage _
          (λ s. Holds-outcome p _ ∙ add_entry-master_password c call.env _ _ _ _ s storage))
        h)
  Holds-handle_command call (some delete_entry_command) payload a storage h = inl (
      Holds-checked p _ _ a storage _
        (Holds-serve p _ a storage _
          (λ s. Holds-outcome p _ ∙ delete_entry-master_password c call.env _ s storage))
        h)
  Holds-handle_command call (some list_entries_command) payload a storage h =
      inl (Holds-serve p _ a storage _ (λ s. refl) h)
  Holds-handle_command call (some get_totp_command) payload a storage h =
      inl (Holds-checked p _ _ a storage _ (Holds-serve p _ a storage _ (λ s. refl)) h)
  Holds-handle_command call (some stop_command) payload a storage h = inl h
